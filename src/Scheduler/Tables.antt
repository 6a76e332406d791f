-- ===== src/Scheduler/Tables.antt =====
-- The queries over the table `cards` that pylib/anki/scheduler/v2.py makes, and the list
-- operations on what they return.
pub mod Select
use anki.Prelude.{
  contains, ℕ, Bool, true, false, ◌&&◌, ◌||◌, Option, none, some, List, [], ◌∷◌, length, select,
  map, take, ◌==◌, ltb, if◌then◌else◌,
}
use anki.Prelude.Int.{ℤ, pos, negsuc, ltb_ℤ, leb_ℤ}
use anki.Scheduler.Card.{CardQueue, Card}
use anki.Scheduler.Answer.{is_queue_new, is_queue_rev}
use anki.Scheduler.Learn.{heappush}

-- `limit ?`: SQLite reads a negative limit as none.
abbrev pub sql_limit : {A : Type 0} → ℤ → List A → List A
sql_limit (pos n) rows = take n rows
sql_limit (negsuc n) rows = rows

-- `order by`: rows are inserted in order, by a test that tells which of two comes first.
unfoldable pub insert_by : {A : Type 0} → (A → A → Bool) → A → List A → List A
insert_by before x [] = x ∷ []
insert_by before x (y ∷ ys) =
    let rest = insert_by before x ys in if before y x then y ∷ rest else x ∷ y ∷ ys

unfoldable pub sort_by : {A : Type 0} → (A → A → Bool) → List A → List A
unfolding insert_by
sort_by before [] = []
sort_by before (x ∷ xs) = insert_by before x (sort_by before xs)

abbrev pub is_lrn : CardQueue → Bool
is_lrn CardQueue.lrn = true
is_lrn _ = false

abbrev pub is_day_learn : CardQueue → Bool
is_day_learn CardQueue.day_learn_relearn = true
is_day_learn _ = false

abbrev pub is_preview : CardQueue → Bool
is_preview CardQueue.preview = true
is_preview _ = false

abbrev pub due_ord_before : Card → Card → Bool
due_ord_before a b =
    if ltb_ℤ a.due b.due then true else if ltb_ℤ b.due a.due then false else ltb a.ord b.ord

-- `select id from cards where did = ? and queue = {QUEUE_TYPE_NEW} order by due,ord limit ?`
unfoldable pub select_new : ℕ → ℤ → List Card → List ℕ
unfolding sort_by
select_new did lim rows =
    map (λ (c : Card). c.id)
      (sql_limit lim
        (sort_by due_ord_before (select (λ c. c.did == did && is_queue_new c.queue) rows)))

-- `random` breaks the ties between cards that are due on one day.
abbrev pub due_random_before : (ℕ → ℕ) → Card → Card → Bool
due_random_before random a b =
    if ltb_ℤ a.due b.due
    then true
    else if ltb_ℤ b.due a.due
    then false
    else ltb (random a.id) (random b.id)

-- `select id from cards where did in %s and queue = {QUEUE_TYPE_REV} and due <= ?
-- order by due, random() limit ?`
abbrev pub is_due_review : ℕ → List ℕ → Card → Bool
is_due_review today dids c = contains c.did dids && is_queue_rev c.queue && leb_ℤ c.due (pos today)

unfoldable pub select_rev : (ℕ → ℕ) → ℕ → List ℕ → ℤ → List Card → List ℕ
unfolding sort_by
select_rev random today dids lim rows =
    map (λ (c : Card). c.id)
      (sql_limit lim (sort_by (due_random_before random) (select (is_due_review today dids) rows)))

-- `select due, id from cards where did in %s and queue in ({QUEUE_TYPE_LRN},{QUEUE_TYPE_PREVIEW})
-- and due < ? limit %d`, and the `sort` after it
abbrev pub is_due_learning : ℕ → List ℕ → Card → Bool
is_due_learning cutoff dids c =
    contains c.did dids && (is_lrn c.queue || is_preview c.queue) && ltb_ℤ c.due (pos cutoff)

unfoldable pub heapify : List (ℤ × ℕ) → List (ℤ × ℕ)
unfolding heappush
heapify [] = []
heapify (e ∷ es) = heappush e (heapify es)

unfoldable pub select_lrn : ℕ → List ℕ → ℕ → List Card → List (ℤ × ℕ)
unfolding heapify
select_lrn cutoff dids lim rows =
    heapify
      (map (λ (c : Card). (c.due, c.id)) (take lim (select (is_due_learning cutoff dids) rows)))

-- `select id from cards where did = ? and queue = {QUEUE_TYPE_DAY_LEARN_RELEARN} and due <= ?
-- limit ?`
unfoldable pub select_lrn_day : ℕ → ℕ → ℕ → List Card → List ℕ
select_lrn_day today did lim rows =
    map (λ (c : Card). c.id)
      (take lim
        (select (λ c. c.did == did && is_day_learn c.queue && leb_ℤ c.due (pos today)) rows))

-- The three counts of `_resetLrnCount`.
unfoldable pub count_lrn : ℕ → ℕ → List ℕ → List Card → ℕ × ℕ × ℕ
count_lrn cutoff today dids rows = (
  length (select (λ c. contains c.did dids && is_lrn c.queue && ltb_ℤ c.due (pos cutoff)) rows),
  length
      (select (λ c. contains c.did dids && is_day_learn c.queue && leb_ℤ c.due (pos today)) rows),
  length (select (λ c. contains c.did dids && is_preview c.queue) rows),
)

-- `xs.pop()`: the last element and the others
abbrev pub pop_last : {A : Type 0} → A → List A → A × List A
pop_last x [] = (x, [])
pop_last x (y ∷ ys) = let (last, rest) = pop_last y ys in (last, x ∷ rest)

-- `get_card`
abbrev pub find_row : ℕ → List Card → Option Card
find_row id [] = none
find_row id (row ∷ rows) = if row.id == id then some row else find_row id rows
