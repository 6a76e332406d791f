-- ===== src/Scheduler/Answer/Siblings.antt =====
-- What `_burySiblings` of pylib/anki/scheduler/v2.py does to the queues of today.
use anki.Prelude.{
  contains, IsDistinct, ℕ, ◌≡◌, ◌≢◌, false, List, [], ◌∷◌, arith, if◌then◌else◌, select, refl, All,
}
use anki.Scheduler.Card.{Card}
use anki.Scheduler.State.{State, Env, Result, ok, raise}
use anki.Scheduler.Logic.{Ensures}
use anki.Scheduler.Answer.{is_queue_rev, remove, is_sibling, discard, discard_all, bury_siblings}

contains-remove_ne : (j n : ℕ) (xs : List ℕ) → j ≢ n → contains j (remove n xs) ≡ contains j xs
contains-remove_ne j n [] h = refl
contains-remove_ne j n (x ∷ xs) h = ground (arith, contains-remove_ne j n xs h)

contains-remove_self : (n : ℕ) (xs : List ℕ) → IsDistinct xs → contains n (remove n xs) ≡ false
contains-remove_self n [] h = refl
contains-remove_self n (x ∷ xs) h = ground (arith, contains-remove_self n xs h.1)

remove-absent : (j n : ℕ) (xs : List ℕ) → contains j xs ≡ false → contains j (remove n xs) ≡ false
remove-absent j n [] h = refl
remove-absent j n (x ∷ xs) h = ground (arith, remove-absent j n xs)

remove-IsDistinct : (n : ℕ) (xs : List ℕ) → IsDistinct xs → IsDistinct (remove n xs)
remove-IsDistinct n [] h = tt
remove-IsDistinct n (x ∷ xs) h = ground (arith, remove-absent x n xs, remove-IsDistinct n xs h.1)

-- The queue that a sibling stands in, by its kind.
abbrev pub queue_of : Card → State → List ℕ
queue_of row s = if is_queue_rev row.queue then s.rev_queue else s.new_queue

AreDistinct : State → Type 0
AreDistinct s = IsDistinct s.new_queue × IsDistinct s.rev_queue

discard_all-absent :
    (j : ℕ) (rows : List Card) (s : State)
    → (contains j s.new_queue ≡ false → contains j (discard_all rows s).new_queue ≡ false)
      × (contains j s.rev_queue ≡ false → contains j (discard_all rows s).rev_queue ≡ false)
unfolding discard_all
discard_all-absent j [] s = (λ h. h, λ h. h)
discard_all-absent j (row ∷ rows) s =
    let (n, r) = discard_all-absent j rows (discard row s) in
    (
      λ h. n (ground (arith, remove-absent j row.id s.new_queue h)),
      λ h. r (ground (arith, remove-absent j row.id s.rev_queue h)),
    )

discard-AreDistinct : (row : Card) (s : State) → AreDistinct s → AreDistinct (discard row s)
unfolding AreDistinct
discard-AreDistinct row s h =
    ground
      (arith, remove-IsDistinct row.id s.new_queue h.0, remove-IsDistinct row.id s.rev_queue h.1)

discard-gone :
    (row : Card) (s : State)
    → AreDistinct s
    → contains row.id (queue_of row (discard row s)) ≡ false
unfolding AreDistinct
discard-gone row s h = ground (
  arith,
  contains-remove_self row.id s.new_queue h.0,
  contains-remove_self row.id s.rev_queue h.1,
)

gone_stays :
    (row : Card) (rows : List Card) (s : State)
    → contains row.id (queue_of row s) ≡ false
    → contains row.id (queue_of row (discard_all rows s)) ≡ false
gone_stays row rows s h = ground (arith, discard_all-absent row.id rows s)

discard_all-gone :
    (rows : List Card) (s : State)
    → AreDistinct s
    → All (λ row. contains row.id (queue_of row (discard_all rows s)) ≡ false) rows
unfolding discard_all
discard_all-gone [] s h = tt
discard_all-gone (row ∷ rows) s h = (
  gone_stays row rows (discard row s) (discard-gone row s h),
  discard_all-gone rows (discard row s) (discard-AreDistinct row s h),
)

abbrev SameQueues : State → State → Type 0
SameQueues s t = (t.new_queue ≡ s.new_queue) × (t.rev_queue ≡ s.rev_queue)

-- The rows are in none of the queues of their kind.
abbrev pub AreGone : List Card → State → Type 0
AreGone rows t = All (λ row. contains row.id (queue_of row t) ≡ false) rows

AreGone-same : (rows : List Card) (s t : State) → SameQueues s t → AreGone rows s → AreGone rows t
AreGone-same [] s t e h = tt
AreGone-same (row ∷ rows) s t e h = (ground arith, AreGone-same rows s t e h.1)

module _ {N : Type 0} (env : Env N) where
  abbrev siblings : State → List Card
  siblings s = select (is_sibling env.today s.card) s.cards

  bury_siblings-queues :
      (s : State) → Ensures (λ _ t. SameQueues (discard_all (siblings s) s) t) (bury_siblings env s)
  unfolding bury_siblings
  bury_siblings-queues s = ground arith

  -- If burying returns, none of the card's siblings that are due stands in today's queue of its
  -- kind. The new queue and the review queue are to hold no card twice.
  pub bury_siblings-AreGone :
      (s : State)
      → IsDistinct s.new_queue
      → IsDistinct s.rev_queue
      → Ensures
          (λ _ t. AreGone (select (is_sibling env.today s.card) s.cards) t)
          (bury_siblings env s)
  unfolding AreDistinct
  bury_siblings-AreGone s n r = go (bury_siblings env s) (bury_siblings-queues s)
    where
      rows : List Card
      rows = select (is_sibling env.today s.card) s.cards

      go :
          (result : Result (Unit {0}) × State)
          → Ensures (λ _ t. SameQueues (discard_all rows s) t) result
          → Ensures (λ _ t. AreGone rows t) result
      go (ok done, t) same =
          AreGone-same rows (discard_all rows s) t same (discard_all-gone rows s (n, r))
      go (raise err, t) same = tt
