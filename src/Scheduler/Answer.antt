-- ===== src/Scheduler/Answer.antt =====
-- `answerCard`, `_answerCard`, `_answerCardPreview`, `_restorePreviewCard` and `_burySiblings` of
-- pylib/anki/scheduler/v2.py, with `save_card_review_undo_info` of pylib/anki/collection.py.
pub mod Outcome
pub mod Stored
pub mod Siblings
pub mod Total
use anki.Prelude.{
  contains, ℕ, suc, Bool, true, false, not, ◌&&◌, ◌||◌, Option, none, some, List, [], ◌∷◌, ◌+◌,
  select, non_empty, ◌==◌, leb, if◌then◌else◌,
}
use anki.Prelude.Int.{ℤ, pos, ◌+ℤ◌, ltb_ℤ, leb_ℤ}
use anki.Scheduler.Card.{CardType, CardQueue, Card, queue_code}
use anki.Scheduler.State.{
  State, Env, invalid_ease_or_queue, invalid_queue, invalid_ease, odid_unset, not_found, Action,
  pure, throw, gets, lift, raise_if, when, ◌>>=◌, ◌>>◌, modify, get_card, modify_card, int_time,
}
use anki.Scheduler.Lookup.{get_default, new_conf, rev_conf, previewing_card, preview_delay}
use anki.Scheduler.Flush.{flush}
use anki.Scheduler.Revlog.{time_taken}
use anki.Scheduler.Learn.{leave_filtered, starting_left_of, answer_lrn_card}
use anki.Scheduler.Review.{answer_rev_card}

abbrev pub is_queue_new : CardQueue → Bool
is_queue_new CardQueue.new = true
is_queue_new _ = false

abbrev pub is_queue_rev : CardQueue → Bool
is_queue_rev CardQueue.rev = true
is_queue_rev _ = false

abbrev pub is_learning_queue : CardQueue → Bool
is_learning_queue CardQueue.lrn = true
is_learning_queue CardQueue.day_learn_relearn = true
is_learning_queue _ = false

-- `list.remove`, which the code guards against a missing value
abbrev pub remove : ℕ → List ℕ → List ℕ
remove n [] = []
remove n (x ∷ xs) = let rest = remove n xs in if x == n then xs else x ∷ rest

-- The condition of the query of `_burySiblings`.
abbrev pub is_sibling : ℕ → Card → Card → Bool
is_sibling today card row =
    row.nid == card.nid
    && not (row.id == card.id)
    && (is_queue_new row.queue || is_queue_rev row.queue && leb_ℤ row.due (pos today))

-- One row of the loop of `_burySiblings`: the card leaves its queue, and is kept in `to_bury` if
-- its kind is to be buried.
abbrev discard : Card → State → State
discard row s =
    if is_queue_rev row.queue
    then record s { rev_queue = remove row.id s.rev_queue }
    else record s { new_queue = remove row.id s.new_queue }

unfoldable pub discard_all : List Card → State → State
discard_all [] s = s
discard_all (row ∷ rows) s = discard_all rows (discard row s)

abbrev pub ids_to_bury : Bool → Bool → List Card → List ℕ
ids_to_bury bury_new bury_rev [] = []
ids_to_bury bury_new bury_rev (row ∷ rows) =
    let rest = ids_to_bury bury_new bury_rev rows in
    if (if is_queue_rev row.queue then bury_rev else bury_new) then row.id ∷ rest else rest

unfoldable pub save_undo : Action (Unit {0})
save_undo = modify (λ s. record s {
  undo = record { card = s.card; was_leech = contains s.card.nid s.leech_notes } ∷ s.undo;
})

-- `_restorePreviewCard`. A due time above a billion is a time in seconds.
abbrev pub restored_queue : CardType → ℤ → CardQueue
restored_queue CardType.lrn odue =
    if ltb_ℤ (pos 1_000_000_000) odue then CardQueue.lrn else CardQueue.day_learn_relearn
restored_queue CardType.relearning odue =
    if ltb_ℤ (pos 1_000_000_000) odue then CardQueue.lrn else CardQueue.day_learn_relearn
restored_queue CardType.new odue = CardQueue.new
restored_queue CardType.rev odue = CardQueue.rev

unfoldable pub restore_preview_card : Action (Unit {0})
restore_preview_card = do
  card ← get_card
  raise_if (card.odid == 0) odid_unset
  modify_card (λ c. record c { due = c.odue; queue = restored_queue c.type c.odue })

-- `not 0 <= card.queue <= 4`
abbrev pub is_out_of_queue : CardQueue → Bool
is_out_of_queue q = not (leb_ℤ (pos 0) (queue_code q) && leb_ℤ (queue_code q) (pos 4))

module _ {N : Type 0} (env : Env N) where
  unfoldable pub bury_siblings : Action (Unit {0})
  bury_siblings = do
    card ← get_card
    nconf ← lift (new_conf env card)
    rconf ← lift (rev_conf env card)
    rows ← gets (λ s. select (is_sibling env.today card) s.cards)
    modify (discard_all rows)
    let ids = ids_to_bury (get_default nconf.bury true) (get_default rconf.bury true) rows
    when (non_empty ids) (modify (λ s. record s { cards = env.bury ids s.cards }))

  unfoldable pub answer_card_preview : ℕ → Action (Unit {0})
  answer_card_preview ease = do
    raise_if (not (leb 1 ease && leb ease 2)) invalid_ease
    (if ease == 1
        then (do
          modify_card (λ c. record c { queue = CardQueue.preview })
          now ← int_time env
          card ← get_card
          delay ← lift (preview_delay env card)
          modify (λ s. record s {
            card = record s.card { due = pos (now + delay) };
            lrn_count = s.lrn_count +ℤ pos 1;
          }))
        else (restore_preview_card >> modify_card leave_filtered))

  abbrev start_learning : ℕ → Card → Card
  start_learning left c = record c { left = left }

  -- A card from the new queue enters learning, and counts as a new card.
  unfoldable pub enter_learning : Action ℕ
  enter_learning = do
    card ← get_card
    (if is_queue_new card.queue
        then (do
          modify_card (λ c. record c { queue = CardQueue.lrn; type = CardType.lrn })
          left ← starting_left_of env
          modify_card (start_learning left)
          pure 1)
        else pure 0)

  -- The result is `review_delta`.
  unfoldable pub dispatch_answer : ℕ → Action ℕ
  dispatch_answer ease = do
    card ← get_card
    (if is_learning_queue card.queue
        then (answer_lrn_card env ease >> pure 0)
        else if is_queue_rev card.queue
        then (answer_rev_card env ease >> pure 1)
        else throw invalid_queue)

  unfoldable pub answer_scheduled : ℕ → Action (Unit {0})
  answer_scheduled ease = do
    modify_card (λ c. record c { reps = suc c.reps })
    new_delta ← enter_learning
    review_delta ← dispatch_answer ease
    taken ← time_taken env
    modify (λ s. record s {
      stats =
          record {
            did = s.card.did;
            new_delta = new_delta;
            review_delta = review_delta;
            milliseconds_delta = taken;
          }
          ∷ s.stats;
      card = record s.card { odue = pos 0 };
    })

  -- `_answerCard`
  unfoldable pub answer_inner : ℕ → Action (Unit {0})
  answer_inner ease = do
    modify (λ s. record s { reps = suc s.reps })
    card ← get_card
    preview ← lift (previewing_card env card)
    (if preview then answer_card_preview ease else answer_scheduled ease)

  -- The end of `answerCard`.
  unfoldable pub stamp_and_flush : Action (Unit {0})
  stamp_and_flush = do
    now ← int_time env
    modify_card (λ c. record c { mod_time = now; usn = env.usn })
    flush env

  -- `answerCard` behind its guard
  unfoldable pub answer_guarded : ℕ → Action (Unit {0})
  answer_guarded ease = do save_undo; bury_siblings; answer_inner ease; stamp_and_flush

  -- `answerCard`
  unfoldable pub answer_card : ℕ → Action (Unit {0})
  answer_card ease = do
    card ← get_card
    raise_if (not (leb 1 ease && leb ease 4) || is_out_of_queue card.queue) invalid_ease_or_queue
    answer_guarded ease
