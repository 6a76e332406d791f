-- ===== src/Scheduler/NewQueue.antt =====
-- "Fetching new cards" in pylib/anki/scheduler/v2.py. A method that
-- fetches a card puts it in hand and says whether there was one.
pub mod Spacing
use anki.Prelude.{
  ℕ, Bool, true, false, not, ◌&&◌, List, [], ◌∷◌, reverse, non_empty, ◌+◌, ◌%◌, ◌==◌, if◌then◌else◌,
}
use anki.Prelude.Int.{ℤ, pos, pos_part, neg_part, ◌+ℤ◌, ◌-ℤ◌, truthy, max_ℤ, min_ℤ, floor_div}
use anki.Scheduler.State.{
  State, NewSpread, Env, not_found, Action, pure, throw, index_error, gets, lift, ◌>>=◌, ◌>>◌,
  modify,
}
use anki.Scheduler.Tables.{select_new, pop_last}
use anki.Scheduler.Limits.{queue_limit, active, load_card, reset_counts, deck_new_limit}

module _ {N : Type 0} (env : Env N) where
  -- `_updateNewCardRatio`
  unfoldable pub new_card_modulus : ℤ → ℤ → ℤ
  new_card_modulus new rev =
      let ratio = floor_div (new +ℤ rev) new in
      elim env.new_spread [
        | NewSpread.distribute ↦
            if truthy new then (if truthy rev then max_ℤ (pos 2) ratio else ratio) else pos 0
        | _ ↦ pos 0
      ]

  unfoldable pub reset_new : Action (Unit {0})
  reset_new = modify (λ s. record s {
    new_dids = active s;
    new_queue = [];
    new_card_modulus = new_card_modulus s.new_count s.rev_count;
  })

  -- `None`, which is not to be reached, counts as false.
  unfoldable pub time_for_new_card : State → Bool
  time_for_new_card s = if not (truthy s.new_count) then false else elim env.new_spread [
    | NewSpread.last ↦ false
    | NewSpread.first ↦ true
    | _ ↦
        if truthy s.new_card_modulus
        then not (s.reps == 0)
          && s.reps % (pos_part s.new_card_modulus + neg_part s.new_card_modulus) == 0
        else false
  ]

  -- The `while` loop of `_fillNew`, over the decks that are left.
  unfoldable pub fill_new_from : List ℕ → Action Bool
  fill_new_from [] = do modify (λ s. record s { new_dids = [] }); pure false
  fill_new_from (did ∷ dids) =
      let rest = fill_new_from dids in
      (do
        modify (λ s. record s { new_dids = did ∷ dids })
        limit ← lift (deck_new_limit env did)
        let lim = min_ℤ queue_limit limit
        ids ← gets (λ s. select_new did lim s.cards)
        (if truthy lim && non_empty ids
            then (do modify (λ s. record s { new_queue = reverse ids }); pure true)
            else rest))

  abbrev pub fill_new_once : Action Bool → Action Bool
  fill_new_once retry = do
    queue ← gets (λ s. s.new_queue)
    count ← gets (λ s. s.new_count)
    dids ← gets (λ s. s.new_dids)
    (if non_empty queue
        then pure true
        else if not (truthy count)
        then pure false
        else (do found ← fill_new_from dids; (if found then pure true else retry)))

  -- The second attempt, with `recursing=True`, gives up.
  unfoldable pub fill_new : Action Bool
  fill_new = fill_new_once (do reset_counts env; reset_new; fill_new_once (pure false))

  abbrev take_new : List ℕ → Action Bool
  take_new [] = throw index_error
  take_new (x ∷ xs) =
      let (id, rest) = pop_last x xs in
      (do
        modify (λ s. record s { new_count = s.new_count -ℤ pos 1; new_queue = rest })
        load_card id
        pure true)

  unfoldable pub get_new_card : Action Bool
  get_new_card = do
    found ← fill_new
    queue ← gets (λ s. s.new_queue)
    (if found then take_new queue else pure false)
