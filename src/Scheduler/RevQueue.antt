-- ===== src/Scheduler/RevQueue.antt =====
-- "Fetching reviews" in pylib/anki/scheduler/v2.py. A method that
-- fetches a card puts it in hand and says whether there was one.
use anki.Prelude.{
  ℕ, suc, Bool, true, false, not, ◌&&◌, List, [], ◌∷◌, reverse, non_empty, if◌then◌else◌,
}
use anki.Prelude.Int.{ℤ, pos, ◌-ℤ◌, truthy, min_ℤ}
use anki.Scheduler.State.{
  Env, Result, Action, pure, throw, index_error, gets, lift, ◌>>=◌, ◌>>◌, modify,
}
use anki.Scheduler.Tables.{select_rev, pop_last}
use anki.Scheduler.Limits.{queue_limit, active, load_card, reset_counts, deck_rev_limit_single}

module _ {N : Type 0} (env : Env N) where
  abbrev current_rev_limit : Result ℤ
  current_rev_limit = deck_rev_limit_single env (env.deck env.selected)

  abbrev pub fill_rev_once : Action Bool → Action Bool
  fill_rev_once retry = do
    queue ← gets (λ s. s.rev_queue)
    count ← gets (λ s. s.rev_count)
    (if non_empty queue then pure true else if not (truthy count) then pure false else (do
      limit ← lift current_rev_limit
      let lim = min_ℤ queue_limit limit
      nth ← gets (λ s. s.queries)
      ids ← gets (λ s. select_rev (env.sql_random nth) env.today (active s) lim s.cards)
      modify (λ s. record s {
        queries = if truthy lim then suc nth else nth;
        rev_queue = if truthy lim then reverse ids else [];
      })
      (if truthy lim && non_empty ids then pure true else retry)))

  unfoldable pub fill_rev : Action Bool
  fill_rev =
      fill_rev_once
        (do reset_counts env; modify (λ s. record s { rev_queue = [] }); fill_rev_once (pure false))

  abbrev take_rev : List ℕ → Action Bool
  take_rev [] = throw index_error
  take_rev (x ∷ xs) =
      let (id, rest) = pop_last x xs in
      (do
        modify (λ s. record s { rev_count = s.rev_count -ℤ pos 1; rev_queue = rest })
        load_card id
        pure true)

  unfoldable pub get_rev_card : Action Bool
  get_rev_card = do
    found ← fill_rev
    queue ← gets (λ s. s.rev_queue)
    (if found then take_rev queue else pure false)
