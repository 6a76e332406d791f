-- ===== src/Scheduler/LrnQueue.antt =====
-- "Fetching learning cards" in pylib/anki/scheduler/v2.py. A method that
-- fetches a card puts it in hand and says whether there was one.
use anki.Prelude.{
  ℕ, Bool, true, false, not, ◌&&◌, List, [], ◌∷◌, length, non_empty, ◌+◌, ◌*◌, ltb, if◌then◌else◌,
}
use anki.Prelude.Int.{ℤ, pos, pos_part, neg_part, ◌-ℤ◌, truthy}
use anki.Scheduler.State.{
  Env, Action, pure, throw, index_error, gets, when, ◌>>=◌, ◌>>◌, modify, time_ns, int_time,
}
use anki.Scheduler.Lookup.{report_limit}
use anki.Scheduler.Tables.{select_lrn, select_lrn_day, count_lrn, pop_last}
use anki.Scheduler.Limits.{active, load_card}

module _ {N : Type 0} (env : Env N) where
  -- `_updateLrnCutoff`: learning cards are looked for again every minute.
  unfoldable pub update_lrn_cutoff : Bool → Action Bool
  update_lrn_cutoff force = do
    now ← int_time env
    old ← gets (λ s. s.lrn_cutoff)
    let next_cutoff = now + env.collapse_time
    (if ltb (old + 60) next_cutoff
        then (do modify (λ s. record s { lrn_cutoff = next_cutoff }); pure true)
        else if force
        then (do modify (λ s. record s { lrn_cutoff = next_cutoff }); pure true)
        else pure false)

  unfoldable pub reset_lrn_count : Action (Unit {0})
  reset_lrn_count = modify (λ s.
      let (sub_day, day, previews) = count_lrn s.lrn_cutoff env.today (active s) s.cards in
      record s { lrn_count = pos (sub_day + day + previews) })

  unfoldable pub reset_lrn : Action (Unit {0})
  reset_lrn = do
    update_lrn_cutoff true
    reset_lrn_count
    modify (λ s. record s { lrn_queue = []; lrn_day_queue = []; lrn_dids = active s })

  unfoldable pub fill_lrn : Action Bool
  fill_lrn = do
    count ← gets (λ s. s.lrn_count)
    queue ← gets (λ s. s.lrn_queue)
    (if not (truthy count) then pure false else if non_empty queue then pure true else (do
      now ← int_time env
      rows ← gets (λ s. select_lrn (now + env.collapse_time) (active s) report_limit s.cards)
      modify (λ s. record s { lrn_queue = rows })
      pure (non_empty rows)))

  -- The first entry of the queue, if it is due by `cutoff` (in nanoseconds).
  abbrev take_lrn : ℕ → List (ℤ × ℕ) → Action Bool
  take_lrn cutoff [] = throw index_error
  take_lrn cutoff ((due, id) ∷ rest) =
      if ltb (pos_part due * 1_000_000_000) (cutoff + neg_part due * 1_000_000_000)
      then (do
        modify (λ s. record s { lrn_queue = rest })
        load_card id
        modify (λ s. record s { lrn_count = s.lrn_count -ℤ pos 1 })
        pure true)
      else pure false

  unfoldable pub get_lrn_card : Bool → Action Bool
  get_lrn_card collapse = do
    count ← gets (λ s. s.lrn_count)
    stale ← update_lrn_cutoff (collapse && not (truthy count))
    when stale reset_lrn
    found ← fill_lrn
    (if found
        then (do
          now ← time_ns env
          queue ← gets (λ s. s.lrn_queue)
          take_lrn (now + (if collapse then env.collapse_time * 1_000_000_000 else 0)) queue)
        else pure false)

  -- The `while` loop of `_fillLrnDay`.
  unfoldable pub fill_lrn_day_from : List ℕ → Action Bool
  fill_lrn_day_from [] = do modify (λ s. record s { lrn_dids = [] }); pure false
  fill_lrn_day_from (did ∷ dids) =
      let rest = fill_lrn_day_from dids in
      (do
        ids ← gets (λ s. select_lrn_day env.today did 50 s.cards)
        (if non_empty ids
            then (do
              modify (λ s. record s {
                lrn_day_queue = env.shuffle env.today ids;
                lrn_dids = if ltb (length ids) 50 then dids else did ∷ dids;
              })
              pure true)
            else (do modify (λ s. record s { lrn_day_queue = [] }); rest)))

  unfoldable pub fill_lrn_day : Action Bool
  fill_lrn_day = do
    count ← gets (λ s. s.lrn_count)
    queue ← gets (λ s. s.lrn_day_queue)
    dids ← gets (λ s. s.lrn_dids)
    (if not (truthy count)
        then pure false
        else if non_empty queue
        then pure true
        else fill_lrn_day_from dids)

  abbrev take_lrn_day : List ℕ → Action Bool
  take_lrn_day [] = throw index_error
  take_lrn_day (x ∷ xs) =
      let (id, rest) = pop_last x xs in
      (do
        modify (λ s. record s { lrn_count = s.lrn_count -ℤ pos 1; lrn_day_queue = rest })
        load_card id
        pure true)

  unfoldable pub get_lrn_day_card : Action Bool
  get_lrn_day_card = do
    found ← fill_lrn_day
    queue ← gets (λ s. s.lrn_day_queue)
    (if found then take_lrn_day queue else pure false)
