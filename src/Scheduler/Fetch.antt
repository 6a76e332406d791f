-- ===== src/Scheduler/Fetch.antt =====
-- `reset`, `getCard` and `_getCard` of pylib/anki/scheduler/v2.py. The class keeps
-- `_burySiblingsOnAnswer`, so siblings are not buried here.
pub mod Pops
use anki.Prelude.{Bool, true, false, not, some, [], ◌*◌, ltb, if◌then◌else◌}
use anki.Scheduler.State.{Env, Action, pure, gets, when, ◌>>=◌, ◌>>◌, modify, modify_card, time_ns}
use anki.Scheduler.Limits.{reset_counts}
use anki.Scheduler.NewQueue.{reset_new, time_for_new_card, get_new_card}
use anki.Scheduler.LrnQueue.{reset_lrn, get_lrn_card, get_lrn_day_card}
use anki.Scheduler.RevQueue.{get_rev_card}

-- `if c: return c`
abbrev pub or_next : Action Bool → Action Bool → Action Bool
or_next m k = do found ← m; (if found then pure true else k)

module _ {N : Type 0} (env : Env N) where
  unfoldable pub reset : Action (Unit {0})
  reset = do
    modify (λ s. record s {
      current_deck_id = env.selected;
      active_decks = env.deck_and_child_ids env.selected;
    })
    reset_counts env
    reset_lrn env
    modify (λ s. record s { rev_queue = [] })
    reset_new env
    modify (λ s. record s { have_queues = true })

  abbrev day_learn : Bool → Action Bool
  day_learn c = if c then get_lrn_day_card env else pure false

  abbrev new_if_time : Action Bool
  new_if_time = do
    now ← gets (time_for_new_card env)
    (if now then get_new_card env else pure false)

  -- `_getCard`
  unfoldable pub get_card_inner : Action Bool
  get_card_inner = or_next (get_lrn_card env false) (
      or_next new_if_time (
        or_next (day_learn env.day_learn_first) (
          or_next (get_rev_card env) (
            or_next (day_learn (not env.day_learn_first))
              (or_next (get_new_card env) (get_lrn_card env true))))))

  -- `getCard`
  unfoldable pub fetch_card : Action Bool
  fetch_card = do
    now ← time_ns env
    when (ltb (env.day_cutoff * 1_000_000_000) now) (reset)
    ready ← gets (λ s. s.have_queues)
    when (not ready) (reset)
    found ← get_card_inner
    when found
        (do started ← time_ns env; modify_card (λ c. record c { timer_started = some started }))
    pure found
