-- ===== src/Scheduler/NextTimes/Agree.antt =====
-- `_nextLrnIvl` against the answers to a learning card.
use anki.Prelude.{ℕ, suc, ◌/◌, ◌+◌, ◌-◌, ◌*◌, ◌%◌, ◌≡◌, ◌⊎◌}
use anki.Prelude.Int.{ℤ}
use anki.Scheduler.Card.{CardQueue, Card}
use anki.Scheduler.Config.{QueueConf, delays_of}
use anki.Scheduler.State.{State, Env, ok}
use anki.Scheduler.Lookup.{lrn_conf}
use anki.Scheduler.Steps.{left_today, starting_left, delay_for_repeating_grade}
use anki.Scheduler.Learn.{update_rev_ivl_on_fail}
use anki.Scheduler.Learn.Placement.{Delayed}
use anki.Scheduler.NextTimes.{next_lrn_ivl}

module _ {N : Type 0} (env : Env N) where
  abbrev IsLearning : Card → Type 0
  IsLearning c = (c.queue ≡ CardQueue.lrn) ⊎ (c.queue ≡ CardQueue.day_learn_relearn)

  started : State → QueueConf N → ℕ
  started s conf =
      starting_left env.num env.day_cutoff (env.time s.reads / 1_000_000_000) (delays_of conf)

  -- The button shows a delay, and by that delay the card is delayed from the `n`-th reading of the clock.
  abbrev pub Shows : ℕ → State → ℕ → Card → Type 0
  Shows ease s n c =
      (d : ℤ) × ((next_lrn_ivl env ease s).0 ≡ ok d)
      × Delayed env s.lrn_queue (env.time n / 1_000_000_000) d c

  module _ (s : State) (conf : QueueConf N) (q : IsLearning s.card)
      (c : lrn_conf env s.card ≡ ok conf) where
    repeated : ℤ
    repeated = delay_for_repeating_grade env.num (delays_of conf) s.card.left

    left_after : ℕ
    left_after = s.card.left % 1000 - 1

    packed : ℕ
    packed =
        left_today env.num env.day_cutoff (env.time s.reads / 1_000_000_000) (delays_of conf)
            left_after
          * 1000
        + left_after

    abbrev next_state : State
    next_state = record s { reads = suc s.reads; card = record s.card { left = packed } }

    abbrev started_state : State
    started_state = record s { reads = suc s.reads; card = record s.card { left = started s conf } }

    abbrev failed_state : State
    failed_state = (update_rev_ivl_on_fail env conf started_state).1
