-- ===== src/Scheduler/Learn/Placement.antt =====
-- Where a (re)learning card goes next.
use anki.Prelude.{
  ℕ, ◌+◌, ◌/◌, ◌%◌, ◌<◌, ◌≡◌, ◌⊎◌, inl, inr, refl, true, false, Option, none, some, List, ◌∷◌, min,
  max, List-cases, Bool-cases, arith, subst, sym, suc, not, ◌&&◌,
}
use anki.Prelude.Int.{ℤ, pos, ◌≤ℤ◌, ◌+ℤ◌, ◌-ℤ◌, floor_div, pos_part, ltb_ℤ, min_ℤ, max_ℤ, truthy}
use anki.Scheduler.Steps.{delay_for_grade}
use anki.Scheduler.Card.{CardQueue, Card}
use anki.Scheduler.Config.{QueueConf, delays_of}
use anki.Scheduler.State.{State, Env}
use anki.Scheduler.Learn.{reschedule_lrn_card, requeue_today}

module _ {N : Type 0} (env : Env N) where
  -- After rescheduling, a learning card is in today's learning queue, or in the one of days and due
  -- tomorrow or later. Its type is kept.
  pub reschedule_lrn_card-queue :
      (conf : QueueConf N) (given : Option ℤ) (s : State)
      → let c = (reschedule_lrn_card env conf given s).1.card in
        (c.type ≡ s.card.type)
        × ((c.queue ≡ CardQueue.lrn)
            ⊎ ((c.queue ≡ CardQueue.day_learn_relearn) × (pos (env.today + 1) ≤ℤ c.due)))
  unfolding reschedule_lrn_card requeue_today ◌+ℤ◌ ◌-ℤ◌ floor_div
  reschedule_lrn_card-queue conf given s = ground arith

  abbrev pub given_or : ℤ → Option ℤ → ℤ
  given_or delay none = delay
  given_or delay (some d) = d

  -- The seconds from which the fuzz of a delay is drawn.
  abbrev pub fuzz_below : ℤ → ℕ
  fuzz_below delay = max 1 (
      min 300
        (pos_part (env.num.trunc (env.num.mul (env.num.of_int delay) (env.num.literal 25 2)))))

  -- The due time, or if it would be the first of the queue, a second after the entry that is.
  abbrev pub DueAt : List (ℤ × ℕ) → ℤ → ℤ → Type 0
  DueAt queue time due =
      (due ≡ time)
      ⊎ ((smallest : ℤ) × (id : ℕ) × (others : List (ℤ × ℕ)) × (queue ≡ (smallest, id) ∷ others)
          × (due ≡ max_ℤ time (smallest +ℤ pos 1)))

  -- The card is due `delay` seconds after the time `now`. If that is today it is in the queue of the
  -- day, up to 5 minutes or a quarter of the delay later but before the cutoff; else it is in the queue
  -- of days, due on the day in which that time lies.
  abbrev pub Delayed : List (ℤ × ℕ) → ℕ → ℤ → Card → Type 0
  Delayed queue now delay c =
      ((ltb_ℤ (pos now +ℤ delay) (pos env.day_cutoff) ≡ true)
        × (c.queue ≡ CardQueue.lrn)
        × ((fuzz : ℕ) × (fuzz < fuzz_below delay)
            × DueAt queue (min_ℤ (pos env.day_cutoff -ℤ pos 1) (pos now +ℤ delay +ℤ pos fuzz))
                c.due))
      ⊎ ((ltb_ℤ (pos now +ℤ delay) (pos env.day_cutoff) ≡ false)
          × (c.queue ≡ CardQueue.day_learn_relearn)
          × (c.due
              ≡ pos env.today
                +ℤ (floor_div (pos now +ℤ delay -ℤ pos env.day_cutoff) (pos 86_400) +ℤ pos 1)))

  requeue_today-DueAt :
      (fuzz : ℕ) (s : State)
      → let c = (requeue_today env fuzz s).1.card in
        (c.queue ≡ CardQueue.lrn)
        × DueAt s.lrn_queue (min_ℤ (pos env.day_cutoff -ℤ pos 1) (s.card.due +ℤ pos fuzz)) c.due
  unfolding requeue_today
  requeue_today-DueAt fuzz s = elim (List-cases s.lrn_queue) [
    | inl e ↦ (ground arith, inl (ground (arith, e)))
    | inr ((smallest, id), others, e) ↦
        let time = min_ℤ (pos env.day_cutoff -ℤ pos 1) (s.card.due +ℤ pos fuzz) in
        let soon = ltb_ℤ time (pos (env.time s.reads / 1_000_000_000 + env.collapse_time)) in
        let only = not (truthy s.rev_count) && not (truthy s.new_count) in
        elim (Bool-cases soon) [
          | inr f ↦ (ground arith, inl (ground (arith, f)))
          | inl f ↦ elim (Bool-cases only) [
            | inr g ↦ (ground arith, inl (ground (arith, e, f, g)))
            | inl g ↦ (ground arith, inr (smallest, id, others, e, ground (arith, e, f, g)))
          ]
        ]
  ]

  module _ (conf : QueueConf N) (given : Option ℤ) (s : State) where
    abbrev now : ℕ
    now = env.time s.reads / 1_000_000_000

    abbrev delay : ℤ
    delay = given_or (delay_for_grade env.num (delays_of conf) s.card.left) given

    abbrev with_due : State
    with_due = record s {
      reads = suc s.reads;
      draws = suc s.draws;
      card = record s.card { due = pos now +ℤ delay };
    }

    abbrev fuzz : ℕ
    fuzz = env.draw s.draws % fuzz_below delay

    reschedule_lrn_card-today :
        ltb_ℤ (pos now +ℤ delay) (pos env.day_cutoff) ≡ true
        → (reschedule_lrn_card env conf given s).1.card ≡ (requeue_today env fuzz with_due).1.card
    unfolding reschedule_lrn_card requeue_today
    reschedule_lrn_card-today e = rw (e) (ground arith)

    fuzz-lt : fuzz < fuzz_below delay
    fuzz-lt = omega arith

    -- The card is delayed from the time that the clock shows then.
    pub reschedule_lrn_card-Delayed :
        Delayed s.lrn_queue now delay (reschedule_lrn_card env conf given s).1.card
    unfolding reschedule_lrn_card
    reschedule_lrn_card-Delayed =
        elim (Bool-cases (ltb_ℤ (pos now +ℤ delay) (pos env.day_cutoff))) [
          | inl e ↦
              let (queue, due) = requeue_today-DueAt fuzz with_due in
              subst (Delayed s.lrn_queue now delay) (sym (reschedule_lrn_card-today e))
                (inl (e, queue, (fuzz, fuzz-lt, due)))
          | inr e ↦ inr (e, rw (e) refl, rw (e) refl)
        ]
