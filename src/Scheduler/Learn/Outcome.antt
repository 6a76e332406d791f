-- ===== src/Scheduler/Learn/Outcome.antt =====
-- What the answer to a (re)learning card does to it.
use anki.Prelude.{
  ◌%◌, ◌-◌, ◌+◌, ◌*◌, ◌/◌, suc, ℕ, ◌≡◌, ◌⊎◌, inl, inr, Bool, true, false, none, some, Option, arith,
  if◌then◌else◌, ◌==◌,
}
use anki.Prelude.Int.{ℤ}
use anki.Scheduler.Card.{CardType, CardQueue, RevlogType, Card, is_lapsed_type}
use anki.Scheduler.Config.{QueueConf}
use anki.Scheduler.State.{State, Env}
use anki.Scheduler.Revlog.{log_twice, log, insert_revlog, time_taken}
use anki.Scheduler.Lookup.{lrn_conf}
use anki.Scheduler.Logic.{Ensures, Run-cases, Result-cases}
use anki.Scheduler.Learn.{
  starting_left_of, update_rev_ivl_on_fail, reschedule_lrn_card, move_to_first_step,
  move_to_next_step, repeat_step, reschedule_as_rev, reschedule_new, press_lrn, log_lrn,
  answer_lrn_card,
}
use anki.Scheduler.Steps.{left_today, delay_for_repeating_grade}
use anki.Scheduler.Config.{delays_of}
use anki.Scheduler.Learn.Placement.{reschedule_lrn_card-queue}

module _ {N : Type 0} (env : Env N) where
  -- The card stays in learning, with its type.
  abbrev pub Stays : Card → Card → Type 0
  Stays c c' =
      (c'.type ≡ c.type) × ((c'.queue ≡ CardQueue.lrn) ⊎ (c'.queue ≡ CardQueue.day_learn_relearn))

  -- The card is a review card in its home deck: the one that it was in, or for a card of a filtered
  -- deck the original one.
  abbrev pub Graduates : Card → Card → Type 0
  Graduates c c' =
      (c'.type ≡ CardType.rev)
      × (c'.queue ≡ CardQueue.rev)
      × (c'.odid ≡ 0)
      × (c'.did ≡ (if c.odid == 0 then c.did else c.odid))

  reschedule_lrn_card-Stays :
      (conf : QueueConf N) (given : Option ℤ) (s : State)
      → Stays s.card (reschedule_lrn_card env conf given s).1.card
  reschedule_lrn_card-Stays conf given s =
      ground (arith, reschedule_lrn_card-queue env conf given s)

  pub update_rev_ivl_on_fail-keeps :
      (conf : QueueConf N) (s : State)
      → let c = (update_rev_ivl_on_fail env conf s).1.card in
        (c.type ≡ s.card.type) × (c.queue ≡ s.card.queue)
  unfolding update_rev_ivl_on_fail
  update_rev_ivl_on_fail-keeps conf s = ground arith

  pub starting_left_of-card : (s : State) → (starting_left_of env s).1.card ≡ s.card
  unfolding starting_left_of
  starting_left_of-card s = ground arith

  pub move_to_next_step-Stays :
      (conf : QueueConf N) (s : State) → Stays s.card (move_to_next_step env conf s).1.card
  unfolding move_to_next_step
  move_to_next_step-Stays conf s =
      let left = s.card.left % 1000 - 1 in
      let today =
        left_today env.num env.day_cutoff (env.time s.reads / 1_000_000_000) (delays_of conf)
          left in
      let t = record s {
        reads = suc s.reads;
        card = record s.card { left = today * 1000 + left };
      } in
      ground (arith, reschedule_lrn_card-Stays conf none t)

  pub repeat_step-Stays :
      (conf : QueueConf N) (s : State) → Stays s.card (repeat_step env conf s).1.card
  unfolding repeat_step
  repeat_step-Stays conf s =
      let delay = delay_for_repeating_grade env.num (delays_of conf) s.card.left in
      ground (arith, reschedule_lrn_card-Stays conf (some delay) s)

  pub move_to_first_step-Stays :
      (conf : QueueConf N) (s : State)
      → Ensures (λ _ s'. Stays s.card s'.card) (move_to_first_step env conf s)
  unfolding move_to_first_step
  move_to_first_step-Stays conf s = elim (Run-cases (starting_left_of env s)) [
    | inl (left, t, e) ↦
        let t' = record t { card = record t.card { left = left } } in
        ground (
          arith,
          starting_left_of-card s,
          update_rev_ivl_on_fail-keeps conf t',
          reschedule_lrn_card-Stays conf none t',
          reschedule_lrn_card-Stays conf none (update_rev_ivl_on_fail env conf t').1,
        )
    | inr (err, t, e) ↦ ground arith
  ]

  pub reschedule_as_rev-Graduates :
      (conf : QueueConf N) (early : Bool) (s : State)
      → Ensures (λ _ s'. Graduates s.card s'.card) (reschedule_as_rev env conf early s)
  unfolding reschedule_as_rev reschedule_new
  reschedule_as_rev-Graduates conf early s = ground arith

  abbrev Pressed : Card → Bool → Card → Type 0
  Pressed c true c' = Graduates c c'
  Pressed c false c' = Stays c c'

  pub log_twice-card :
      (ease : ℕ) (ivl last : ℤ) (type : RevlogType) (s : State)
      → (log_twice env ease ivl last type s).1.card ≡ s.card
  unfolding log_twice log insert_revlog time_taken
  log_twice-card ease ivl last type s = ground arith

  log_lrn-card :
      (ease : ℕ) (conf : QueueConf N) (leaving : Bool) (type : RevlogType) (left : ℕ) (s : State)
      → (log_lrn env ease conf leaving type left s).1.card ≡ s.card
  unfolding log_lrn
  log_lrn-card ease conf leaving type left s = log_twice-card ease _ _ type s

  press_lrn-Pressed :
      (ease : ℕ) (conf : QueueConf N) (s : State)
      → Ensures (λ leaving t. Pressed s.card leaving t.card) (press_lrn env ease conf s)
  unfolding press_lrn
  press_lrn-Pressed ease conf s = ground (
    arith,
    reschedule_as_rev-Graduates conf true s,
    reschedule_as_rev-Graduates conf false s,
    move_to_next_step-Stays conf s,
    repeat_step-Stays conf s,
    move_to_first_step-Stays conf s,
  )

  -- If the answer to a learning card returns, the card either keeps its type and is in one of the two
  -- learning queues, or it has graduated: it is a review card, in the review queue and in its home
  -- deck, which is the original deck for a card of a filtered one.
  pub answer_lrn_card-outcome :
      (ease : ℕ) (s : State)
      → Ensures (λ _ t. Stays s.card t.card ⊎ Graduates s.card t.card) (answer_lrn_card env ease s)
  unfolding answer_lrn_card
  answer_lrn_card-outcome ease s = elim (Result-cases (lrn_conf env s.card)) [
    | inr (err, c) ↦ rw (c, answer_lrn_card) tt
    | inl (conf, c) ↦ elim (Run-cases (press_lrn env ease conf s)) [
      | inr (err, t, e) ↦ ground arith
      | inl (leaving, t, e) ↦
          let type : RevlogType =
            if is_lapsed_type s.card.type then RevlogType.relrn else RevlogType.lrn in
          ground (
            arith,
            press_lrn-Pressed ease conf s,
            log_lrn-card ease conf leaving type s.card.left t,
          )
    ]
  ]
