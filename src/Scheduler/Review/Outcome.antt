-- ===== src/Scheduler/Review/Outcome.antt =====
-- What the answer to a review card does to it.
use anki.Prelude.{
  ℕ, ◌==◌, ◌+◌, ◌-◌, max, ◌≡◌, ◌⊎◌, inl, inr, Bool, true, false, not, ◌&&◌, none, Option, arith,
  if◌then◌else◌, non_empty, Bool-cases, ◌==◌,
}
use anki.Prelude.Int.{ℤ, pos}
use anki.Scheduler.Card.{CardType, CardQueue, RevlogType, Card}
use anki.Scheduler.Config.{QueueConf, LapseConf}
use anki.Scheduler.State.{State, Env}
use anki.Scheduler.Lookup.{lapse_conf}
use anki.Scheduler.Logic.{Ensures, Run-cases, Result-cases}
use anki.Scheduler.Learn.{
  reschedule_lrn_card, requeue_today, starting_left_of, move_to_first_step, update_rev_ivl_on_fail,
  reschedule_as_rev,
}
use anki.Scheduler.Learn.Outcome.{starting_left_of-card, log_twice-card, move_to_first_step-Stays}
use anki.Scheduler.Review.{
  is_suspended, is_early, check_leech, count_lapse, relearn, keep_in_review, after_leech,
  reschedule_lapse, early_review_ivl, fuzzed_rev_ivl, reschedule_rev, factor_after, log_rev,
  answer_rev_card,
}

-- The ease after Hard, Good and Easy.
abbrev pub IsEased : ℕ → ℕ → ℕ → Type 0
IsEased ease factor factor' =
    ((ease ≡ 2) × (factor' ≡ max 1300 (factor - 150)))
    ⊎ ((ease ≡ 3) × (factor' ≡ max 1300 factor))
    ⊎ ((ease ≡ 4) × (factor' ≡ max 1300 (factor + 150)))

-- What a lapse leaves alone from then on.
abbrev Remembers : Card → Card → Type 0
Remembers c c' =
    (c'.factor ≡ c.factor) × (c'.lapses ≡ c.lapses) × (c'.did ≡ c.did) × (c'.odid ≡ c.odid)

module _ {N : Type 0} (env : Env N) where
  -- A lapse is counted and lowers the ease, to 1300 at least. The card goes on as a relearning card,
  -- or as a review card in its home deck, which may have been suspended.
  abbrev pub Lapsed : Card → Card → Type 0
  Lapsed c c' =
      (c'.lapses ≡ c.lapses + 1)
      × (c'.factor ≡ max 1300 (c.factor - 200))
      × (((c'.type ≡ CardType.relearning)
            × ((c'.queue ≡ CardQueue.lrn) ⊎ (c'.queue ≡ CardQueue.day_learn_relearn)))
          ⊎ ((c'.type ≡ CardType.rev)
              × (c'.odid ≡ 0)
              × (c'.did ≡ (if c.odid == 0 then c.did else c.odid))
              × ((c'.queue ≡ CardQueue.rev) ⊎ (c'.queue ≡ CardQueue.suspended))))

  -- A passed review keeps the card's type, queue and lapses, puts it in its home deck, due after
  -- its new interval, and remembers the old one.
  abbrev pub Passed : ℕ → Card → Card → Type 0
  Passed ease c c' =
      (c'.type ≡ c.type)
      × (c'.queue ≡ c.queue)
      × (c'.lapses ≡ c.lapses)
      × IsEased ease c.factor c'.factor
      × (c'.odid ≡ 0)
      × (c'.did ≡ (if c.odid == 0 then c.did else c.odid))
      × (c'.last_ivl ≡ c.ivl)
      × (c'.due ≡ pos (env.today + c'.ivl))

  early_review_ivl-state :
      (card : Card) (ease : ℕ) (s : State) → (early_review_ivl env card ease s).1 ≡ s
  unfolding early_review_ivl
  early_review_ivl-state card ease s = ground arith

  fuzzed_rev_ivl-card :
      (card : Card) (ease : ℕ) (s : State) → (fuzzed_rev_ivl env card ease s).1.card ≡ s.card
  unfolding fuzzed_rev_ivl
  fuzzed_rev_ivl-card card ease s = ground arith

  reschedule_rev-Passed :
      (ease : ℕ) (early : Bool) (s : State)
      → Ensures (λ _ t. Passed ease s.card t.card) (reschedule_rev env ease early s)
  unfolding reschedule_rev factor_after
  reschedule_rev-Passed ease true s =
      let t = record s { card = record s.card { last_ivl = s.card.ivl } } in
      ground (arith, early_review_ivl-state t.card ease t)
  reschedule_rev-Passed ease false s =
      let t = record s { card = record s.card { last_ivl = s.card.ivl } } in
      ground (arith, fuzzed_rev_ivl-card t.card ease t)

  reschedule_lrn_card-Remembers :
      (conf : QueueConf N) (given : Option ℤ) (s : State)
      → Remembers s.card (reschedule_lrn_card env conf given s).1.card
  unfolding reschedule_lrn_card requeue_today
  reschedule_lrn_card-Remembers conf given s = ground arith

  update_rev_ivl_on_fail-Remembers :
      (conf : LapseConf N) (s : State)
      → let c = (update_rev_ivl_on_fail env (QueueConf.lapse conf) s).1.card in
        Remembers s.card c × (c.type ≡ s.card.type) × (c.queue ≡ s.card.queue)
  unfolding update_rev_ivl_on_fail
  update_rev_ivl_on_fail-Remembers conf s = ground arith

  move_to_first_step-Remembers :
      (conf : LapseConf N) (s : State)
      → Ensures (λ _ t. Remembers s.card t.card) (move_to_first_step env (QueueConf.lapse conf) s)
  unfolding move_to_first_step
  move_to_first_step-Remembers conf s = elim (Run-cases (starting_left_of env s)) [
    | inr (err, t, e) ↦ ground arith
    | inl (left, t, e) ↦
        let t' = record t { card = record t.card { left = left } } in
        let q = QueueConf.lapse conf in
        ground (
          arith,
          starting_left_of-card env s,
          update_rev_ivl_on_fail-Remembers conf t',
          reschedule_lrn_card-Remembers q none t',
          reschedule_lrn_card-Remembers q none (update_rev_ivl_on_fail env q t').1,
        )
  ]

  relearn-Lapsed :
      (conf : LapseConf N) (s : State)
      → Ensures
          (λ _ t.
            Remembers s.card t.card
            × (t.card.type ≡ CardType.relearning)
            × ((t.card.queue ≡ CardQueue.lrn) ⊎ (t.card.queue ≡ CardQueue.day_learn_relearn)))
          (relearn env conf s)
  unfolding relearn
  relearn-Lapsed conf s =
      let t = record s { card = record s.card { type = CardType.relearning } } in
      ground (
        arith,
        move_to_first_step-Remembers conf t,
        move_to_first_step-Stays env (QueueConf.lapse conf) t,
      )

  keep_in_review-Lapsed :
      (suspended : Bool) (conf : LapseConf N) (s : State)
      → s.card.type ≡ CardType.rev
      → Ensures
          (λ _ t.
            (t.card.factor ≡ s.card.factor)
            × (t.card.lapses ≡ s.card.lapses)
            × (t.card.type ≡ CardType.rev)
            × (t.card.odid ≡ 0)
            × (t.card.did ≡ (if s.card.odid == 0 then s.card.did else s.card.odid))
            × ((t.card.queue ≡ CardQueue.rev) ⊎ (t.card.queue ≡ CardQueue.suspended)))
          (keep_in_review env suspended conf s)
  unfolding keep_in_review reschedule_as_rev update_rev_ivl_on_fail
  keep_in_review-Lapsed suspended conf s h = ground arith

  check_leech-keeps :
      (conf : LapseConf N) (s : State)
      → let c = (check_leech env conf s).1.card in Remembers s.card c × (c.type ≡ s.card.type)
  unfolding check_leech
  check_leech-keeps conf s = ground arith

  -- The ways on from a lapse, behind the check for leeches.
  abbrev GoesOn : Card → Card → Type 0
  GoesOn c c' =
      (c'.factor ≡ c.factor)
      × (c'.lapses ≡ c.lapses)
      × (((c'.type ≡ CardType.relearning)
            × ((c'.queue ≡ CardQueue.lrn) ⊎ (c'.queue ≡ CardQueue.day_learn_relearn)))
          ⊎ ((c'.type ≡ CardType.rev)
              × (c'.odid ≡ 0)
              × (c'.did ≡ (if c.odid == 0 then c.did else c.odid))
              × ((c'.queue ≡ CardQueue.rev) ⊎ (c'.queue ≡ CardQueue.suspended))))

  after_leech-GoesOn :
      (leech : Bool) (conf : LapseConf N) (s : State)
      → s.card.type ≡ CardType.rev
      → Ensures (λ _ t. GoesOn s.card t.card) (after_leech env leech conf s)
  unfolding after_leech
  after_leech-GoesOn leech conf s h =
      let suspended = leech && is_suspended s.card.queue in
      elim (Bool-cases (non_empty conf.delays && not suspended)) [
        | inl again ↦ rw (again, Ensures) (ground (arith, relearn-Lapsed conf s))
        | inr final ↦ rw (final, Ensures) (ground (arith, keep_in_review-Lapsed suspended conf s h))
      ]

  reschedule_lapse-Lapsed :
      (s : State)
      → s.card.type ≡ CardType.rev
      → Ensures (λ _ t. Lapsed s.card t.card) (reschedule_lapse env s)
  unfolding reschedule_lapse
  reschedule_lapse-Lapsed s h = elim (Result-cases (lapse_conf env s.card)) [
    | inr (err, c) ↦ ground arith
    | inl (conf, c) ↦
        let s' = record s { card = count_lapse env s.card } in
        elim (Run-cases (check_leech env conf s')) [
          | inr (err, t, e) ↦ ground arith
          | inl (leech, t, e) ↦
              ground (arith, check_leech-keeps conf s', after_leech-GoesOn leech conf t)
        ]
  ]

  log_rev-card :
      (ease : ℕ) (delay : ℤ) (type : RevlogType) (s : State)
      → (log_rev env ease delay type s).1.card ≡ s.card
  unfolding log_rev
  log_rev-card ease delay type s = log_twice-card env ease _ _ type s

  -- The answer Again to a review card makes a lapse of it, and every other answer a passed review.
  abbrev pub Reviewed : ℕ → Card → Card → Type 0
  Reviewed ease c c' = elim (ease == 1) [ true ↦ Lapsed c c' | false ↦ Passed ease c c' ]

  -- If the answer to a review card returns: after Again the lapse is counted, the ease is lowered by
  -- 200 but not below 1300, and the card is a relearning card in a learning queue, or a review card in
  -- its home deck that is in the review queue or suspended. After any other answer it keeps its type,
  -- queue and lapses, is in its home deck, due after its new interval, and remembers the old interval;
  -- its ease is 150 less after Hard, the same after Good and 150 more after Easy, but not below 1300.
  -- The home deck of a card of a filtered deck is its original deck.
  pub answer_rev_card-Reviewed :
      (ease : ℕ) (s : State)
      → s.card.type ≡ CardType.rev
      → Ensures (λ _ t. Reviewed ease s.card t.card) (answer_rev_card env ease s)
  unfolding answer_rev_card
  answer_rev_card-Reviewed ease s h =
      let early = is_early env.today s.card in
      let type : RevlogType = if early then RevlogType.cram else RevlogType.rev in
      elim (Run-cases (reschedule_lapse env s)) [
        | inl (delay, t, e) ↦ elim (Run-cases (reschedule_rev env ease early s)) [
          | inl (done, u, f) ↦ ground (
            arith,
            reschedule_lapse-Lapsed s h,
            reschedule_rev-Passed ease early s,
            log_rev-card ease delay type t,
            log_rev-card ease (pos 0) type u,
          )
          | inr (err, u, f) ↦
              ground (arith, reschedule_lapse-Lapsed s h, log_rev-card ease delay type t)
        ]
        | inr (err, t, e) ↦ elim (Run-cases (reschedule_rev env ease early s)) [
          | inl (done, u, f) ↦
              ground (arith, reschedule_rev-Passed ease early s, log_rev-card ease (pos 0) type u)
          | inr (err', u, f) ↦ ground arith
        ]
      ]
