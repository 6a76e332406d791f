-- ===== src/Scheduler/Review/Total.antt =====
-- Which calls return: `_answerRevCard` and what it calls, for a card of a normal deck.
use anki.Prelude.{ℕ, ◌/◌, ◌≤◌, ◌≡◌, inl, inr, Bool, false, ◌&&◌, some, length, arith, Option-cases}
use anki.Prelude.Int.{ℤ, pos}
use anki.Scheduler.Card.{CardType, Card, RevlogType}
use anki.Scheduler.Config.{NormalConf, LapseConf, QueueConf}
use anki.Scheduler.State.{State, Env}
use anki.Scheduler.Logic.{Run-cases}
use anki.Scheduler.Lookup.{card_conf, rev_conf}
use anki.Scheduler.Learn.Total.{
  Finishes, Keeps, KeepsCard, LogsOnly, IsAtHome, HasFreeKeys, lapse_conf-IsAtHome,
  update_rev_ivl_on_fail-Finishes, reschedule_as_rev-Finishes, move_to_first_step-Finishes,
  log_twice-Finishes,
}
use anki.Scheduler.Revlog.{has_entry}
use anki.Scheduler.Learn.{update_rev_ivl_on_fail}
use anki.Scheduler.Learn.Outcome.{update_rev_ivl_on_fail-keeps}
use anki.Scheduler.Review.{
  is_suspended, factor_after, check_leech, count_lapse, relearn, keep_in_review, after_leech,
  reschedule_lapse, fuzzed_rev_ivl, reschedule_rev, log_rev, answer_rev_card,
}

-- `Keeps`, and the card's type.
abbrev KeepsType : State → State → Type 0
KeepsType s t = Keeps s t × (t.card.type ≡ s.card.type)

module _ {N : Type 0} (env : Env N) (conf : NormalConf N) where
  check_leech-Finishes :
      (c : LapseConf N) (s : State) → Finishes (KeepsType s) (check_leech env c s)
  unfolding check_leech
  check_leech-Finishes c s = ground arith

  relearn-Finishes :
      (s : State) → IsAtHome env conf s.card → Finishes (Keeps s) (relearn env conf.lapse s)
  unfolding relearn
  relearn-Finishes s h =
      move_to_first_step-Finishes env conf
        (record s { card = record s.card { type = CardType.relearning } }) h

  keep_in_review-Finishes :
      (suspended : Bool) (s : State)
      → 2 ≤ length conf.new.ints
      → IsAtHome env conf s.card
      → s.card.type ≡ CardType.rev
      → Finishes (Keeps s) (keep_in_review env suspended conf.lapse s)
  unfolding keep_in_review
  keep_in_review-Finishes suspended s n h e =
      let u = (update_rev_ivl_on_fail env (QueueConf.lapse conf.lapse) s).1 in
      ground (
        arith,
        update_rev_ivl_on_fail-Finishes env conf s,
        update_rev_ivl_on_fail-keeps env (QueueConf.lapse conf.lapse) s,
        reschedule_as_rev-Finishes env conf false CardType.rev u n,
      )

  after_leech-Finishes :
      (leech : Bool) (s : State)
      → 2 ≤ length conf.new.ints
      → IsAtHome env conf s.card
      → s.card.type ≡ CardType.rev
      → Finishes (Keeps s) (after_leech env leech conf.lapse s)
  unfolding after_leech
  after_leech-Finishes leech s n h e =
      let suspended = leech && is_suspended s.card.queue in
      ground (arith, relearn-Finishes s h, keep_in_review-Finishes suspended s n h e)

  reschedule_lapse-Finishes :
      (s : State)
      → 2 ≤ length conf.new.ints
      → IsAtHome env conf s.card
      → s.card.type ≡ CardType.rev
      → Finishes (Keeps s) (reschedule_lapse env s)
  unfolding reschedule_lapse
  reschedule_lapse-Finishes s n h e =
      let s' = record s { card = count_lapse env s.card } in
      elim (Run-cases (check_leech env conf.lapse s')) [
        | inr (err, t, r) ↦ ground (arith, check_leech-Finishes conf.lapse s')
        | inl (leech, t, r) ↦ ground (
          arith,
          lapse_conf-IsAtHome env conf s.card h,
          check_leech-Finishes conf.lapse s',
          after_leech-Finishes leech t n,
        )
      ]

  fuzzed_rev_ivl-Finishes :
      (card : Card) (ease : ℕ) (s : State)
      → IsAtHome env conf card
      → Finishes
          (λ t. (t.card ≡ s.card) × (t.cards ≡ s.cards) × (t.revlog ≡ s.revlog))
          (fuzzed_rev_ivl env card ease s)
  unfolding fuzzed_rev_ivl rev_conf card_conf
  fuzzed_rev_ivl-Finishes card ease s h = ground arith

  factor_after-some :
      (factor ease : ℕ) → 2 ≤ ease → ease ≤ 4 → (f : ℕ) × (factor_after factor ease ≡ some f)
  unfolding factor_after
  factor_after-some factor ease lo hi = elim (Option-cases (factor_after factor ease)) [
    | inl e ↦ ground arith
    | inr (f, e) ↦ (f, e)
  ]

  reschedule_rev-Finishes :
      (ease : ℕ) (s : State)
      → 2 ≤ ease
      → ease ≤ 4
      → IsAtHome env conf s.card
      → Finishes (Keeps s) (reschedule_rev env ease false s)
  unfolding reschedule_rev
  reschedule_rev-Finishes ease s lo hi h =
      let s' = record s { card = record s.card { last_ivl = s.card.ivl } } in
      let (f, p) = factor_after-some s.card.factor ease lo hi in
      ground (arith, fuzzed_rev_ivl-Finishes s'.card ease s' h, p)

  log_rev-Finishes :
      (ease : ℕ) (delay : ℤ) (type : RevlogType) (started : ℕ) (s : State)
      → IsAtHome env conf s.card
      → s.card.timer_started ≡ some started
      → has_entry (env.time s.reads / 1_000_000) s.revlog ≡ false
      → Finishes (LogsOnly s) (log_rev env ease delay type s)
  unfolding log_rev
  log_rev-Finishes ease delay type started s h t k =
      log_twice-Finishes env conf ease _ _ type started s h t k

  pub answer_rev_card-Finishes :
      (ease started : ℕ) (s : State)
      → 1 ≤ ease
      → ease ≤ 4
      → 2 ≤ length conf.new.ints
      → IsAtHome env conf s.card
      → s.card.type ≡ CardType.rev
      → s.card.timer_started ≡ some started
      → HasFreeKeys env conf s.revlog
      → Finishes (KeepsCard s) (answer_rev_card env ease s)
  unfolding answer_rev_card
  answer_rev_card-Finishes ease started s lo hi n h e t k =
      elim (Run-cases (reschedule_lapse env s)) [
        | inr (err, u, r) ↦ ground (arith, reschedule_lapse-Finishes s n h e)
        | inl (delay, u, r) ↦ elim (Run-cases (reschedule_rev env ease false s)) [
          | inr (err, v, q) ↦ ground (
            arith,
            reschedule_lapse-Finishes s n h e,
            reschedule_rev-Finishes ease s,
            log_rev-Finishes ease delay RevlogType.rev started u,
            k u.reads,
          )
          | inl (done, v, q) ↦ ground (
            arith,
            reschedule_lapse-Finishes s n h e,
            reschedule_rev-Finishes ease s,
            log_rev-Finishes ease delay RevlogType.rev started u,
            log_rev-Finishes ease (pos 0) RevlogType.rev started v,
            k u.reads,
            k v.reads,
          )
        ]
      ]
