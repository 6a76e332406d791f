-- ===== src/Scheduler/Answer/Outcome.antt =====
-- The type and queue of a card after `_answerCard`.
use anki.Prelude.{ℕ, suc, ◌≡◌, ◌≢◌, ◌⊎◌, inl, inr, true, false, arith}
use anki.Prelude.Int.{pos}
use anki.Scheduler.Card.{CardType, CardQueue, Card}
use anki.Scheduler.State.{State, Env}
use anki.Scheduler.Lookup.{previewing_card}
use anki.Scheduler.Logic.{Ensures, Run-cases, Result-cases, fits}
use anki.Scheduler.Revlog.{time_taken}
use anki.Scheduler.Learn.{answer_lrn_card}
use anki.Scheduler.Learn.Outcome.{Stays, Graduates, starting_left_of-card, answer_lrn_card-outcome}
use anki.Scheduler.Review.{answer_rev_card}
use anki.Scheduler.Review.Outcome.{Reviewed, answer_rev_card-Reviewed}
use anki.Scheduler.Answer.{
  enter_learning, dispatch_answer, answer_scheduled, answer_inner, restore_preview_card,
  answer_card_preview,
}

-- A card's queue and type fit, and it has been answered: it is no longer in the new queue.
abbrev pub IsSound : Card → Type 0
IsSound c = fits c.queue c.type ≡ true

module _ {N : Type 0} (env : Env N) where
  time_taken-card : (s : State) → (time_taken env s).1.card ≡ s.card
  unfolding time_taken
  time_taken-card s = ground arith

  enter_learning-IsSound :
      (s : State)
      → IsSound s.card
      → Ensures (λ _ t. IsSound t.card × (t.card.queue ≢ CardQueue.new)) (enter_learning env s)
  unfolding enter_learning
  enter_learning-IsSound s h =
      let s' = record s { card = record s.card { queue = CardQueue.lrn; type = CardType.lrn } } in
      ground (arith, starting_left_of-card env s')

  learning-IsSound :
      (c c' : Card)
      → IsSound c
      → (c.queue ≡ CardQueue.lrn) ⊎ (c.queue ≡ CardQueue.day_learn_relearn)
      → Stays env c c' ⊎ Graduates env c c'
      → IsSound c' × (c'.queue ≢ CardQueue.new)
  learning-IsSound c c' h q (inl (t, e)) = ground arith
  learning-IsSound c c' h q (inr (t, e, o, d)) = ground arith

  review-IsSound :
      (ease : ℕ) (c c' : Card)
      → c.queue ≡ CardQueue.rev
      → IsSound c
      → Reviewed env ease c c'
      → IsSound c' × (c'.queue ≢ CardQueue.new)
  review-IsSound ease c c' q h r = ground arith

  dispatch_answer-IsSound :
      (ease : ℕ) (s : State)
      → IsSound s.card
      → Ensures
          (λ _ t. IsSound t.card × (t.card.queue ≢ CardQueue.new))
          (dispatch_answer env ease s)
  unfolding dispatch_answer
  dispatch_answer-IsSound ease s h = elim (Run-cases (answer_lrn_card env ease s)) [
    | inl (done, t, e) ↦ elim (Run-cases (answer_rev_card env ease s)) [
      | inl (done', u, f) ↦ ground (
        arith,
        answer_lrn_card-outcome env ease s,
        answer_rev_card-Reviewed env ease s,
        learning-IsSound s.card t.card,
        review-IsSound ease s.card u.card,
      )
      | inr (err, u, f) ↦
          ground (arith, answer_lrn_card-outcome env ease s, learning-IsSound s.card t.card)
    ]
    | inr (err, t, e) ↦ elim (Run-cases (answer_rev_card env ease s)) [
      | inl (done', u, f) ↦
          ground (arith, answer_rev_card-Reviewed env ease s, review-IsSound ease s.card u.card)
      | inr (err', u, f) ↦ ground arith
    ]
  ]

  answer_scheduled-IsSound :
      (ease : ℕ) (s : State)
      → IsSound s.card
      → Ensures
          (λ _ t. IsSound t.card × (t.card.queue ≢ CardQueue.new) × (t.card.odue ≡ pos 0))
          (answer_scheduled env ease s)
  unfolding answer_scheduled
  answer_scheduled-IsSound ease s h =
      let s' = record s { card = record s.card { reps = suc s.card.reps } } in
      elim (Run-cases (enter_learning env s')) [
        | inr (err, t, e) ↦ ground arith
        | inl (delta, t, e) ↦ elim (Run-cases (dispatch_answer env ease t)) [
          | inr (err, u, f) ↦ ground arith
          | inl (delta', u, f) ↦ ground (
            arith,
            enter_learning-IsSound s' h,
            dispatch_answer-IsSound ease t,
            time_taken-card u,
          )
        ]
      ]

  restore_preview_card-IsSound :
      (s : State) → Ensures (λ _ t. IsSound t.card) (restore_preview_card s)
  unfolding restore_preview_card
  restore_preview_card-IsSound s = ground arith

  answer_card_preview-IsSound :
      (ease : ℕ) (s : State) → Ensures (λ _ t. IsSound t.card) (answer_card_preview env ease s)
  unfolding answer_card_preview
  answer_card_preview-IsSound ease s = ground (arith, restore_preview_card-IsSound s)

  pub answer_inner-IsSound :
      (ease : ℕ) (s : State)
      → IsSound s.card
      → Ensures (λ _ t. IsSound t.card) (answer_inner env ease s)
  unfolding answer_inner
  answer_inner-IsSound ease s h =
      let s' = record s { reps = suc s.reps } in
      elim (Result-cases (previewing_card env s.card)) [
        | inr (err, e) ↦ ground arith
        | inl (true, e) ↦ ground (arith, answer_card_preview-IsSound ease s')
        | inl (false, e) ↦ ground (arith, answer_scheduled-IsSound ease s' h)
      ]
