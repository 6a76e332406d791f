-- ===== src/Scheduler/Steps/Left.antt =====
-- How `left` packs two counts, and the step that it selects.
use anki.Prelude.{
  ℕ, zero, suc, ◌-◌, ◌/◌, ◌%◌, max, ◌≤◌, ◌<◌, ◌≡◌, ap, List, [], ◌∷◌, length, drop, arith,
}
use anki.Prelude.Int.{pos}
use anki.Scheduler.Number.{Number}
use anki.Scheduler.Steps.{starting_left, slice_from_end, delay_for_grade, step_delay, get_from_end}
use anki.Scheduler.Steps.Today.{left_today-eq, steps_by-le-length}

module _ {N : Type 0} (num : Number N) where
  length-slice_from_end-le : (xs : List N) (left : ℕ) → length (slice_from_end xs left) ≤ length xs
  length-slice_from_end-le xs zero = omega arith
  length-slice_from_end-le xs (suc n) = length-drop-le (length xs - suc n) xs
    where
      length-drop-le : (k : ℕ) (ys : List N) → length (drop k ys) ≤ length ys
      length-drop-le zero ys = omega arith
      length-drop-le (suc k) [] = omega arith
      length-drop-le (suc k) (y ∷ ys) = omega (arith, length-drop-le k ys)

  -- With fewer than 1000 steps, a card that enters learning has all of its steps left to graduation,
  -- and of these at least one and at most all to do today (one if there are no steps).
  pub starting_left_parts :
      (cutoff now : ℕ) (delays : List N)
      → length delays < 1000
      → let left = starting_left num cutoff now delays in
        (left % 1000 ≡ length delays) × (1 ≤ left / 1000) × (left / 1000 ≤ max 1 (length delays))
  unfolding starting_left
  starting_left_parts cutoff now delays h = omega (
    arith,
    left_today-eq num cutoff now delays (length delays),
    steps_by-le-length num (pos cutoff) (pos now) (slice_from_end delays (length delays)),
    length-slice_from_end-le delays (length delays),
  )

  -- Two values of `left` that agree modulo 1000 give the same delay: only the steps left to
  -- graduation select it.
  pub delay_for_grade-mod :
      (delays : List N) (left left' : ℕ)
      → left % 1000 ≡ left' % 1000
      → delay_for_grade num delays left ≡ delay_for_grade num delays left'
  unfolding delay_for_grade
  delay_for_grade-mod delays left left' e =
      ap (λ (n : ℕ). step_delay num delays (get_from_end delays n)) e
