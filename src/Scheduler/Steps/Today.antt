-- ===== src/Scheduler/Steps/Today.antt =====
-- `_leftToday` against its meaning: how many of the steps end by the day's cutoff.
use anki.Prelude.{ℕ, suc, ◌+◌, ◌-◌, max, ◌≤◌, ◌≡◌, List, [], ◌∷◌, length, arith, if◌then◌else◌}
use anki.Prelude.Int.{ℤ, pos, ◌+ℤ◌, ltb_ℤ}
use anki.Scheduler.Number.{Number}
use anki.Scheduler.Steps.{seconds, scan_today, left_today, slice_from_end}

module _ {N : Type 0} (num : Number N) where
  -- The number of steps that end by the cutoff, when each begins as the one before it ends and the
  -- first begins now.
  abbrev pub steps_by : ℤ → ℤ → List N → ℕ
  steps_by cutoff now [] = 0
  steps_by cutoff now (delay ∷ delays) =
      let ends = now +ℤ seconds num delay in
      let rest = steps_by cutoff ends delays in if ltb_ℤ cutoff ends then 0 else suc rest

  scan_today-eq :
      (cutoff now : ℤ) (idx ok : ℕ) (delays : List N)
      → ok ≡ idx - 1
      → scan_today num cutoff now idx ok delays ≡ (idx + steps_by cutoff now delays) - 1
  unfolding scan_today
  scan_today-eq cutoff now idx ok [] h = omega arith
  scan_today-eq cutoff now idx ok (delay ∷ delays) h =
      ground (arith, scan_today-eq cutoff (now +ℤ seconds num delay) (suc idx) idx delays)

  -- The steps left today are those that end by the day's cutoff, counted until the first that
  -- does not; but at least one.
  pub left_today-eq :
      (cutoff now : ℕ) (delays : List N) (left : ℕ)
      → left_today num cutoff now delays left
        ≡ max 1 (steps_by (pos cutoff) (pos now) (slice_from_end delays left))
  unfolding left_today
  left_today-eq cutoff now delays left =
      omega (arith, scan_today-eq (pos cutoff) (pos now) 0 0 (slice_from_end delays left))

  pub steps_by-le-length :
      (cutoff now : ℤ) (delays : List N) → steps_by cutoff now delays ≤ length delays
  steps_by-le-length cutoff now [] = omega arith
  steps_by-le-length cutoff now (delay ∷ delays) =
      ground (arith, steps_by-le-length cutoff (now +ℤ seconds num delay) delays)
