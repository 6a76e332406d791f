-- ===== src/Scheduler/Steps.antt =====
-- Learning steps: `_leftToday`, `_startingLeft`, `_delayForGrade` and `_delayForRepeatingGrade` of
-- pylib/anki/scheduler/v2.py. A card's `left` holds the steps left to graduation below a thousand,
-- and above it those that can be done before the day's cutoff.
pub mod Today
pub mod Left
use anki.Prelude.{
  ℕ, zero, suc, Option, none, some, List, [], ◌∷◌, length, get_elem?, drop, ◌+◌, ◌-◌, ◌*◌, ◌%◌,
  ◌==◌, ltb, leb, if◌then◌else◌,
}
use anki.Prelude.Int.{ℤ, pos, ◌+ℤ◌, ◌*ℤ◌, max_ℤ, ltb_ℤ, floor_div}
use anki.Scheduler.Number.{Number}

module _ {A : Type 0} where
  -- `xs[-left]`; `none` is an `IndexError`
  abbrev pub get_from_end : List A → ℕ → Option A
  get_from_end xs zero = get_elem? xs 0
  get_from_end xs (suc n) =
      if leb (suc n) (length xs) then get_elem? xs (length xs - suc n) else none

  -- `xs[-left:]`
  abbrev pub slice_from_end : List A → ℕ → List A
  slice_from_end xs zero = xs
  slice_from_end xs (suc n) = drop (length xs - suc n) xs

module _ {N : Type 0} (num : Number N) where
  -- `int(delay * 60)`
  unfoldable pub seconds : N → ℤ
  seconds delay = num.trunc (num.mul delay (num.of_int (pos 60)))

  -- The loop of `_leftToday`: `idx` counts the rounds and `ok` is the last step that fits.
  unfoldable pub scan_today : ℤ → ℤ → ℕ → ℕ → List N → ℕ
  scan_today cutoff now idx ok [] = ok
  scan_today cutoff now idx ok (delay ∷ delays) =
      let now' = now +ℤ seconds delay in
      let rest = scan_today cutoff now' (suc idx) idx delays in
      if ltb_ℤ cutoff now' then ok else rest

  unfoldable pub left_today : ℕ → ℕ → List N → ℕ → ℕ
  left_today cutoff now delays left =
      scan_today (pos cutoff) (pos now) 0 0 (slice_from_end delays left) + 1

  unfoldable pub starting_left : ℕ → ℕ → List N → ℕ
  starting_left cutoff now delays =
      let tot = length delays in let tod = left_today cutoff now delays tot in tot + tod * 1000

  -- A step that was deleted falls back on the first one, or on a minute.
  abbrev pub first_delay : List N → ℤ
  first_delay [] = pos 60
  first_delay (delay ∷ delays) = seconds delay

  abbrev pub step_delay : List N → Option N → ℤ
  step_delay delays none = first_delay delays
  step_delay delays (some delay) = seconds delay

  unfoldable pub delay_for_grade : List N → ℕ → ℤ
  delay_for_grade delays left = step_delay delays (get_from_end delays (left % 1000))

  -- `left - 1` is not negative where it is used: there are two steps or more, and `left % 1000`
  -- is their number.
  unfoldable pub delay_for_repeating_grade : List N → ℕ → ℤ
  delay_for_repeating_grade delays left =
      let delay1 = delay_for_grade delays left in
      let delay2 =
        if ltb 1 (length delays) then delay_for_grade delays (left - 1) else delay1 *ℤ pos 2 in
      if length delays == left % 1000
      then floor_div (delay1 +ℤ max_ℤ delay1 delay2) (pos 2)
      else delay1
