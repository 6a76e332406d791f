-- ===== src/Scheduler/Review/Leech.antt =====
-- When `_checkLeech` takes a card for a leech.
use anki.Prelude.{ℕ, ◌+◌, ◌-◌, ◌*◌, ◌/◌, max, ◌<◌, ◌≡◌, ◌↔◌, true, arith}
use anki.Scheduler.Review.{is_leech}
use native.Mathlib.Nat.{div-add-mod, mul-mod_right}

omega_sub : (a b : ℕ) → a + b - a ≡ b
omega_sub a b = omega arith

-- A card counts as a leech exactly when a threshold is set and its lapses are the threshold plus a
-- multiple of half the threshold (rounded down, and at least one).
pub is_leech_iff :
    (fails lapses : ℕ)
    → (is_leech fails lapses ≡ true)
      ↔ ((0 < fails) × ((k : ℕ) × (lapses ≡ fails + max (fails / 2) 1 * k)))
unfolding is_leech
is_leech_iff fails lapses = (
  λ h. (
    ground (arith, h),
    (
      (lapses - fails) / max (fails / 2) 1,
      ground (arith, h, div-add-mod (lapses - fails) (max (fails / 2) 1)),
    ),
  ),
  λ (threshold, (k, e)).
      let m = max (fails / 2) 1 in ground (arith, mul-mod_right m k, omega_sub fails (m * k)),
)
