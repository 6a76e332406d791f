-- ===== src/Utils/Free.antt =====
-- The loops that look for a number that is not in use.
use anki.Prelude.{
  ℕ, true, false, List, [], ◌∷◌, ◌+◌, ◌*◌, ◌<◌, ◌≤◌, ◌≡◌, refl, zero, suc, length, contains, leb,
  if◌then◌else◌, Bool-cases, inl, inr, arith,
}
use anki.Utils.{skip_used, next_free}

-- How many of the numbers are not below `x`.
abbrev pub ahead : ℕ → List ℕ → ℕ
ahead x [] = 0
ahead x (y ∷ ys) = (if leb x y then 1 else 0) + ahead x ys

ahead_mono : (x y : ℕ) (used : List ℕ) → x ≤ y → ahead y used ≤ ahead x used
ahead_mono x y [] h = omega arith
ahead_mono x y (z ∷ zs) h = ground (arith, ahead_mono x y zs h)

pub ahead-lt :
    (x step : ℕ) (used : List ℕ)
    → 0 < step
    → contains x used ≡ true
    → ahead (x + step) used < ahead x used
ahead-lt x step [] h c = ground (arith, c)
ahead-lt x step (y ∷ ys) h c = ground (arith, c, ahead-lt x step ys h, ahead_mono x (x + step) ys)

pub ahead-le-length : (x : ℕ) (used : List ℕ) → ahead x used ≤ length used
ahead-le-length x [] = omega arith
ahead-le-length x (y ∷ ys) = ground (arith, ahead-le-length x ys)

pub ahead_zero : (x : ℕ) (used : List ℕ) → ahead x used ≡ 0 → contains x used ≡ false
ahead_zero x [] h = refl
ahead_zero x (y ∷ ys) h = ground (arith, h, ahead_zero x ys)

skip_used_free :
    (step fuel x : ℕ) (used : List ℕ)
    → 0 < step
    → ahead x used ≤ fuel
    → contains (skip_used step fuel x used) used ≡ false
unfolding skip_used
skip_used_free step zero x used h f = ahead_zero x used (omega arith)
skip_used_free step (suc fuel) x used h f = elim (Bool-cases (contains x used)) [
  | inl c ↦ ground (
    arith,
    c,
    skip_used_free step fuel (x + step) used h (omega (arith, ahead-lt x step used h c)),
  )
  | inr c ↦ ground (arith, c)
]

-- The `k` numbers `x`, `x + step`, `x + 2 * step` and so on are in use.
abbrev pub AreUsed : ℕ → ℕ → ℕ → List ℕ → Type 0
AreUsed zero step x used = Unit
AreUsed (suc k) step x used = (contains x used ≡ true) × AreUsed k step (x + step) used

skip_used_rounds :
    (step fuel x : ℕ) (used : List ℕ)
    → (k : ℕ) × (skip_used step fuel x used ≡ x + k * step) × AreUsed k step x used
unfolding skip_used
skip_used_rounds step zero x used = (0, omega arith, tt)
skip_used_rounds step (suc fuel) x used = elim (Bool-cases (contains x used)) [
  | inl c ↦
      let (k, e, h) = skip_used_rounds step fuel (x + step) used in
      (suc k, ground (arith, c, e, step_again x k step), (c, h))
  | inr c ↦ (0, ground (arith, c), tt)
]
  where
    step_again : (x k step : ℕ) → x + step + k * step ≡ x + suc k * step
    step_again x k step = grind arith

-- By a positive step the loop over the numbers in use comes to an end: it gives the first of
-- `x`, `x + step`, `x + 2 * step` and so on that is not in use.
pub next_free_lem :
    (step x : ℕ) (used : List ℕ)
    → 0 < step
    → (contains (next_free step x used) used ≡ false)
      × ((k : ℕ) × (next_free step x used ≡ x + k * step) × AreUsed k step x used)
unfolding next_free
next_free_lem step x used h = (
  skip_used_free step (length used) x used h (ahead-le-length x used),
  skip_used_rounds step (length used) x used,
)
