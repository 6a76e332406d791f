-- ===== src/Scheduler/Intervals/Fuzz.antt =====
-- The range that an interval is fuzzed in.
use anki.Prelude.{ℕ, suc, ◌+◌, ◌*◌, ◌^◌, ◌≤◌, ◌<◌, ◌≡◌, arith, ltb, Bool-cases, inl, inr}
use anki.Prelude.Int.{ℤ, pos, pos_part, neg_part, ◌≤ℤ◌, ◌+ℤ◌, ◌-ℤ◌, int_laws, +ℤ_parts, -ℤ_parts}
use anki.Scheduler.Number.{Number}
use anki.Scheduler.Intervals.{percent, fuzz_width, fuzz_ivl_range, randint, fuzzed_ivl}
use native.Mathlib.Nat.{mod-lt}

neg_part-sub : (lo hi : ℤ) → lo ≤ℤ hi → neg_part (hi -ℤ lo) ≡ 0
unfolding ◌-ℤ◌
neg_part-sub lo hi h = ground arith

randint_range :
    (draw : ℕ) (lo hi : ℤ)
    → lo ≤ℤ hi
    → (lo ≤ℤ randint draw (lo, hi)) × (randint draw (lo, hi) ≤ℤ hi)
randint_range draw lo hi h =
    omega
      (int_laws, neg_part-sub lo hi h, mod-lt draw {m = suc (pos_part (hi -ℤ lo))} (omega arith))

module _ {N : Type 0} (num : Number N) where
  -- For the intervals that the backend stores, a product with a literal of at most a quarter is at
  -- most a quarter, once cut to an int.
  abbrev pub CutsQuarter : Type 0
  CutsQuarter = (ivl p : ℕ) → ivl < 2 ^ 32 → p ≤ 25 → 4 * percent num ivl p ≤ ivl

  fuzz_width-pos : (ivl : ℕ) → 1 ≤ fuzz_width num ivl
  unfolding fuzz_width
  fuzz_width-pos ivl = ground arith

  fuzz_width-lt :
      (ivl : ℕ)
      → CutsQuarter
      → ivl < 2 ^ 32
      → 3 ≤ ivl
      → (1 ≤ fuzz_width num ivl) × (fuzz_width num ivl < ivl)
  unfolding fuzz_width
  fuzz_width-lt ivl cut b h = ground (arith, cut ivl 25, cut ivl 15, cut ivl 5)

  -- The two ends of the range, and what lies between them.
  fuzz_ivl_range_ends :
      (ivl : ℕ)
      → CutsQuarter
      → ivl < 2 ^ 32
      → 1 ≤ ivl
      → let (lo, hi) = fuzz_ivl_range num (pos ivl) in
        (pos 1 ≤ℤ lo)
        × (lo ≤ℤ hi)
        × (hi ≤ℤ pos (ivl + fuzz_width num ivl))
        × (pos ivl ≤ℤ lo +ℤ pos (fuzz_width num ivl))
  unfolding fuzz_ivl_range
  fuzz_ivl_range_ends ivl cut b h = elim (Bool-cases (ltb ivl 3)) [
    | inl small ↦ ground (arith, fuzz_width-pos ivl, +ℤ_parts (pos 1) w, +ℤ_parts (pos 2) w)
    | inr large ↦ ground (
      arith,
      fuzz_width-lt ivl cut b,
      +ℤ_parts (pos ivl) w,
      -ℤ_parts (pos ivl) w,
      +ℤ_parts (pos ivl -ℤ w) w,
    )
  ]
    where
      w : ℤ
      w = pos (fuzz_width num ivl)

  -- A fuzzed interval is at least a day and off from the interval by the fuzz at most. The
  -- interval is to be at least a day and below 2^32, and the numbers are to cut products with at
  -- most a quarter correctly.
  pub fuzzed_ivl_range :
      (draw ivl : ℕ)
      → CutsQuarter
      → ivl < 2 ^ 32
      → 1 ≤ ivl
      → let v = fuzzed_ivl num draw (pos ivl) in
        (pos 1 ≤ℤ v)
        × (v ≤ℤ pos (ivl + fuzz_width num ivl))
        × (pos ivl ≤ℤ v +ℤ pos (fuzz_width num ivl))
  unfolding fuzzed_ivl
  fuzzed_ivl_range draw ivl cut b h =
      let (lo, hi) = fuzz_ivl_range num (pos ivl) in
      let ends = fuzz_ivl_range_ends ivl cut b h in
      let inside = randint_range draw lo hi ends.1 in omega int_laws
