-- ===== src/Scheduler/Number.antt =====
-- Python's numbers where the scheduler mixes integers and floats.
use anki.Prelude.{ℕ, Bool}
use anki.Prelude.Int.{ℤ}

-- `N` holds the ints and the floats, and an operator does what Python does on the pair. A float's
-- arithmetic is IEEE 754's, so it enters as a parameter.
pub record Number (N : Type 0) : Type 0 where
  -- an int where a number is expected
  pub of_int : ℤ → N
  -- the literal `n / 10 ** k`, so `literal 25 2` is `0.25`
  pub literal : ℕ → ℕ → N
  pub mul : N → N → N
  pub div : N → N → N
  pub sub : N → N → N
  pub less : N → N → Bool
  -- `int(x)`, towards zero
  pub trunc : N → ℤ
