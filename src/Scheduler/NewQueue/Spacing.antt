-- ===== src/Scheduler/NewQueue/Spacing.antt =====
-- How new cards are spread among reviews.
use anki.Prelude.{ℕ, max, ◌⊎◌, ◌+◌, ◌*◌, ◌/◌, ◌≤◌, ◌<◌, ◌≡◌, arith}
use anki.Prelude.Int.{pos, ◌+ℤ◌, floor_div}
use anki.Scheduler.State.{Env, NewSpread}
use anki.Scheduler.NewQueue.{new_card_modulus}
use native.Mathlib.Nat.{div-add-mod, mod-lt}

module _ {N : Type 0} (env : Env N) where
  -- With `new` new cards and `rev` reviews waiting, both more than none, and new cards that are
  -- spread among the reviews, a new card comes every `k` cards. `k` is at least 2; if more, the new
  -- cards do not run past the cards there are; and with `k + 1` they would.
  new_card_modulus_bounds :
      (new rev : ℕ)
      → env.new_spread ≡ NewSpread.distribute
      → 0 < new
      → 0 < rev
      → (k : ℕ) × (new_card_modulus env (pos new) (pos rev) ≡ pos k)
        × (2 ≤ k)
        × ((k ≡ 2) ⊎ (k * new ≤ new + rev))
        × (new + rev < (k + 1) * new)
  unfolding new_card_modulus ◌+ℤ◌ floor_div
  new_card_modulus_bounds new rev h p q = (
    max 2 ((new + rev) / new),
    ground arith,
    omega arith,
    grind (arith, div-add-mod (new + rev) new, mod-lt (new + rev) p),
    grind (arith, div-add-mod (new + rev) new, mod-lt (new + rev) p),
  )
