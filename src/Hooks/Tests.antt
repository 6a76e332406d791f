-- ===== src/Hooks/Tests.antt =====
-- The hooks at work, and the invariant at an input.
use anki.Prelude.{ℕ, suc, ◌≡◌, refl, Option, none, some, [], ◌∷◌, ◌==◌, if◌then◌else◌}
use anki.Prelude.Text.{Text, codes, same}
use anki.Hooks.{Hooks, add_hook, run_hook, run_funcs, funcs_of, set_funcs, drop_func}
use anki.Hooks.Once.{AreOnce, Step, Reach, Reach-AreOnce}

abbrev leech : Text
leech = codes "leech"

-- The function 3 raises, and the others count their calls.
abbrev count_calls : ℕ → ℕ → Option ℕ × ℕ
count_calls func n = (if func == 3 then none else some (suc n), n)

abbrev two_added : Hooks
two_added = add_hook leech 4 (add_hook leech 3 [])

raising_function_is_dropped :
    run_hook count_calls leech 10 (add_hook leech 5 (add_hook leech 3 (add_hook leech 4 [])))
    ≡ (some 3, 11, ((leech, 4 ∷ 5 ∷ []) ∷ []))
unfolding run_hook run_funcs add_hook funcs_of set_funcs drop_func same
raising_function_is_dropped = refl

Reach-AreOnce_example : AreOnce (run_hook count_calls leech 0 two_added).2
Reach-AreOnce_example = Reach-AreOnce (run_hook count_calls leech 0 two_added).2 (
    Reach.next
      (Reach.next (Reach.next Reach.start (Step.add leech 3 []))
        (Step.add leech 4 (add_hook leech 3 [])))
      (Step.run count_calls leech 0 two_added))
