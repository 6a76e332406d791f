-- ===== src/Desktop/Tasks/Order.antt =====
-- No closure for the main thread is forgotten or called twice, but for those behind one that raises.
use anki.Prelude.{
  ℕ, List, [], ◌∷◌, ◌++◌, ◌+◌, ◌≤◌, ◌≡◌, ◌⊎◌, refl, ap, inl, inr, ◌==◌, if◌then◌else◌, arith,
}
use anki.Desktop.Tasks.{
  TaskManager, Step, append, send, deliver, background, run, return, raise, Reach, start, next,
  append_closure, emit, take_closures, run_closure, return_from, fail,
}

-- How often a closure stands in a list, and in the lists of all loops.
abbrev pub times : ℕ → List ℕ → ℕ
times c [] = 0
times c (d ∷ ds) = (if c == d then 1 else 0) + times c ds

abbrev pub times_in : ℕ → List (List ℕ) → ℕ
times_in c [] = 0
times_in c (xs ∷ xss) = times c xs + times_in c xss

times-append : (c : ℕ) (xs ys : List ℕ) → times c (xs ++ ys) ≡ times c xs + times c ys
times-append c [] ys = omega arith
times-append c (x ∷ xs) ys = omega (arith, times-append c xs ys)

-- Each time that it was left for the main thread, the closure was called, is in a loop that has not
-- come to it, waits, or is lost.
abbrev pub IsKept : ℕ → TaskManager → Type 0
IsKept c s =
    times c s.posted ≡ times c s.started + times_in c s.frames + times c s.closures + times c s.lost

Step-IsKept : (c : ℕ) {s s' : TaskManager} → Step s s' → IsKept c s → IsKept c s'
unfolding append_closure emit take_closures run_closure return_from fail
Step-IsKept c {s = s} (append d) h =
    omega (arith, h, times-append c s.posted (d ∷ []), times-append c s.closures (d ∷ []))
Step-IsKept c {s = s} (send n e) h = h
Step-IsKept c {s = s} (deliver n e) h = omega (arith, h)
Step-IsKept c {s = s} background h = omega (arith, h)
Step-IsKept c {s = s} (run d rest frames e) h =
    omega (arith, h, ap (times_in c) e, times-append c s.started (d ∷ []))
Step-IsKept c {s = s} (return frames e) h = omega (arith, h, ap (times_in c) e)
Step-IsKept c {s = s} (raise rest frames e) h =
    omega (arith, h, ap (times_in c) e, times-append c s.lost rest)

-- If something waits, a signal is under way; and without a failure nothing is lost.
abbrev pub IsHeeded : TaskManager → Type 0
IsHeeded s = ((1 ≤ s.unsent + s.signals) ⊎ (s.closures ≡ [])) × ((1 ≤ s.failures) ⊎ (s.lost ≡ []))

Step-IsHeeded : {s s' : TaskManager} → Step s s' → IsHeeded s → IsHeeded s'
unfolding append_closure emit take_closures run_closure return_from fail
Step-IsHeeded (append d) h = (inl (omega arith), h.1)
Step-IsHeeded (send n e) h = (inl (omega arith), h.1)
Step-IsHeeded (deliver n e) h = (inr refl, h.1)
Step-IsHeeded background h = (inr refl, h.1)
Step-IsHeeded (run d rest frames e) h = h
Step-IsHeeded (return frames e) h = h
Step-IsHeeded (raise rest frames e) h = (h.0, inl (omega arith))

-- However the threads interleave, and whichever closures raise or start tasks of their own, each
-- closure was left for the main thread as often as it was called, is still to be called by a loop,
-- waits, or is lost. If something waits, a signal is under way that will have it taken, and if nothing
-- has raised, nothing is lost.
pub Reach-IsKept : (c : ℕ) (s : TaskManager) → Reach s → IsKept c s × IsHeeded s
Reach-IsKept c s start = (refl, (inr refl, inr refl))
Reach-IsKept c s (next r st) =
    let kept = Reach-IsKept c _ r in (Step-IsKept c st kept.0, Step-IsHeeded st kept.1)
