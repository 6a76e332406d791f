-- ===== src/Desktop/Tasks/Tests.antt =====
-- Three closures from two threads, of which one raises, and the theorem at that run.
use anki.Prelude.{[], ◌∷◌, refl}
use anki.Desktop.Tasks.{
  TaskManager, Step, Reach, append_closure, emit, take_closures, run_closure, fail,
}
use anki.Desktop.Tasks.Order.{IsKept, IsHeeded, Reach-IsKept}

-- Two closures are taken and the first one raises; the third waits for its signal.
abbrev half_done : TaskManager
half_done = record {
  closures = 3 ∷ [];
  unsent = 2;
  signals = 0;
  frames = [];
  started = 1 ∷ [];
  posted = 1 ∷ 2 ∷ 3 ∷ [];
  lost = 2 ∷ [];
  failures = 1;
}

half_done-Reach : Reach half_done
unfolding append_closure emit take_closures run_closure fail
half_done-Reach =
    Reach.next
      (Reach.next
        (Reach.next
          (Reach.next
            (Reach.next (Reach.next (Reach.next Reach.start (Step.append 1)) (Step.append 2))
              (Step.send 1 refl))
            (Step.deliver 0 refl))
          (Step.run 1 (2 ∷ []) [] refl))
        (Step.raise (2 ∷ []) [] refl))
      (Step.append 3)

Reach-IsKept_example : IsKept 2 half_done × IsHeeded half_done
Reach-IsKept_example = Reach-IsKept 2 half_done half_done-Reach
