-- ===== src/Desktop/Tasks.antt =====
-- `TaskManager` of qt/aqt/taskman.py: the closures that other threads leave for the main thread. A
-- closure is a number, and the same closure may be left more than once.
pub mod Order
mod Tests
use anki.Prelude.{ℕ, suc, List, [], ◌∷◌, ◌++◌, ◌≡◌}

-- `unsent` is how many calls of `run_on_main` are between the lock and the signal, and `signals` how
-- many signals Qt has still to deliver. `frames` holds a list for each call of `_on_closures_pending`
-- that is under way, the innermost first: what its loop has not come to. `posted`, `started` and `lost`
-- record the closures that were left for the main thread, that it has called, and that it will not
-- call since the loop was ended by an exception; `failures` counts these.
pub record TaskManager : Type 0 where
  pub closures : List ℕ
  pub unsent : ℕ
  pub signals : ℕ
  pub frames : List (List ℕ)
  pub started : List ℕ
  pub posted : List ℕ
  pub lost : List ℕ
  pub failures : ℕ

-- `run_on_main`, under the lock
unfoldable pub append_closure : ℕ → TaskManager → TaskManager
append_closure closure s = record s {
  closures = s.closures ++ closure ∷ [];
  unsent = suc s.unsent;
  posted = s.posted ++ closure ∷ [];
}

-- `run_on_main`, the signal, of which `n` calls are left
unfoldable pub emit : ℕ → TaskManager → TaskManager
emit n s = record s { unsent = n; signals = suc s.signals }

-- `_on_closures_pending`, under the lock
unfoldable pub take_closures : TaskManager → TaskManager
take_closures s = record s { closures = []; frames = s.closures ∷ s.frames }

-- A round of the loop of `_on_closures_pending`: the next closure is called.
unfoldable pub run_closure : ℕ → List ℕ → List (List ℕ) → TaskManager → TaskManager
run_closure closure rest frames s = record s {
  frames = rest ∷ frames;
  started = s.started ++ closure ∷ [];
}

-- The loop is through, and `_on_closures_pending` returns.
unfoldable pub return_from : List (List ℕ) → TaskManager → TaskManager
return_from frames s = record s { frames = frames }

-- The closure that was called last by the innermost loop raises, and that ends the loop.
unfoldable pub fail : List ℕ → List (List ℕ) → TaskManager → TaskManager
fail rest frames s = record s { frames = frames; lost = s.lost ++ rest; failures = suc s.failures }

-- What the threads may do next. A closure on the main thread may itself start a task, and so look for
-- closures; an exception may pass on to the closure that did.
pub data Step : TaskManager → TaskManager → Type 0 where
  append : {s : TaskManager} (closure : ℕ) → Step s (append_closure closure s)
  send : {s : TaskManager} (n : ℕ) → s.unsent ≡ suc n → Step s (emit n s)
  -- Qt delivers a signal to the main thread.
  deliver :
      {s : TaskManager} (n : ℕ)
      → s.signals ≡ suc n
      → Step s (take_closures (record s { signals = n }))
  -- `run_in_background` looks for closures before it starts a task.
  background : {s : TaskManager} → Step s (take_closures s)
  run :
      {s : TaskManager} (closure : ℕ) (rest : List ℕ) (frames : List (List ℕ))
      → s.frames ≡ (closure ∷ rest) ∷ frames
      → Step s (run_closure closure rest frames s)
  return :
      {s : TaskManager} (frames : List (List ℕ))
      → s.frames ≡ [] ∷ frames
      → Step s (return_from frames s)
  raise :
      {s : TaskManager} (rest : List ℕ) (frames : List (List ℕ))
      → s.frames ≡ rest ∷ frames
      → Step s (fail rest frames s)

abbrev pub new_manager : TaskManager
new_manager = record {
  closures = [];
  unsent = 0;
  signals = 0;
  frames = [];
  started = [];
  posted = [];
  lost = [];
  failures = 0;
}

pub data Reach : TaskManager → Type 0 where
  start : Reach new_manager
  next : {s s' : TaskManager} → Reach s → Step s s' → Reach s'
