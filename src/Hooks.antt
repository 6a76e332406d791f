-- ===== src/Hooks.antt =====
-- The legacy hooks of pylib/anki/hooks.py. A function on a hook is known by a number, and the hooks
-- are a map from names.
pub mod Once
mod Tests
use anki.Prelude.{
  ℕ, Bool, true, false, Option, none, some, List, [], ◌∷◌, ◌++◌, contains, ◌==◌, if◌then◌else◌,
}
use anki.Prelude.Text.{Text, same}

abbrev pub Hooks : Type 0
Hooks = List (Text × List ℕ)

-- `_hooks.get(hook, [])`; an empty list and a missing one are treated alike
unfoldable pub funcs_of : Text → Hooks → List ℕ
funcs_of hook [] = []
funcs_of hook ((name, funcs) ∷ hooks) = if same name hook then funcs else funcs_of hook hooks

-- `_hooks[hook] = funcs`
unfoldable pub set_funcs : Text → List ℕ → Hooks → Hooks
set_funcs hook funcs [] = (hook, funcs) ∷ []
set_funcs hook funcs ((name, old) ∷ hooks) =
    let rest = set_funcs hook funcs hooks in
    if same name hook then (name, funcs) ∷ hooks else (name, old) ∷ rest

-- `list.remove`, for a function that is on the list
unfoldable pub drop_func : ℕ → List ℕ → List ℕ
drop_func func [] = []
drop_func func (f ∷ funcs) =
    let rest = drop_func func funcs in if f == func then funcs else f ∷ rest

-- `addHook`
unfoldable pub add_hook : Text → ℕ → Hooks → Hooks
add_hook hook func hooks =
    let funcs = funcs_of hook hooks in
    if contains func funcs then hooks else set_funcs hook (funcs ++ func ∷ []) hooks

-- `remHook`
unfoldable pub rem_hook : Text → ℕ → Hooks → Hooks
rem_hook hook func hooks =
    let funcs = funcs_of hook hooks in
    if contains func funcs then set_funcs hook (drop_func func funcs) hooks else hooks

-- What a function does to the value that it is called on, or `none` if it raises. A function of
-- `runHook` returns nothing: its value is the state of the program.
module _ {ℓ} {A : Type ℓ} (call : ℕ → A → Option A × A) where
  -- The loop. The function that raised is named, with what it had changed by then.
  unfoldable pub run_funcs : List ℕ → A → Option ℕ × A
  run_funcs [] a = (none, a)
  run_funcs (func ∷ funcs) a =
      let (result, left) = call func a in
      elim result [ some b ↦ run_funcs funcs b | none ↦ (some func, left) ]

  -- `runHook` and `runFilter`: a function that raises is taken off the hook.
  unfoldable pub run_hook : Text → A → Hooks → Option ℕ × A × Hooks
  run_hook hook a hooks =
      let funcs = funcs_of hook hooks in
      let (raised, b) = run_funcs funcs a in
      elim raised [
        | none ↦ (none, b, hooks)
        | some func ↦ (some func, b, set_funcs hook (drop_func func funcs) hooks)
      ]
