-- ===== src/Hooks/Once.antt =====
-- A function is on a hook once, whatever is done to the hooks.
use anki.Prelude.{
  ℕ, false, Option, List, [], ◌∷◌, ◌++◌, ◌≡◌, refl, contains, IsDistinct, snoc-IsDistinct, ◌==◌,
  Bool-cases, Option-cases, inl, inr, arith,
}
use anki.Prelude.Text.{Text, same}
use anki.Hooks.{Hooks, funcs_of, set_funcs, drop_func, add_hook, rem_hook, run_funcs, run_hook}

-- What may happen to the hooks. A run may be of any functions on values of any type.
pub data Step : Hooks → Hooks → Type 1 where
  add : (hook : Text) (func : ℕ) (hooks : Hooks) → Step hooks (add_hook hook func hooks)
  rem : (hook : Text) (func : ℕ) (hooks : Hooks) → Step hooks (rem_hook hook func hooks)
  run :
      {A : Type 0} (call : ℕ → A → Option A × A) (hook : Text) (a : A) (hooks : Hooks)
      → Step hooks (run_hook call hook a hooks).2

pub data Reach : Hooks → Type 1 where
  start : Reach []
  next : {h k : Hooks} → Reach h → Step h k → Reach k

-- Each hook has each of its functions once.
abbrev pub AreOnce : Hooks → Type 0
AreOnce [] = Unit
AreOnce ((name, funcs) ∷ hooks) = IsDistinct funcs × AreOnce hooks

funcs_of-IsDistinct :
    (hook : Text) (hooks : Hooks) → AreOnce hooks → IsDistinct (funcs_of hook hooks)
unfolding funcs_of
funcs_of-IsDistinct hook [] h = tt
funcs_of-IsDistinct hook ((name, funcs) ∷ hooks) h = elim (Bool-cases (same name hook)) [
  | inl e ↦ rw (e, IsDistinct) h.0
  | inr e ↦ rw (e, IsDistinct) (funcs_of-IsDistinct hook hooks h.1)
]

set_funcs-AreOnce :
    (hook : Text) (funcs : List ℕ) (hooks : Hooks)
    → IsDistinct funcs
    → AreOnce hooks
    → AreOnce (set_funcs hook funcs hooks)
unfolding set_funcs
set_funcs-AreOnce hook funcs [] d h = (d, tt)
set_funcs-AreOnce hook funcs ((name, old) ∷ hooks) d h = elim (Bool-cases (same name hook)) [
  | inl e ↦ rw (e, AreOnce) (d, h.1)
  | inr e ↦ rw (e, AreOnce) (h.0, set_funcs-AreOnce hook funcs hooks d h.1)
]

drop_func-absent :
    (n func : ℕ) (funcs : List ℕ)
    → contains n funcs ≡ false
    → contains n (drop_func func funcs) ≡ false
unfolding drop_func
drop_func-absent n func [] h = refl
drop_func-absent n func (f ∷ funcs) h = ground (arith, h, drop_func-absent n func funcs)

drop_func-IsDistinct :
    (func : ℕ) (funcs : List ℕ) → IsDistinct funcs → IsDistinct (drop_func func funcs)
unfolding drop_func
drop_func-IsDistinct func [] d = tt
drop_func-IsDistinct func (f ∷ funcs) d = elim (Bool-cases (f == func)) [
  | inl e ↦ rw (e, IsDistinct) d.1
  | inr e ↦
      rw (e, IsDistinct) (drop_func-absent f func funcs d.0, drop_func-IsDistinct func funcs d.1)
]

Step-AreOnce : {h k : Hooks} → Step h k → AreOnce h → AreOnce k
unfolding add_hook rem_hook run_hook
Step-AreOnce (add hook func hooks) h =
    let funcs = funcs_of hook hooks in
    let d = funcs_of-IsDistinct hook hooks h in
    elim (Bool-cases (contains func funcs)) [
      | inl e ↦ rw (e, AreOnce) h
      | inr e ↦
          rw (e, AreOnce)
            (set_funcs-AreOnce hook (funcs ++ func ∷ []) hooks (snoc-IsDistinct func funcs e d) h)
    ]
Step-AreOnce (rem hook func hooks) h =
    let funcs = funcs_of hook hooks in
    let d = funcs_of-IsDistinct hook hooks h in
    elim (Bool-cases (contains func funcs)) [
      | inl e ↦
          rw (e, AreOnce)
            (set_funcs-AreOnce hook (drop_func func funcs) hooks (drop_func-IsDistinct func funcs d)
              h)
      | inr e ↦ rw (e, AreOnce) h
    ]
Step-AreOnce (run call hook a hooks) h =
    let funcs = funcs_of hook hooks in
    let d = funcs_of-IsDistinct hook hooks h in
    elim (Option-cases (run_funcs call funcs a).0) [
      | inl e ↦ rw (e, AreOnce) h
      | inr (func, e) ↦
          rw (e, AreOnce)
            (set_funcs-AreOnce hook (drop_func func funcs) hooks (drop_func-IsDistinct func funcs d)
              h)
    ]

-- From no hooks on, whatever functions are added, removed and run, and whichever of them raise, each
-- hook has each of its functions once.
pub Reach-AreOnce : (h : Hooks) → Reach h → AreOnce h
Reach-AreOnce h start = tt
Reach-AreOnce h (next r st) = Step-AreOnce st (Reach-AreOnce _ r)
