-- ===== src/Desktop/Addons/Conflicts/Load.antt =====
-- Add-ons that are installed and switched, one after the other, and then loaded.
use anki.Prelude.{
  ℕ, Bool, true, false, Option, some, List, [], ◌∷◌, ◌≡◌, refl, sym, subst, ◌&&◌, Bool-cases,
  IfSome, inl, inr, arith, select,
}
use anki.Prelude.Text.{Text, same, same_iff, has_text}
use anki.Desktop.Addons.{Folder, addon_meta, all_addons, compatible, load_addons}
use anki.Desktop.Addons.Conflicts.{
  toggle_enabled, Manifest, Archive, PathEnv, InstallResult, install,
}
use anki.Desktop.Addons.Conflicts.Off.{is_enabled, conflicts_of}
use anki.Desktop.Addons.Conflicts.Found.{IsIn}
use anki.Desktop.Addons.Conflicts.Apart.{IsOn, AreApart, toggle_enabled-AreApart}
use anki.Desktop.Addons.Conflicts.Install.{After, install-AreApart}

pub and_parts : (a b : Bool) → (a && b) ≡ true → (a ≡ true) × (b ≡ true)
and_parts a b h = ground (arith, h)

IsIn-selected :
    (d : Text) (p : Text → Bool) (xs : List Text) → IsIn d (select p xs) → IsIn d xs × (p d ≡ true)
unfolding has_text
IsIn-selected d p [] h = absurd (cc h)
IsIn-selected d p (x ∷ xs) h = elim (Bool-cases (same d x)) [
  | inl e ↦ elim (Bool-cases (p x)) [
    | inl f ↦ (rw (e) refl, subst (λ y. p y ≡ true) (sym ((same_iff d x).0 e)) f)
    | inr f ↦ let rest = IsIn-selected d p xs (ground (arith, f, h)) in (rw (e) refl, rest.1)
  ]
  | inr e ↦ let rest = IsIn-selected d p xs (ground (arith, e, h)) in (rw (e) rest.0, rest.1)
]

module _ (reversed : Bool) (current : ℕ) (env : PathEnv) where
  -- What may happen to the folder.
  pub data Step : Folder → Folder → Type 0 where
    toggled :
        {s s' : Folder} (name : Text) (enable : Option Bool) (found : List Text)
        → toggle_enabled reversed name enable s ≡ some (found, s')
        → Step s s'
    installed :
        {s s' : Folder} (zfile : Archive) (given : Option Manifest) (result : InstallResult)
        → install reversed current env zfile given s ≡ some (result, s')
        → Step s s'

  pub data Steps : Folder → Folder → Type 0 where
    stay : {s : Folder} → Steps s s
    step : {s s' s'' : Folder} → Steps s s' → Step s' s'' → Steps s s''

  Step-AreApart : (s s' : Folder) → Step s s' → AreApart reversed s → AreApart reversed s'
  Step-AreApart s s' (toggled name enable found e) apart =
      subst (IfSome (λ out. AreApart reversed out.1)) e
        (toggle_enabled-AreApart reversed name enable s apart)
  Step-AreApart s s' (installed zfile given result e) apart =
      subst (IfSome (After reversed current env)) e
        (install-AreApart reversed current env zfile given s apart)

  Steps-AreApart : (s s' : Folder) → Steps s s' → AreApart reversed s → AreApart reversed s'
  Steps-AreApart s _ stay apart = apart
  Steps-AreApart s s'' (step steps st) apart =
      Step-AreApart _ s'' st (Steps-AreApart s _ steps apart)

  load_addons-IsOn :
      (d : Text) (s : Folder) → IsIn d (load_addons reversed current s) → IsOn reversed d s
  unfolding load_addons
  load_addons-IsOn d s h =
      let p : Text → Bool = λ x. is_enabled x s && compatible current (addon_meta x s) in
      let parts = IsIn-selected d p (all_addons reversed s) h in
      (parts.0, (and_parts (is_enabled d s) (compatible current (addon_meta d s)) parts.1).0)

  -- If the add-ons that are on do not conflict, then whatever is installed or switched after that,
  -- errors included, no loaded add-on lists another loaded one as a conflict.
  pub load_addons-AreApart :
      (s s' : Folder)
      → AreApart reversed s
      → Steps s s'
      → (a b : Text) → IsIn a (load_addons reversed current s')
      → IsIn b (load_addons reversed current s')
      → same a b ≡ false
      → has_text b (conflicts_of a s') ≡ false
  load_addons-AreApart s s' apart steps a b ha hb n =
      Steps-AreApart s s' steps apart a b (load_addons-IsOn a s' ha) (load_addons-IsOn b s' hb) n
