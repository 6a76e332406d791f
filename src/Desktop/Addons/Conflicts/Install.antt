-- ===== src/Desktop/Addons/Conflicts/Install.antt =====
-- An installation leaves the add-ons that are on free of conflicts.
use anki.Prelude.{
  ℕ, Bool, true, false, Option, none, some, List, [], ◌∷◌, ◌++◌, ◌≡◌, refl, ap, subst, sym, ◌∙◌,
  Bool-cases, Option-cases, IfSome, inl, inr, arith, reverse, non_empty, if◌then◌else◌,
}
use mathlib.Core.List.{reverse-cons}
use anki.Prelude.Text.{Text, same, same_iff, has_text}
use anki.Desktop.Addons.{
  JsonMeta, Folder, addon_meta, addon_json, all_addons, package_names, write_json, get_or, or_else,
  from_json_meta, insert_text, sort_texts,
}
use anki.Desktop.Addons.Conflicts.{
  find_conflicting, disable_conflicting, disable_each, Manifest, update_json, unpack, Archive,
  PathEnv, InstallResult, package_name_valid, install_package, install,
}
use anki.Desktop.Addons.Conflicts.Off.{
  conflicts_of, TurnedOff, Wrote, write_json-Wrote, disable_each-TurnedOff,
}
use anki.Desktop.Addons.Conflicts.Found.{IsIn}
use anki.Desktop.Addons.Conflicts.Apart.{AreApart, counting, Settled-AreApart}

has_text-insert :
    (d t : Text) (ts : List Text) → has_text d (insert_text t ts) ≡ has_text d (t ∷ ts)
unfolding has_text insert_text
has_text-insert d t [] = refl
has_text-insert d t (u ∷ us) = ground (arith, has_text-insert d t us)

has_text-sort : (d : Text) (ts : List Text) → has_text d (sort_texts ts) ≡ has_text d ts
unfolding sort_texts has_text
has_text-sort d [] = refl
has_text-sort d (t ∷ ts) = ground (arith, has_text-insert d t (sort_texts ts), has_text-sort d ts)

has_text-snoc : (d t : Text) (ts : List Text) → has_text d (ts ++ t ∷ []) ≡ has_text d (t ∷ ts)
unfolding has_text
has_text-snoc d t [] = refl
has_text-snoc d t (u ∷ us) = ground (arith, has_text-snoc d t us)

has_text-reverse : (d : Text) (ts : List Text) → has_text d (reverse ts) ≡ has_text d ts
unfolding has_text
has_text-reverse d [] = refl
has_text-reverse d (t ∷ ts) =
    ap (has_text d) (reverse-cons t ts)
    ∙ has_text-snoc d t (reverse ts)
    ∙ ground (arith, has_text-reverse d ts)

pub has_text-all_addons :
    (reversed : Bool) (d : Text) (s : Folder)
    → has_text d (all_addons reversed s) ≡ has_text d (package_names s)
unfolding all_addons
has_text-all_addons true d s =
    has_text-reverse d (sort_texts (package_names s)) ∙ has_text-sort d (package_names s)
has_text-all_addons false d s = has_text-sort d (package_names s)

pub same_sym : (a b : Text) → same a b ≡ same b a
unfolding same
same_sym [] [] = refl
same_sym [] (y ∷ b) = refl
same_sym (x ∷ a) [] = refl
same_sym (x ∷ a) (y ∷ b) = ground (arith, same_sym a b)

-- Unpacking a package leaves the other directories alone.
module _ (deletable : Bool) (name : Text) (has_init : Bool) (json : JsonMeta) where
  unpack-names :
      (d : Text) (s : Folder)
      → same name d ≡ false
      → has_text d (package_names (unpack deletable name has_init json s))
        ≡ has_text d (package_names s)
  unfolding unpack package_names has_text
  unpack-names d [] h = ground (arith, h, same_sym name d)
  unpack-names d (e ∷ es) h = elim (Bool-cases (same e.dir name)) [
    | inl k ↦
        let other : same d e.dir ≡ false =
          ap (same d) ((same_iff e.dir name).0 k) ∙ sym (same_sym name d) ∙ h in
        ground (arith, k, other)
    | inr k ↦ ground (arith, k, unpack-names d es h)
  ]

  unpack-json :
      (d : Text) (s : Folder)
      → same name d ≡ false
      → addon_json d (unpack deletable name has_init json s) ≡ addon_json d s
  unfolding unpack addon_json
  unpack-json d [] h = rw (h) refl
  unpack-json d (e ∷ es) h = elim (Bool-cases (same e.dir name)) [
    | inl k ↦
        let other : same e.dir d ≡ false = ap (λ x. same x d) ((same_iff e.dir name).0 k) ∙ h in
        ground (arith, k, other)
    | inr k ↦ ground (arith, k, unpack-json d es h)
  ]

-- The list that a package has after its installation is the one that counted.
or_else-counting :
    (given old : Option (List Text)) (stored : List Text) (d : Text)
    → get_or [] old ≡ stored
    → IsIn d (get_or [] (or_else given old))
    → IsIn d (if non_empty (get_or [] given) then get_or [] given else stored)
unfolding has_text
or_else-counting none old stored d e h = subst (IsIn d) e h
or_else-counting (some []) old stored d e h = absurd (cc h)
or_else-counting (some (c ∷ cs)) old stored d e h = h

module _ (reversed : Bool) (current : ℕ) (env : PathEnv) where
  abbrev pub After : InstallResult × Folder → Type 0
  After out = AreApart reversed out.1

  written-AreApart :
      (zfile : Archive) (manifest : Manifest) (s s' : Folder)
      → AreApart reversed s
      → TurnedOff
          (find_conflicting reversed manifest.package_name (get_or [] manifest.conflicts) s)
          s
          s'
      → IfSome (AreApart reversed) (
          write_json manifest.package_name
            (update_json manifest (addon_json manifest.package_name s'))
            (unpack zfile.deletable manifest.package_name zfile.has_init zfile.json s'))
  unfolding update_json addon_meta from_json_meta
  written-AreApart zfile manifest s s' apart off =
      let name = manifest.package_name in
      let given = get_or [] manifest.conflicts in
      let meta = update_json manifest (addon_json name s') in
      let u = unpack zfile.deletable name zfile.has_init zfile.json s' in
      elim (Option-cases (write_json name meta u)) [
        | inl e ↦ rw (e, IfSome) tt
        | inr (s'', e) ↦
            let w = subst (IfSome (Wrote name meta u)) e (write_json-Wrote name meta u) in
            let there : (d : Text)
                → same name d ≡ false
                → IsIn d (all_addons reversed s'')
                → IsIn d (all_addons reversed s) =
              λ d n h.
                has_text-all_addons reversed d s
                ∙ ap (has_text d) (sym off.0)
                ∙ sym (unpack-names zfile.deletable name zfile.has_init zfile.json d s' n)
                ∙ ap (has_text d) (sym w.2)
                ∙ sym (has_text-all_addons reversed d s'')
                ∙ h in
            let kept : (d : Text) → same name d ≡ false → addon_meta d s'' ≡ addon_meta d s' =
              λ d n.
                ap (from_json_meta d)
                  (w.1 d n ∙ unpack-json zfile.deletable name zfile.has_init zfile.json d s' n) in
            let listed : (d : Text)
                → IsIn d (conflicts_of name s'')
                → IsIn d (counting reversed name given s) =
              λ d h.
                or_else-counting manifest.conflicts (addon_json name s').conflicts
                  (conflicts_of name s) d (off.1 name)
                  (subst (λ j. IsIn d (get_or [] j.conflicts)) w.0 h) in
            rw (e, IfSome)
              (Settled-AreApart reversed name given s s' s'' (off, there, kept, listed) apart)
      ]

  install_package-AreApart :
      (zfile : Archive) (manifest : Manifest) (s : Folder)
      → AreApart reversed s
      → IfSome After (install_package reversed current env zfile manifest s)
  unfolding install_package disable_conflicting
  install_package-AreApart zfile manifest s apart =
      let name = manifest.package_name in
      let found = find_conflicting reversed name (get_or [] manifest.conflicts) s in
      elim (Option-cases (disable_each found s)) [
        | inl e ↦ rw (e, IfSome) tt
        | inr (s', e) ↦
            let off = subst (IfSome (TurnedOff found s)) e (disable_each-TurnedOff found s) in
            let meta = update_json manifest (addon_json name s') in
            let u = unpack zfile.deletable name zfile.has_init zfile.json s' in
            let done = written-AreApart zfile manifest s s' apart off in
            elim (Option-cases (write_json name meta u)) [
              | inl f ↦ rw (e, f, IfSome) tt
              | inr (s'', f) ↦ rw (e, f, IfSome) (subst (IfSome (AreApart reversed)) f done)
            ]
      ]

  pub install-AreApart :
      (zfile : Archive) (given : Option Manifest) (s : Folder)
      → AreApart reversed s
      → IfSome After (install reversed current env zfile given s)
  unfolding install
  install-AreApart zfile given s apart = elim (Bool-cases zfile.is_zip) [
    | inr e ↦ rw (e, IfSome) apart
    | inl e ↦ elim (Option-cases given) [
      | inl f ↦ rw (e, f, IfSome) apart
      | inr (manifest, f) ↦ elim (Bool-cases (package_name_valid env manifest.package_name)) [
        | inr g ↦ rw (e, f, g, IfSome) apart
        | inl g ↦ rw (e, f, g, IfSome) (install_package-AreApart zfile manifest s apart)
      ]
    ]
  ]
