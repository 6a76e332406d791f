-- ===== src/Desktop/Addons/Conflicts/Returns.antt =====
-- Writing meta data returns where the directory is there, and so does switching an add-on.
use anki.Prelude.{
  Bool, true, false, not, Option, none, some, List, [], ◌∷◌, ◌++◌, ◌≡◌, refl, ap, subst, sym, ◌∙◌,
  Bool-cases, inl, inr, arith, All, All-append, IfSome, select, ◌&&◌, if◌then◌else◌,
}
use anki.Prelude.Text.{Text, same, same_refl, has_text}
use anki.Desktop.Addons.{
  JsonMeta, AddonMeta, Folder, addon_meta, from_json_meta, all_addons, package_names, write_json,
  write_addon_meta, addon_json, to_json_meta, get_or,
}
use anki.Desktop.Addons.Conflicts.{
  ConflictMap, conflicting_with, add_conflict, add_conflicts, collect_conflicts,
  all_addon_conflicts, update_set, disable, disable_each, find_conflicting, disable_conflicting,
  toggle_enabled,
}
use anki.Desktop.Addons.Conflicts.Off.{is_enabled, Changed, write_addon_meta-Changed}
use anki.Desktop.Addons.Conflicts.Install.{has_text-all_addons, same_sym}
use anki.Desktop.Addons.Conflicts.Load.{and_parts}

unfoldable pub has_dir : Text → Folder → Bool
has_dir name [] = false
has_dir name (d ∷ ds) = if same d.dir name then true else has_dir name ds

-- There is a result, with the same directories.
abbrev pub Returned : Folder → Option Folder → Type 0
Returned s out = (s' : Folder) × (out ≡ some s') × ((d : Text) → has_dir d s' ≡ has_dir d s)

pub write_json-Returned :
    (name : Text) (json : JsonMeta) (s : Folder)
    → has_dir name s ≡ true
    → Returned s (write_json name json s)
unfolding write_json has_dir
write_json-Returned name json [] h = absurd (cc h)
write_json-Returned name json (d ∷ ds) h = elim (Bool-cases (same d.dir name)) [
  | inl e ↦ (record d { json = json } ∷ ds, rw (e) refl, λ x. refl)
  | inr e ↦
      let (ds', f, k) = write_json-Returned name json ds (ground (arith, e, h)) in
      (d ∷ ds', rw (e, f) refl, λ x. ground (arith, k x))
]

write_addon_meta-Returned :
    (addon : AddonMeta) (s : Folder)
    → has_dir addon.dir_name s ≡ true
    → Returned s (write_addon_meta addon s)
unfolding write_addon_meta
write_addon_meta-Returned addon s h =
    write_json-Returned addon.dir_name (to_json_meta addon (addon_json addon.dir_name s)) s h

All-same :
    (names : List Text) (s s' : Folder)
    → ((d : Text) → has_dir d s' ≡ has_dir d s)
    → All (λ d. has_dir d s ≡ true) names
    → All (λ d. has_dir d s' ≡ true) names
All-same [] s s' k h = tt
All-same (name ∷ names) s s' k h = (k name ∙ h.0, All-same names s s' k h.1)

disable_each-Returned :
    (names : List Text) (s : Folder)
    → All (λ d. has_dir d s ≡ true) names
    → Returned s (disable_each names s)
unfolding disable_each disable addon_meta from_json_meta
disable_each-Returned [] s h = (s, refl, λ d. refl)
disable_each-Returned (name ∷ names) s h =
    let addon : AddonMeta = record (addon_meta name s) { enabled = false } in
    let (s', e, k) = write_addon_meta-Returned addon s h.0 in
    let (s'', f, l) = disable_each-Returned names s' (All-same names s s' k h.1) in
    (
      s'',
      ap (λ out. elim out [ none ↦ none | some x ↦ disable_each names x ]) e ∙ f,
      λ d. l d ∙ k d,
    )

abbrev AreThere : Folder → List Text → Type 0
AreThere s = All (λ d. has_dir d s ≡ true)

-- Every list of the dict is of add-ons with a directory.
abbrev MapIsThere : Folder → ConflictMap → Type 0
MapIsThere s [] = Unit
MapIsThere s ((key, dirs) ∷ all) = AreThere s dirs × MapIsThere s all

written-IsEnabled :
    (addon : AddonMeta) (s s' : Folder)
    → write_addon_meta addon s ≡ some s'
    → is_enabled addon.dir_name s' ≡ addon.enabled
written-IsEnabled addon s s' e =
    (subst (IfSome (Changed addon.dir_name addon.enabled addon.conflicts s)) e
      (write_addon_meta-Changed addon s)).1

package_names-has_dir :
    (s : Folder) (d : Text) → has_text d (package_names s) ≡ true → has_dir d s ≡ true
unfolding package_names has_dir has_text
package_names-has_dir [] d h = h
package_names-has_dir (e ∷ es) d h = elim (Bool-cases (same e.dir d)) [
  | inl k ↦ rw (k) refl
  | inr k ↦
      let h' : has_text d (package_names es) ≡ true = ground (arith, h, k, same_sym d e.dir) in
      rw (k) (package_names-has_dir es d h')
]

module _ (s : Folder) where
  conflicting_with-AreThere :
      (name : Text) (all : ConflictMap) → MapIsThere s all → AreThere s (conflicting_with name all)
  unfolding conflicting_with
  conflicting_with-AreThere name [] h = tt
  conflicting_with-AreThere name ((key, dirs) ∷ all) h = elim (Bool-cases (same key name)) [
    | inl e ↦ rw (e) h.0
    | inr e ↦ rw (e) (conflicting_with-AreThere name all h.1)
  ]

  add_conflict-IsThere :
      (other dir : Text) (all : ConflictMap)
      → has_dir dir s ≡ true
      → MapIsThere s all
      → MapIsThere s (add_conflict other dir all)
  unfolding add_conflict
  add_conflict-IsThere other dir [] k h = ((k, tt), tt)
  add_conflict-IsThere other dir ((key, dirs) ∷ all) k h = elim (Bool-cases (same key other)) [
    | inl e ↦ rw (e) (All-append (λ d. has_dir d s ≡ true) dirs (dir ∷ []) h.0 (k, tt), h.1)
    | inr e ↦ rw (e) (h.0, add_conflict-IsThere other dir all k h.1)
  ]

  add_conflicts-IsThere :
      (dir : Text) (others : List Text) (all : ConflictMap)
      → has_dir dir s ≡ true
      → MapIsThere s all
      → MapIsThere s (add_conflicts dir others all)
  unfolding add_conflicts
  add_conflicts-IsThere dir [] all k h = h
  add_conflicts-IsThere dir (other ∷ others) all k h =
      add_conflicts-IsThere dir others (add_conflict other dir all) k
        (add_conflict-IsThere other dir all k h)

  collect_conflicts-IsThere :
      (dirs : List Text) (all : ConflictMap)
      → AreThere s dirs
      → MapIsThere s all
      → MapIsThere s (collect_conflicts s dirs all)
  unfolding collect_conflicts
  collect_conflicts-IsThere [] all k h = h
  collect_conflicts-IsThere (dir ∷ dirs) all k h = elim (Bool-cases (is_enabled dir s)) [
    | inl e ↦ rw (e) (collect_conflicts-IsThere dirs _ k.1 (add_conflicts-IsThere dir _ all k.0 h))
    | inr e ↦ rw (e) (collect_conflicts-IsThere dirs all k.1 h)
  ]

  update_set-AreThere :
      (found ts : List Text) → AreThere s found → AreThere s ts → AreThere s (update_set found ts)
  unfolding update_set
  update_set-AreThere found [] h k = h
  update_set-AreThere found (t ∷ ts) h k = elim (Bool-cases (has_text t found)) [
    | inl e ↦ rw (e) (update_set-AreThere found ts h k.1)
    | inr e ↦
        let grown = All-append (λ d. has_dir d s ≡ true) found (t ∷ []) h (k.0, tt) in
        rw (e) (update_set-AreThere (found ++ t ∷ []) ts grown k.1)
  ]

  select-AreThere :
      (p : Text → Bool) (xs : List Text)
      → ((d : Text) → p d ≡ true → has_dir d s ≡ true)
      → AreThere s (select p xs)
  select-AreThere p [] h = tt
  select-AreThere p (x ∷ xs) h = elim (Bool-cases (p x)) [
    | inl e ↦ rw (select, e) (h x e, select-AreThere p xs h)
    | inr e ↦ rw (select, e) (select-AreThere p xs h)
  ]

  All-of :
      (P : Text → Type 0) (xs : List Text) → ((d : Text) → has_text d xs ≡ true → P d) → All P xs
  unfolding has_text
  All-of P [] h = tt
  All-of P (x ∷ xs) h = (h x (rw (same_refl x) refl), All-of P xs (λ d k. h d (ground (arith, k))))

  module _ (reversed : Bool) where
    installed-has_dir : (d : Text) → has_text d (all_addons reversed s) ≡ true → has_dir d s ≡ true
    installed-has_dir d h = package_names-has_dir s d (sym (has_text-all_addons reversed d s) ∙ h)

    find_conflicting-AreThere :
        (name : Text) (given : List Text) → AreThere s (find_conflicting reversed name given s)
    unfolding find_conflicting all_addon_conflicts
    find_conflicting-AreThere name given =
        let installed = all_addons reversed s in
        let dict =
          collect_conflicts-IsThere installed []
            (All-of (λ d. has_dir d s ≡ true) installed installed-has_dir) tt in
        let select_there =
          select-AreThere (λ d. has_text d installed && is_enabled d s) _
            (λ d h. installed-has_dir d (and_parts (has_text d installed) (is_enabled d s) h).0) in
        update_set-AreThere _ _ (update_set-AreThere [] _ tt select_there)
          (conflicting_with-AreThere name _ dict)

    -- Switching an add-on that has a directory returns, and then the add-on is on or off as it was
    -- asked to be, or the other way round than before if nothing was asked.
    pub toggle_enabled-returns :
        (name : Text) (enable : Option Bool)
        → has_dir name s ≡ true
        → (out : List Text × Folder) × (toggle_enabled reversed name enable s ≡ some out)
          × (is_enabled name out.1 ≡ get_or (not (is_enabled name s)) enable)
    unfolding toggle_enabled disable_conflicting addon_meta from_json_meta
    toggle_enabled-returns name enable h =
        let addon = addon_meta name s in
        let should = get_or (not addon.enabled) enable in
        let addon' : AddonMeta = record addon { enabled = should } in
        let with_found : List Text → Option Folder → Option (List Text × Folder) =
          λ found o. elim o [ none ↦ none | some x ↦ some (found, x) ] in
        let finish : Option (List Text × Folder) → Option (List Text × Folder) = λ o. elim o [
          | none ↦ none
          | some (found, x) ↦ with_found found (write_addon_meta addon' x)
        ] in
        let before : Bool → Option (List Text × Folder) =
          λ b. if b then disable_conflicting reversed name [] s else some ([], s) in
        elim (Bool-cases should) [
          | inl on ↦
              let found = find_conflicting reversed name [] s in
              let (s', e, k) = disable_each-Returned found s (find_conflicting-AreThere name []) in
              let (s'', f, l) = write_addon_meta-Returned addon' s' (k name ∙ h) in
              (
                (found, s''),
                ap (λ b. finish (before b)) on
                    ∙ ap (λ o. finish (with_found found o)) e
                    ∙ ap (with_found found) f,
                written-IsEnabled addon' s' s'' f,
              )
          | inr off ↦
              let (s', f, l) = write_addon_meta-Returned addon' s h in
              (
                ([], s'),
                ap (λ b. finish (before b)) off ∙ ap (with_found []) f,
                written-IsEnabled addon' s s' f,
              )
        ]
