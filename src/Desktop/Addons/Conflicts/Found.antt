-- ===== src/Desktop/Addons/Conflicts/Found.antt =====
-- What `_disableConflicting` finds: the add-ons on the list, and those that list the add-on.
use anki.Prelude.{
  Bool, true, false, ◌&&◌, List, [], ◌∷◌, ◌++◌, ◌≡◌, refl, subst, sym, select, Bool-cases, inl, inr,
  arith, non_empty, if◌then◌else◌,
}
use anki.Prelude.Text.{Text, same, same_iff, same_refl, has_text}
use anki.Desktop.Addons.{Folder, all_addons}
use anki.Desktop.Addons.Conflicts.{
  ConflictMap, conflicting_with, add_conflict, add_conflicts, collect_conflicts,
  all_addon_conflicts, update_set, find_conflicting,
}
use anki.Desktop.Addons.Conflicts.Off.{is_enabled, conflicts_of}

abbrev pub IsIn : Text → List Text → Type 0
IsIn d xs = has_text d xs ≡ true

IsIn-here : (d : Text) (xs : List Text) → IsIn d (d ∷ xs)
unfolding has_text
IsIn-here d xs = rw (same_refl d) refl

IsIn-left : (d : Text) (xs ys : List Text) → IsIn d xs → IsIn d (xs ++ ys)
unfolding has_text
IsIn-left d [] ys h = absurd (cc h)
IsIn-left d (x ∷ xs) ys h = ground (arith, h, IsIn-left d xs ys)

IsIn-right : (d : Text) (xs ys : List Text) → IsIn d ys → IsIn d (xs ++ ys)
unfolding has_text
IsIn-right d [] ys h = h
IsIn-right d (x ∷ xs) ys h = ground (arith, IsIn-right d xs ys h)

update_set-keeps : (d : Text) (found ts : List Text) → IsIn d found → IsIn d (update_set found ts)
unfolding update_set
update_set-keeps d found [] h = h
update_set-keeps d found (t ∷ ts) h = elim (Bool-cases (has_text t found)) [
  | inl e ↦ rw (e) (update_set-keeps d found ts h)
  | inr e ↦ rw (e) (update_set-keeps d (found ++ t ∷ []) ts (IsIn-left d found (t ∷ []) h))
]

update_set-adds : (d : Text) (found ts : List Text) → IsIn d ts → IsIn d (update_set found ts)
unfolding update_set has_text
update_set-adds d found [] h = absurd (cc h)
update_set-adds d found (t ∷ ts) h = elim (Bool-cases (same d t)) [
  | inl e ↦
      let eq = (same_iff d t).0 e in
      elim (Bool-cases (has_text t found)) [
        | inl f ↦ rw (f) (update_set-keeps d found ts (rw (eq) f))
        | inr f ↦
            rw (f)
              (update_set-keeps d (found ++ t ∷ []) ts (IsIn-right d found (t ∷ []) (rw (e) refl)))
      ]
  | inr e ↦
      update_set-adds d (if has_text t found then found else found ++ t ∷ []) ts
        (ground (arith, e, h))
]

IsIn-select :
    (d : Text) (p : Text → Bool) (xs : List Text) → IsIn d xs → p d ≡ true → IsIn d (select p xs)
unfolding has_text
IsIn-select d p [] h k = absurd (cc h)
IsIn-select d p (x ∷ xs) h k = elim (Bool-cases (same d x)) [
  | inl e ↦ let k' = subst (λ y. p y ≡ true) ((same_iff d x).0 e) k in ground (arith, k', e)
  | inr e ↦ let rest = IsIn-select d p xs (ground (arith, e, h)) k in ground (arith, rest)
]

has_text_nil : (d : Text) → has_text d [] ≡ false
unfolding has_text
has_text_nil d = refl

add_conflict-adds :
    (other dir : Text) (all : ConflictMap)
    → IsIn dir (conflicting_with other (add_conflict other dir all))
unfolding conflicting_with add_conflict
add_conflict-adds other dir [] = rw (same_refl other) (IsIn-here dir [])
add_conflict-adds other dir ((key, dirs) ∷ all) = elim (Bool-cases (same key other)) [
  | inl e ↦ ground (arith, e, IsIn-right dir dirs (dir ∷ []) (IsIn-here dir []))
  | inr e ↦ ground (arith, e, add_conflict-adds other dir all)
]

add_conflict-keeps :
    (d name other dir : Text) (all : ConflictMap)
    → IsIn d (conflicting_with name all)
    → IsIn d (conflicting_with name (add_conflict other dir all))
unfolding conflicting_with add_conflict
add_conflict-keeps d name other dir [] h = absurd (cc (h, has_text_nil d))
add_conflict-keeps d name other dir ((key, dirs) ∷ all) h = elim (Bool-cases (same key name)) [
  | inl f ↦
      let h' : IsIn d dirs = ground (arith, h, f) in
      ground (arith, f, h', IsIn-left d dirs (dir ∷ []) h')
  | inr f ↦
      let h' : IsIn d (conflicting_with name all) = ground (arith, h, f) in
      ground (arith, f, h', add_conflict-keeps d name other dir all h')
]

add_conflicts-keeps :
    (d name dir : Text) (others : List Text) (all : ConflictMap)
    → IsIn d (conflicting_with name all)
    → IsIn d (conflicting_with name (add_conflicts dir others all))
unfolding add_conflicts
add_conflicts-keeps d name dir [] all h = h
add_conflicts-keeps d name dir (other ∷ others) all h =
    add_conflicts-keeps d name dir others (add_conflict other dir all)
      (add_conflict-keeps d name other dir all h)

add_conflicts-adds :
    (name dir : Text) (others : List Text) (all : ConflictMap)
    → IsIn name others
    → IsIn dir (conflicting_with name (add_conflicts dir others all))
unfolding add_conflicts has_text
add_conflicts-adds name dir [] all h = absurd (cc h)
add_conflicts-adds name dir (other ∷ others) all h = elim (Bool-cases (same name other)) [
  | inl e ↦
      let added = add_conflict other dir all in
      let here =
        subst (λ n. IsIn dir (conflicting_with n added)) (sym ((same_iff name other).0 e))
          (add_conflict-adds other dir all) in
      add_conflicts-keeps dir name dir others added here
  | inr e ↦ add_conflicts-adds name dir others (add_conflict other dir all) (ground (arith, e, h))
]

module _ (s : Folder) where
  collect_conflicts-keeps :
      (d name : Text) (dirs : List Text) (all : ConflictMap)
      → IsIn d (conflicting_with name all)
      → IsIn d (conflicting_with name (collect_conflicts s dirs all))
  unfolding collect_conflicts
  collect_conflicts-keeps d name [] all h = h
  collect_conflicts-keeps d name (dir ∷ dirs) all h = elim (Bool-cases (is_enabled dir s)) [
    | inl e ↦
        let added = add_conflicts-keeps d name dir (conflicts_of dir s) all h in
        rw (e)
          (collect_conflicts-keeps d name dirs (add_conflicts dir (conflicts_of dir s) all) added)
    | inr e ↦ rw (e) (collect_conflicts-keeps d name dirs all h)
  ]

  collect_conflicts-adds :
      (d name : Text) (dirs : List Text) (all : ConflictMap)
      → IsIn d dirs
      → is_enabled d s ≡ true
      → IsIn name (conflicts_of d s)
      → IsIn d (conflicting_with name (collect_conflicts s dirs all))
  unfolding collect_conflicts has_text
  collect_conflicts-adds d name [] all h k l = absurd (cc h)
  collect_conflicts-adds d name (dir ∷ dirs) all h k l = elim (Bool-cases (same d dir)) [
    | inl e ↦
        let eq = (same_iff d dir).0 e in
        let k' = subst (λ x. is_enabled x s ≡ true) eq k in
        let l' = subst (λ x. IsIn name (conflicts_of x s)) eq l in
        let added =
          subst (λ x. IsIn x (conflicting_with name (add_conflicts dir (conflicts_of dir s) all)))
            (sym eq) (add_conflicts-adds name dir (conflicts_of dir s) all l') in
        rw (k')
          (collect_conflicts-keeps d name dirs (add_conflicts dir (conflicts_of dir s) all) added)
    | inr e ↦
        let h' : IsIn d dirs = ground (arith, h, e) in
        elim (Bool-cases (is_enabled dir s)) [
          | inl f ↦ rw (f) (
              collect_conflicts-adds d name dirs (add_conflicts dir (conflicts_of dir s) all) h' k
                l)
          | inr f ↦ rw (f) (collect_conflicts-adds d name dirs all h' k l)
        ]
  ]

  module _ (reversed : Bool) where
    -- An add-on that is on and lists the name is found.
    pub find_conflicting-listing :
        (d name : Text) (given : List Text)
        → IsIn d (all_addons reversed s)
        → is_enabled d s ≡ true
        → IsIn name (conflicts_of d s)
        → IsIn d (find_conflicting reversed name given s)
    unfolding find_conflicting all_addon_conflicts
    find_conflicting-listing d name given h k l =
        update_set-adds d _ _ (collect_conflicts-adds d name (all_addons reversed s) [] h k l)

    -- An add-on that is on is found if it is on the list that counts.
    pub find_conflicting-listed :
        (d name : Text) (given : List Text)
        → IsIn d (all_addons reversed s)
        → is_enabled d s ≡ true
        → IsIn d (if non_empty given then given else conflicts_of name s)
        → IsIn d (find_conflicting reversed name given s)
    unfolding find_conflicting
    find_conflicting-listed d name given h k l =
        let p : Text → Bool = λ x. has_text x (all_addons reversed s) && is_enabled x s in
        let conflicts = if non_empty given then given else conflicts_of name s in
        update_set-keeps d _ _
          (update_set-adds d [] (select p conflicts) (IsIn-select d p conflicts l (rw (h, k) refl)))
