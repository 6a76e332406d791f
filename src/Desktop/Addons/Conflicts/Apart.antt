-- ===== src/Desktop/Addons/Conflicts/Apart.antt =====
-- No two add-ons that are on conflict: what turning on and installing do to that.
use anki.Prelude.{
  Bool, true, false, not, Option, none, some, List, [], ◌∷◌, ◌≡◌, refl, ap, subst, sym, ◌∙◌,
  Bool-cases, Option-cases, IfSome, inl, inr, non_empty, if◌then◌else◌,
}
use anki.Prelude.Text.{Text, same, same_iff, has_text}
use anki.Desktop.Addons.{
  AddonMeta, Folder, addon_meta, all_addons, package_names, write_addon_meta, get_or,
  from_json_meta,
}
use anki.Desktop.Addons.Conflicts.{
  find_conflicting, disable_conflicting, disable_each, toggle_enabled, disable,
}
use anki.Desktop.Addons.Conflicts.Off.{
  is_enabled, conflicts_of, TurnedOff, Changed, disable-TurnedOff, disable_each-TurnedOff,
  write_addon_meta-Changed,
}
use anki.Desktop.Addons.Conflicts.Found.{IsIn, find_conflicting-listing, find_conflicting-listed}

module _ (reversed : Bool) where
  -- An add-on that is there and on.
  abbrev pub IsOn : Text → Folder → Type 0
  IsOn d s = IsIn d (all_addons reversed s) × (is_enabled d s ≡ true)

  abbrev pub AreApart : Folder → Type 0
  AreApart s =
      (a b : Text) → IsOn a s → IsOn b s → same a b ≡ false → has_text b (conflicts_of a s) ≡ false

  abbrev pub counting : Text → List Text → Folder → List Text
  counting name given s = if non_empty given then given else conflicts_of name s

  -- What is found was turned off, and then the add-on itself was changed.
  abbrev pub Settled : Text → List Text → Folder → Folder → Folder → Type 0
  Settled name given s s' s'' =
      TurnedOff (find_conflicting reversed name given s) s s'
      × ((d : Text)
          → same name d ≡ false
          → IsIn d (all_addons reversed s'')
          → IsIn d (all_addons reversed s))
      × ((d : Text) → same name d ≡ false → addon_meta d s'' ≡ addon_meta d s')
      × ((d : Text) → IsIn d (conflicts_of name s'') → IsIn d (counting name given s))

  Settled-IsOn :
      (name : Text) (given : List Text) (s s' s'' : Folder)
      → Settled name given s s' s''
      → (d : Text) → same name d ≡ false
      → IsOn d s''
      → IsOn d s × (has_text d (find_conflicting reversed name given s) ≡ false)
  Settled-IsOn name given s s' s'' w d n h =
      let on : is_enabled d s' ≡ true = sym (ap (λ m. m.enabled) (w.2 d n)) ∙ h.1 in
      let found = find_conflicting reversed name given s in
      (
        (w.1 d n h.0, w.0.2 d on),
        elim (Bool-cases (has_text d found)) [ inl e ↦ absurd (cc (on, w.0.3 d e)) | inr e ↦ e ],
      )

  pub Settled-AreApart :
      (name : Text) (given : List Text) (s s' s'' : Folder)
      → Settled name given s s' s''
      → AreApart s
      → AreApart s''
  Settled-AreApart name given s s' s'' w apart a b ha hb n =
      elim (Bool-cases (has_text b (conflicts_of a s''))) [
        | inr e ↦ e
        | inl l ↦ elim (Bool-cases (same name a)) [
          | inl e ↦
              let eq = (same_iff name a).0 e in
              let nb = subst (λ x. same x b ≡ false) (sym eq) n in
              let b_on = Settled-IsOn name given s s' s'' w b nb hb in
              let listed = w.3 b (subst (λ x. IsIn b (conflicts_of x s'')) (sym eq) l) in
              let found =
                find_conflicting-listed s reversed b name given b_on.0.0 b_on.0.1 listed in
              absurd (cc (found, b_on.1))
          | inr e ↦
              let a_on = Settled-IsOn name given s s' s'' w a e ha in
              let same_list = ap (λ m. m.conflicts) (w.2 a e) ∙ w.0.1 a in
              let l' = subst (IsIn b) same_list l in
              elim (Bool-cases (same name b)) [
                | inl f ↦
                    let l'' =
                      subst (λ x. IsIn x (conflicts_of a s)) (sym ((same_iff name b).0 f)) l' in
                    let found =
                      find_conflicting-listing s reversed a name given a_on.0.0 a_on.0.1 l'' in
                    absurd (cc (found, a_on.1))
                | inr f ↦
                    let b_on = Settled-IsOn name given s s' s'' w b f hb in
                    absurd (cc (l', apart a b a_on.0 b_on.0 n))
              ]
        ]
      ]

  same_packages :
      (s s' : Folder)
      → package_names s' ≡ package_names s
      → all_addons reversed s' ≡ all_addons reversed s
  unfolding all_addons
  same_packages s s' h = rw (h) refl

  TurnedOff-AreApart :
      (names : List Text) (s s' : Folder) → TurnedOff names s s' → AreApart s → AreApart s'
  TurnedOff-AreApart names s s' w apart a b ha hb n =
      let e = same_packages s s' w.0 in
      rw (w.1 a)
        (apart a b (subst (IsIn a) e ha.0, w.2 a ha.1) (subst (IsIn b) e hb.0, w.2 b hb.1) n)

  write-Settled :
      (addon : AddonMeta) (s s' : Folder)
      → AreApart s
      → addon.conflicts ≡ conflicts_of addon.dir_name s
      → TurnedOff (find_conflicting reversed addon.dir_name [] s) s s'
      → IfSome AreApart (write_addon_meta addon s')
  write-Settled addon s s' apart e off = elim (Option-cases (write_addon_meta addon s')) [
    | inl f ↦ rw (f, IfSome) tt
    | inr (s'', f) ↦
        let name = addon.dir_name in
        let changed = Changed name addon.enabled addon.conflicts s' in
        let w = subst (IfSome changed) f (write_addon_meta-Changed addon s') in
        let names = same_packages s s'' (w.0 ∙ off.0) in
        rw (f, IfSome)
          (Settled-AreApart name [] s s' s''
            (off, (λ d n h. subst (IsIn d) names h), w.3, (λ d h. subst (IsIn d) (w.2 ∙ e) h))
            apart)
  ]

  abbrev After : List Text × Folder → Type 0
  After out = AreApart out.1

  with_found :
      (written : Option Folder) (found : List Text)
      → IfSome AreApart written
      → IfSome After (elim written [ none ↦ none | some s ↦ some (found, s) ])
  with_found none found h = tt
  with_found (some s) found h = h

  disable-AreApart : (name : Text) (s : Folder) → AreApart s → IfSome AreApart (disable name s)
  disable-AreApart name s apart = elim (Option-cases (disable name s)) [
    | inl e ↦ rw (e, IfSome) tt
    | inr (s', e) ↦
        let w = subst (IfSome (TurnedOff (name ∷ []) s)) e (disable-TurnedOff name s) in
        rw (e, IfSome) (TurnedOff-AreApart (name ∷ []) s s' w apart)
  ]

  -- However an add-on is switched, the add-ons that are on stay free of conflicts.
  pub toggle_enabled-AreApart :
      (name : Text) (enable : Option Bool) (s : Folder)
      → AreApart s
      → IfSome After (toggle_enabled reversed name enable s)
  unfolding toggle_enabled disable_conflicting disable addon_meta from_json_meta
  toggle_enabled-AreApart name enable s apart =
      let addon = addon_meta name s in
      let should = get_or (not addon.enabled) enable in
      let switched : Bool → AddonMeta = λ b. record addon { enabled = b } in
      let addon' = switched should in
      elim (Bool-cases should) [
        | inl h ↦
            let found = find_conflicting reversed name [] s in
            elim (Option-cases (disable_each found s)) [
              | inl e ↦ rw (h, e, IfSome) tt
              | inr (s', e) ↦
                  let turned =
                    subst (IfSome (TurnedOff found s)) e (disable_each-TurnedOff found s) in
                  rw (h, e, IfSome)
                    (with_found (write_addon_meta addon' s') found
                      (write-Settled addon' s s' apart refl turned))
            ]
        | inr h ↦
            let off =
              subst (λ b. IfSome AreApart (write_addon_meta (switched b) s)) (sym h)
                (disable-AreApart name s apart) in
            rw (h, IfSome) (with_found (write_addon_meta addon' s) [] off)
      ]
