-- ===== src/Desktop/Addons/Conflicts/Off.antt =====
-- What it changes to write the meta data of an add-on, and to turn add-ons off.
use anki.Prelude.{
  Bool, true, false, not, List, [], ◌∷◌, ◌≡◌, refl, ap, subst, sym, ◌∙◌, IfSome, Option-cases,
  Bool-cases, inl, inr, arith,
}
use anki.Prelude.Text.{Text, same, same_iff, has_text}
use anki.Desktop.Addons.{
  JsonMeta, AddonMeta, Folder, addon_json, write_json, addon_meta, write_addon_meta, package_names,
  from_json_meta, to_json_meta, get_or,
}
use anki.Desktop.Addons.Conflicts.{disable, disable_each}

-- The attributes of one add-on are replaced; the others and the directories are as before.
abbrev pub Wrote : Text → JsonMeta → Folder → Folder → Type 0
Wrote name json s s' =
    (addon_json name s' ≡ json)
    × ((other : Text) → same name other ≡ false → addon_json other s' ≡ addon_json other s)
    × (package_names s' ≡ package_names s)

same_trans : (a b c : Text) → same a b ≡ true → same a c ≡ same b c
same_trans a b c h = ap (λ t. same t c) ((same_iff a b).0 h)

pub write_json-Wrote :
    (name : Text) (json : JsonMeta) (s : Folder)
    → IfSome (Wrote name json s) (write_json name json s)
unfolding write_json addon_json package_names
write_json-Wrote name json [] = tt
write_json-Wrote name json (d ∷ ds) = elim (Bool-cases (same d.dir name)) [
  | inl e ↦
      rw (e, IfSome) (rw (e) refl, (λ other k. rw (same_trans d.dir name other e, k) refl), refl)
  | inr e ↦ elim (Option-cases (write_json name json ds)) [
    | inl f ↦ rw (e, f, IfSome) tt
    | inr (ds', f) ↦
        let w = subst (IfSome (Wrote name json ds)) f (write_json-Wrote name json ds) in
        rw (e, f, IfSome)
          (rw (e) w.0, (λ other k. ground (arith, w.1 other k)), ground (arith, w.2))
  ]
]

-- What it takes for two add-ons to conflict: the one is on, and the other is on its list.
abbrev pub is_enabled : Text → Folder → Bool
is_enabled name s = (addon_meta name s).enabled

abbrev pub conflicts_of : Text → Folder → List Text
conflicts_of name s = (addon_meta name s).conflicts

-- From the first folder to the second some add-ons were turned off, these among them.
abbrev pub TurnedOff : List Text → Folder → Folder → Type 0
TurnedOff names s s' =
    (package_names s' ≡ package_names s)
    × ((d : Text) → conflicts_of d s' ≡ conflicts_of d s)
    × ((d : Text) → is_enabled d s' ≡ true → is_enabled d s ≡ true)
    × ((d : Text) → has_text d names ≡ true → is_enabled d s' ≡ false)

-- The meta data of one add-on is another; that of the others and the directories are as before.
abbrev pub Changed : Text → Bool → List Text → Folder → Folder → Type 0
Changed name enabled conflicts s s' =
    (package_names s' ≡ package_names s)
    × (is_enabled name s' ≡ enabled)
    × (conflicts_of name s' ≡ conflicts)
    × ((other : Text) → same name other ≡ false → addon_meta other s' ≡ addon_meta other s)

not-not : (b : Bool) → not (not b) ≡ b
not-not true = refl
not-not false = refl

pub write_addon_meta-Changed :
    (addon : AddonMeta) (s : Folder)
    → IfSome (Changed addon.dir_name addon.enabled addon.conflicts s) (write_addon_meta addon s)
unfolding write_addon_meta addon_meta from_json_meta to_json_meta
write_addon_meta-Changed addon s =
    let name = addon.dir_name in
    let json = to_json_meta addon (addon_json name s) in
    elim (Option-cases (write_json name json s)) [
      | inl e ↦ rw (e, IfSome) tt
      | inr (s', e) ↦
          let w = subst (IfSome (Wrote name json s)) e (write_json-Wrote name json s) in
          rw (e, IfSome)
            (
              w.2,
              ap (λ j. not (get_or false j.disabled)) w.0 ∙ not-not addon.enabled,
              ap (λ j. get_or [] j.conflicts) w.0,
              (λ other k. ap (from_json_meta other) (w.1 other k)),
            )
    ]

has_text_one : (d name : Text) → has_text d (name ∷ []) ≡ true → same d name ≡ true
unfolding has_text
has_text_one d name h = ground (arith, h)

-- A property of one add-on holds of any with its name.
along : (name d : Text) (P : Text → Type 0) → same name d ≡ true → P name → P d
along name d P h p = subst P ((same_iff name d).0 h) p

Changed-TurnedOff :
    (name : Text) (s s' : Folder)
    → Changed name false (conflicts_of name s) s s'
    → TurnedOff (name ∷ []) s s'
Changed-TurnedOff name s s' w =
    let kept : (d : Text) → conflicts_of d s' ≡ conflicts_of d s = λ d.
      elim (Bool-cases (same name d)) [
        | inl k ↦ along name d (λ x. conflicts_of x s' ≡ conflicts_of x s) k w.2
        | inr k ↦ ap (λ m. m.conflicts) (w.3 d k)
      ] in
    let off : (d : Text) → is_enabled d s' ≡ true → is_enabled d s ≡ true = λ d h.
      elim (Bool-cases (same name d)) [
        | inl k ↦ let e = along name d (λ x. is_enabled x s' ≡ false) k w.1 in absurd (cc (h, e))
        | inr k ↦ sym (ap (λ m. m.enabled) (w.3 d k)) ∙ h
      ] in
    (
      w.0,
      kept,
      off,
      (λ d h.
          let e = (same_iff d name).0 (has_text_one d name h) in
          subst (λ x. is_enabled x s' ≡ false) (sym e) w.1),
    )

pub disable-TurnedOff :
    (name : Text) (s : Folder) → IfSome (TurnedOff (name ∷ []) s) (disable name s)
unfolding disable addon_meta from_json_meta
disable-TurnedOff name s =
    let addon : AddonMeta = record (addon_meta name s) { enabled = false } in
    elim (Option-cases (write_addon_meta addon s)) [
      | inl e ↦ rw (e, IfSome) tt
      | inr (s', e) ↦
          let c = Changed name false (conflicts_of name s) s in
          let w = subst (IfSome c) e (write_addon_meta-Changed addon s) in
          rw (e, IfSome) (Changed-TurnedOff name s s' w)
    ]

TurnedOff-next :
    (name : Text) (names : List Text) (s s' s'' : Folder)
    → TurnedOff (name ∷ []) s s'
    → TurnedOff names s' s''
    → TurnedOff (name ∷ names) s s''
unfolding has_text
TurnedOff-next name names s s' s'' h k = (
  k.0 ∙ h.0,
  (λ d. k.1 d ∙ h.1 d),
  (λ d e. h.2 d (k.2 d e)),
  (λ d e. elim (Bool-cases (same d name)) [
    | inl f ↦ elim (Bool-cases (is_enabled d s'')) [
      | inl g ↦ absurd (cc (k.2 d g, h.3 d (rw (f) refl)))
      | inr g ↦ g
    ]
    | inr f ↦ k.3 d (ground (arith, e, f))
  ]),
)

pub disable_each-TurnedOff :
    (names : List Text) (s : Folder) → IfSome (TurnedOff names s) (disable_each names s)
unfolding disable_each has_text
disable_each-TurnedOff [] s = (refl, (λ d. refl), (λ d h. h), (λ d h. absurd (cc h)))
disable_each-TurnedOff (name ∷ names) s = elim (Option-cases (disable name s)) [
  | inl e ↦ rw (e, IfSome) tt
  | inr (s', e) ↦
      let h = subst (IfSome (TurnedOff (name ∷ []) s)) e (disable-TurnedOff name s) in
      elim (Option-cases (disable_each names s')) [
        | inl f ↦ rw (e, f, IfSome) tt
        | inr (s'', f) ↦
            let k = subst (IfSome (TurnedOff names s')) f (disable_each-TurnedOff names s') in
            rw (e, f, IfSome) (TurnedOff-next name names s s' s'' h k)
      ]
]
