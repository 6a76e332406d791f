-- ===== src/Import/Foreign/Fields.antt =====
-- Which text `processFields` of pylib/anki/importing/noteimp.py stores in a field.
use anki.Prelude.{
  ℕ, zero, suc, true, false, not, Option, none, some, List, [], ◌∷◌, ◌++◌, ◌+◌, ◌≡◌, ◌≢◌, refl, ap,
  sym, subst, ◌∙◌, inl, inr, length, get_elem?, All, non_empty, IfSome, Option-cases, Bool-cases,
  arith,
}
use anki.Prelude.Text.{Text, same}
use anki.Import.Foreign.{tags_field, field_ord, set_field, process_entry, process_entries}

get_elem?-set_field :
    (i : ℕ) (text : Text) (fields : List Text) {fields' : List Text}
    → set_field i text fields ≡ some fields'
    → get_elem? fields' i ≡ some text
unfolding set_field
get_elem?-set_field i text [] h = absurd (cc)
get_elem?-set_field zero text (f ∷ fs) h = ground (arith, h)
get_elem?-set_field (suc i) text (f ∷ fs) {fields'} h = elim (Option-cases (set_field i text fs)) [
  | inl e ↦ ground (arith, e, h)
  | inr (fs', e) ↦ ground (arith, e, h, get_elem?-set_field i text fs {fields' = fs'} e)
]

get_elem?-set_other :
    (i j : ℕ) (text : Text) (fields : List Text) {fields' : List Text}
    → i ≢ j
    → set_field i text fields ≡ some fields'
    → get_elem? fields' j ≡ get_elem? fields j
unfolding set_field
get_elem?-set_other i j text [] n h = absurd (cc)
get_elem?-set_other zero zero text (f ∷ fs) n h = absurd (n refl)
get_elem?-set_other zero (suc j) text (f ∷ fs) n h = ground (arith, h)
get_elem?-set_other (suc i) zero text (f ∷ fs) {fields'} n h =
    elim (Option-cases (set_field i text fs)) [
      | inl e ↦ ground (arith, e, h)
      | inr (fs', e) ↦ ground (arith, e, h)
    ]
get_elem?-set_other (suc i) (suc j) text (f ∷ fs) {fields'} n h =
    elim (Option-cases (set_field i text fs)) [
      | inl e ↦ ground (arith, e, h)
      | inr (fs', e) ↦
          ground
            (arith, e, h, get_elem?-set_other i j text fs {fields' = fs'} (λ p. n (ap suc p)) e)
    ]

-- An entry of the mapping that does not name the field with a number.
abbrev pub IsElsewhere : List (Text × ℕ) → ℕ → Option Text → Type 0
IsElsewhere flds i none = Unit
IsElsewhere flds i (some f) = field_ord f flds ≢ some i

module _ (flds : List (Text × ℕ)) (texts : List Text) where
  -- The field has this text, if any.
  abbrev Holds : ℕ → Option Text → List Text × List Text → Type 0
  Holds i text out = get_elem? out.1 i ≡ text

  process_entry-keeps :
      (c i : ℕ) (f : Option Text) (tags fields : List Text)
      → IsElsewhere flds i f
      → IfSome (Holds i (get_elem? fields i)) (process_entry flds texts c f (tags, fields))
  unfolding process_entry
  process_entry-keeps c i none tags fields h = refl
  process_entry-keeps c i (some f) tags fields h = elim (Bool-cases (not (non_empty f))) [
    | inl e ↦ rw (e, IfSome) refl
    | inr e ↦ elim (Option-cases (get_elem? texts c)) [
      | inl t ↦ rw (e, t, IfSome) tt
      | inr (text, t) ↦ elim (Bool-cases (same f tags_field)) [
        | inl s ↦ rw (e, t, s, IfSome) refl
        | inr s ↦ elim (Option-cases (field_ord f flds)) [
          | inl o ↦ rw (e, t, s, o, IfSome) tt
          | inr (j, o) ↦ elim (Option-cases (set_field j text fields)) [
            | inl k ↦ rw (e, t, s, o, k, IfSome) tt
            | inr (fields', k) ↦
                rw (e, t, s, o, k, IfSome)
                  (get_elem?-set_other j i text fields {fields' = fields'} (λ p. h (o ∙ ap some p))
                    k)
          ]
        ]
      ]
    ]
  ]

  process_entries-keeps :
      (c i : ℕ) (mapping : List (Option Text)) (tags fields : List Text)
      → All (IsElsewhere flds i) mapping
      → IfSome (Holds i (get_elem? fields i)) (process_entries flds texts c mapping (tags, fields))
  unfolding process_entries
  process_entries-keeps c i [] tags fields h = refl
  process_entries-keeps c i (f ∷ mapping) tags fields h =
      elim (Option-cases (process_entry flds texts c f (tags, fields))) [
        | inl e ↦ rw (e, IfSome) tt
        | inr ((tags', fields'), e) ↦
            let first : get_elem? fields' i ≡ get_elem? fields i =
              subst (IfSome (Holds i (get_elem? fields i))) e
                (process_entry-keeps c i f tags fields h.0) in
            rw (e, IfSome)
              (subst
                (λ t.
                  IfSome (Holds i t) (process_entries flds texts (suc c) mapping (tags', fields')))
                first (process_entries-keeps (suc c) i mapping tags' fields' h.1))
      ]

  process_entry-stores :
      (c i : ℕ) (f : Text) (tags fields : List Text)
      → non_empty f ≡ true
      → same f tags_field ≡ false
      → field_ord f flds ≡ some i
      → IfSome (Holds i (get_elem? texts c)) (process_entry flds texts c (some f) (tags, fields))
  unfolding process_entry
  process_entry-stores c i f tags fields e s o = elim (Option-cases (get_elem? texts c)) [
    | inl t ↦ rw (e, t, IfSome) tt
    | inr (text, t) ↦ elim (Option-cases (set_field i text fields)) [
      | inl k ↦ rw (e, t, s, o, k, IfSome) tt
      | inr (fields', k) ↦
          rw (e, t, s, o, k, IfSome)
            (get_elem?-set_field i text fields {fields' = fields'} k ∙ sym t)
    ]
  ]

  -- If the loop over the mapping returns: the field that an entry names holds the text that the note
  -- has at the entry's place, unless a later entry names the field too.
  pub process_entries-stores :
      (c i : ℕ) (before : List (Option Text)) (f : Text) (after : List (Option Text))
      (tags fields : List Text)
      → non_empty f ≡ true
      → same f tags_field ≡ false
      → field_ord f flds ≡ some i
      → All (IsElsewhere flds i) after
      → IfSome
          (λ out. get_elem? out.1 i ≡ get_elem? texts (c + length before))
          (process_entries flds texts c (before ++ some f ∷ after) (tags, fields))
  unfolding process_entries
  process_entries-stores c i [] f after tags fields e s o h =
      elim (Option-cases (process_entry flds texts c (some f) (tags, fields))) [
        | inl k ↦ rw (k, IfSome) tt
        | inr ((tags', fields'), k) ↦
            let first : get_elem? fields' i ≡ get_elem? texts c =
              subst (IfSome (Holds i (get_elem? texts c))) k
                (process_entry-stores c i f tags fields e s o) in
            let at_end : get_elem? fields' i ≡ get_elem? texts (c + 0) =
              first ∙ ap (λ (n : ℕ). get_elem? texts n) (omega arith) in
            rw (k, IfSome)
              (subst
                (λ t.
                  IfSome (Holds i t) (process_entries flds texts (suc c) after (tags', fields')))
                at_end (process_entries-keeps (suc c) i after tags' fields' h))
      ]
  process_entries-stores c i (b ∷ before) f after tags fields e s o h =
      elim (Option-cases (process_entry flds texts c b (tags, fields))) [
        | inl k ↦ rw (k, IfSome) tt
        | inr ((tags', fields'), k) ↦
            let shift : get_elem? texts (suc c + length before)
                ≡ get_elem? texts (c + suc (length before)) =
              ap (λ (n : ℕ). get_elem? texts n) (omega arith) in
            rw (k, IfSome)
              (subst
                (λ t.
                  IfSome (Holds i t) (
                    process_entries flds texts (suc c) (before ++ some f ∷ after) (tags', fields')))
                shift (process_entries-stores (suc c) i before f after tags' fields' e s o h))
      ]
