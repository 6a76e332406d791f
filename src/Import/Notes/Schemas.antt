-- ===== src/Import/Notes/Schemas.antt =====
-- The note types of imported notes.
use anki.Prelude.{
  ℕ, zero, suc, true, false, Option, none, some, List, [], ◌∷◌, ◌+◌, ◌≤◌, ◌≡◌, refl, ap, subst, ◌∙◌,
  sym, map, length, contains, Option-cases, Bool-cases, inl, inr, ◌==◌, ltb, if◌then◌else◌, ==_iff,
  arith,
}
use anki.Prelude.Text.{Text, same, same_iff}
use anki.Utils.Free.{ahead, ahead-lt, ahead-le-length, ahead_zero}
use anki.Import.Notes.{
  Model, Importer, Source, model_of, put_model, mapped, probe, copy_model, mid_of,
}

abbrev ids_of : List Model → List ℕ
ids_of models = map (λ m. m.id) models

model_of-contains :
    (mid : ℕ) (models : List Model) {m : Model}
    → model_of mid models ≡ some m
    → contains mid (ids_of models) ≡ true
unfolding model_of
model_of-contains mid [] h = cc
model_of-contains mid (n ∷ ns) {m} h = ground (arith, h, model_of-contains mid ns {m = m})

contains-model_of :
    (mid : ℕ) (models : List Model)
    → contains mid (ids_of models) ≡ false
    → model_of mid models ≡ none
unfolding model_of
contains-model_of mid [] h = refl
contains-model_of mid (n ∷ ns) h = ground (arith, h, contains-model_of mid ns)

-- The id is free, or the note type under it has the schema.
abbrev IsOpen : Model → Option Model → Type 0
IsOpen src none = Unit
IsOpen src (some m) = same src.scm m.scm ≡ true

probe-IsOpen :
    (fuel : ℕ) (src : Model) (mid : ℕ) (models : List Model)
    → ahead mid (ids_of models) ≤ fuel
    → IsOpen src (model_of (probe fuel src mid models) models)
unfolding probe
probe-IsOpen zero src mid models h =
    rw (contains-model_of mid models (ahead_zero mid (ids_of models) (omega arith))) tt
probe-IsOpen (suc fuel) src mid models h = elim (Option-cases (model_of mid models)) [
  | inl e ↦ rw (e, probe) (rw e tt)
  | inr (m, e) ↦ elim (Bool-cases (same src.scm m.scm)) [
    | inl s ↦ rw (e, s, probe) (rw e s)
    | inr s ↦
        rw (e, s, probe)
          (probe-IsOpen fuel src (mid + 1) models (
            omega (
              arith,
              ahead-lt mid 1 (ids_of models) (omega arith) (model_of-contains mid models e),
            )))
  ]
]

model_of-put_model :
    (k : ℕ) (new : Model) (models : List Model)
    → model_of k (put_model new models) ≡ (if new.id == k then some new else model_of k models)
unfolding model_of put_model
model_of-put_model k new [] = refl
model_of-put_model k new (m ∷ ms) = ground (arith, model_of-put_model k new ms)

-- The collection has a note type under the id, with the schema.
abbrev pub Has : List Model → ℕ → Text → Type 0
Has models mid scm = (m : Model) × (model_of mid models ≡ some m) × (m.scm ≡ scm)

put_model-Has :
    (src : Model) (mid : ℕ) (models : List Model)
    → Has (put_model (record src { id = mid }) models) mid src.scm
put_model-Has src mid models = (
  record src { id = mid },
  ground (arith, model_of-put_model mid (record src { id = mid }) models),
  refl,
)

copy_model-Has :
    (src : Model) (mid : ℕ) (models : List Model)
    → IsOpen src (model_of mid models)
    → Has (copy_model src mid models) mid src.scm
unfolding copy_model
copy_model-Has src mid models h = elim (Option-cases (model_of mid models)) [
  | inl e ↦ rw (e, copy_model) (put_model-Has src mid models)
  | inr (m, e) ↦
      let s : same src.scm m.scm ≡ true = subst (IsOpen src) e h in
      elim (Bool-cases (ltb m.mod_time src.mod_time)) [
        | inl newer ↦ rw (e, newer, copy_model) (put_model-Has src mid models)
        | inr older ↦ rw (e, older, copy_model) (m, e, sym ((same_iff src.scm m.scm).0 s))
      ]
]

-- What is in the collection under another id stays, and so does a schema under the same id.
put_model-keeps :
    (src : Model) (mid : ℕ) (models : List Model) (k : ℕ) (scm : Text)
    → IsOpen src (model_of mid models)
    → Has models k scm
    → Has (put_model (record src { id = mid }) models) k scm
put_model-keeps src mid models k scm h (m, e, s) = elim (Bool-cases (mid == k)) [
  | inl f ↦
      let found : model_of mid models ≡ some m = ground (arith, e, ==_iff mid k, f) in
      let t : same src.scm m.scm ≡ true = subst (IsOpen src) found h in
      (
        record src { id = mid },
        ground (arith, f, model_of-put_model k (record src { id = mid }) models),
        (same_iff src.scm m.scm).0 t ∙ s,
      )
  | inr f ↦ (m, ground (arith, e, f, model_of-put_model k (record src { id = mid }) models), s)
]

copy_model-keeps :
    (src : Model) (mid : ℕ) (models : List Model) (k : ℕ) (scm : Text)
    → IsOpen src (model_of mid models)
    → Has models k scm
    → Has (copy_model src mid models) k scm
unfolding copy_model
copy_model-keeps src mid models k scm h there = elim (Option-cases (model_of mid models)) [
  | inl e ↦ rw (e, copy_model) (put_model-keeps src mid models k scm h there)
  | inr (m, e) ↦ elim (Bool-cases (ltb m.mod_time src.mod_time)) [
    | inl newer ↦ rw (e, newer, copy_model) (put_model-keeps src mid models k scm h there)
    | inr older ↦ rw (e, older, copy_model) there
  ]
]

-- The collection has a note type under the id, with the schema of the source's note type.
abbrev pub HasSchema : Source → List Model → ℕ → ℕ → Type 0
HasSchema source models old new =
    (src : Model) × (source.src_model old ≡ some src) × Has models new src.scm

module _ (source : Source) where
  -- Each note type of the source that has been met is mapped to one of the collection with its schema.
  abbrev pub AreMapped : List Model → List (ℕ × ℕ) → Type 0
  AreMapped models [] = Unit
  AreMapped models ((old, new) ∷ rest) = HasSchema source models old new × AreMapped models rest

  mapped-Has :
      (models : List Model) (model_map : List (ℕ × ℕ)) (mid new : ℕ)
      → AreMapped models model_map
      → mapped mid model_map ≡ some new
      → HasSchema source models mid new
  unfolding mapped
  mapped-Has models [] mid new h e = absurd (cc)
  mapped-Has models ((old, target) ∷ rest) mid new h e = elim (Bool-cases (old == mid)) [
    | inl f ↦
        let same_old : old ≡ mid = (==_iff old mid).0 f in
        let same_new : target ≡ new = ground (arith, e, f) in
        subst (λ t. HasSchema source models mid t) same_new
          (subst (λ o. HasSchema source models o target) same_old h.0)
    | inr f ↦ mapped-Has models rest mid new h.1 (ground (arith, e, f))
  ]

  copy_model-AreMapped :
      (src : Model) (mid : ℕ) (models : List Model) (model_map : List (ℕ × ℕ))
      → IsOpen src (model_of mid models)
      → AreMapped models model_map
      → AreMapped (copy_model src mid models) model_map
  copy_model-AreMapped src mid models [] h there = tt
  copy_model-AreMapped src mid models ((old, new) ∷ rest) h ((m, e, has), others) = (
    (m, e, copy_model-keeps src mid models new m.scm h has),
    copy_model-AreMapped src mid models rest h others,
  )

  -- The result, if the source has the note type or it was met before.
  abbrev pub Maps : ℕ → Option (ℕ × Importer) → Type 0
  Maps mid none = source.src_model mid ≡ none
  Maps mid (some (new, st)) = HasSchema source st.models mid new × AreMapped st.models st.model_map

  -- `_mid` gives the id of a note type of the collection that has the schema of the source's note
  -- type, copying it if there is none; and every note type that was mapped before stays mapped to one
  -- with its schema. It raises only if the source does not have the note type.
  pub mid_of-AreMapped :
      (mid : ℕ) (st : Importer) → AreMapped st.models st.model_map → Maps mid (mid_of source mid st)
  unfolding mid_of
  mid_of-AreMapped mid st h = elim (Option-cases (mapped mid st.model_map)) [
    | inr (new, e) ↦ rw (e, mid_of, Maps) (mapped-Has st.models st.model_map mid new h e, h)
    | inl e ↦ elim (Option-cases (source.src_model mid)) [
      | inl f ↦ rw (e, f, mid_of, Maps) f
      | inr (src, f) ↦
          let new = probe (length st.models) src mid st.models in
          let free = probe-IsOpen (length st.models) src mid st.models (within st.models mid) in
          let has = copy_model-Has src new st.models free in
          rw (e, f, mid_of, Maps)
            (
              (src, f, has),
              ((src, f, has), copy_model-AreMapped src new st.models st.model_map free h),
            )
    ]
  ]
    where
      length-ids : (models : List Model) → length (ids_of models) ≡ length models
      length-ids [] = refl
      length-ids (m ∷ ms) = ap suc (length-ids ms)

      within : (models : List Model) (k : ℕ) → ahead k (ids_of models) ≤ length models
      within models k = omega (arith, ahead-le-length k (ids_of models), length-ids models)
