-- ===== src/Import/Notes/Ids.antt =====
-- The ids of imported notes.
use anki.Prelude.{
  ℕ, suc, true, not, Option, none, some, List, [], ◌∷◌, ◌++◌, ◌≡◌, refl, ap, subst, ◌⊎◌, ◌∙◌, sym,
  map, length, All, IsDistinct, snoc-IsDistinct, Option-cases, Bool-cases, inl, inr, arith,
}
use anki.Utils.{next_free}
use anki.Utils.Free.{next_free_lem}
use anki.Import.Media.{Files}
use anki.Import.Notes.{
  NoteRow, Known, Model, Importer, Source, known, mapped, probe, copy_model, mid_of, uniquify_with,
  uniquify_note, import_unique, add_note, update_note, import_note, import_rows, begin,
  import_notes,
}
use mathlib.Core.List.{append_assoc, append-nil}

abbrev ids_of : List NoteRow → List ℕ
ids_of rows = map (λ r. r.id) rows

ids_of-snoc :
    (rows : List NoteRow) (row : NoteRow) → ids_of (rows ++ row ∷ []) ≡ ids_of rows ++ row.id ∷ []
ids_of-snoc [] row = refl
ids_of-snoc (r ∷ rows) row = ap (λ (rest : List ℕ). r.id ∷ rest) (ids_of-snoc rows row)

-- The ids in use are those from before the import and those of the added notes, and no two are the
-- same.
abbrev pub AreFresh : List ℕ → Importer → Type 0
AreFresh before st = (st.existing ≡ before ++ ids_of st.add) × IsDistinct st.existing

-- The import returned, with `P`.
abbrev pub Returns : (Importer → Type 0) → Option Importer → Type 0
Returns P none = ⊥
Returns P (some st) = P st

-- What a note leaves alone until it is added or updated.
abbrev KeepsIds : Importer → Importer → Type 0
KeepsIds st st' = (st'.existing ≡ st.existing) × (st'.add ≡ st.add) × (st'.notes ≡ st.notes)

module _ (source : Source) where
  -- The note type of the note is in the source.
  abbrev pub HasType : NoteRow → Type 0
  HasType row = (m : Model) × (source.src_model row.mid ≡ some m)

  mid_of-KeepsIds :
      (row : NoteRow) (st : Importer)
      → HasType row
      → (out : ℕ × Importer) × (mid_of source row.mid st ≡ some out) × KeepsIds st out.1
  unfolding mid_of
  mid_of-KeepsIds row st (m, e) = elim (Option-cases (mapped row.mid st.model_map)) [
    | inl f ↦
        let mid = probe (length st.models) m row.mid st.models in
        let st' : Importer = record st {
          models = copy_model m mid st.models;
          model_map = (row.mid, mid) ∷ st.model_map;
        } in
        ((mid, st'), rw (f, e, mid_of) refl, (refl, refl, refl))
    | inr (mid, f) ↦ ((mid, st), rw (f, mid_of) refl, (refl, refl, refl))
  ]

  uniquify_with-KeepsIds :
      (dst_mid : ℕ) (note : NoteRow) (st : Importer)
      → KeepsIds st (uniquify_with source dst_mid note st).2
  unfolding uniquify_with
  uniquify_with-KeepsIds dst_mid note st = ground arith

  -- A note that is not to be added has its guid among the notes.
  uniquify_with-Known :
      (dst_mid : ℕ) (note : NoteRow) (st : Importer)
      → ((uniquify_with source dst_mid note st).1.guid ≡ note.guid)
        × (((uniquify_with source dst_mid note st).0 ≡ true)
            ⊎ ((k : Known) × (known note.guid st.notes ≡ some k)))
  unfolding uniquify_with
  uniquify_with-Known dst_mid note st = elim (Option-cases (known note.guid st.notes)) [
    | inl e ↦ (ground (arith, e), inl (ground (arith, e)))
    | inr (k, e) ↦ (ground (arith, e), inr (k, e))
  ]

  AreFresh-same :
      (before : List ℕ) (st st' : Importer)
      → KeepsIds st st'
      → AreFresh before st
      → AreFresh before st'
  AreFresh-same before st st' k h = (ground (arith, k, h.0), subst IsDistinct (sym k.0) h.1)

  add_note-AreFresh :
      (before : List ℕ) (note : NoteRow) (st : Importer)
      → AreFresh before st
      → AreFresh before (add_note source note st)
  unfolding add_note
  add_note-AreFresh before note st h =
      let id = next_free 999 note.id st.existing in
      let row = record note {
        id = id;
        usn = source.usn;
        flds = (source.munge_media note.mid note.flds st.media).0;
      } in
      (
        ap (λ (xs : List ℕ). xs ++ id ∷ []) h.0
            ∙ append_assoc before (ids_of st.add) (id ∷ [])
            ∙ ap (λ (xs : List ℕ). before ++ xs) (sym (ids_of-snoc st.add row)),
        snoc-IsDistinct id st.existing (next_free_lem 999 note.id st.existing (omega arith)).0 h.1,
      )

  update_note-KeepsIds :
      (note : NoteRow) (old : Known) (st : Importer) → KeepsIds st (update_note source note old st)
  unfolding update_note
  update_note-KeepsIds note old st = ground arith

  import_unique-AreFresh :
      (before : List ℕ) (dst_mid : ℕ) (row : NoteRow) (st : Importer)
      → AreFresh before st
      → Returns (AreFresh before) (import_unique source (uniquify_with source dst_mid row st))
  unfolding import_unique
  import_unique-AreFresh before dst_mid row st h =
      let (b, note, t) = uniquify_with source dst_mid row st in
      let keeps = uniquify_with-KeepsIds dst_mid row st in
      let fresh = AreFresh-same before st t keeps h in
      let (g, held) = uniquify_with-Known dst_mid row st in
      elim held [
        | inl e ↦ rw (e, Returns) (add_note-AreFresh before note t fresh)
        | inr (k, e) ↦ elim (Bool-cases b) [
          | inl f ↦ rw (f, Returns) (add_note-AreFresh before note t fresh)
          | inr f ↦ elim (Bool-cases (not source.allow_update)) [
            | inl a ↦ rw (f, a, Returns) fresh
            | inr a ↦
                let found : known note.guid t.notes ≡ some k = ground (arith, e, g, keeps) in
                rw (f, a, found, Returns)
                  (AreFresh-same before t (update_note source note k t)
                    (update_note-KeepsIds note k t) fresh)
          ]
        ]
      ]

  import_note-AreFresh :
      (before : List ℕ) (row : NoteRow) (st : Importer)
      → HasType row
      → AreFresh before st
      → Returns (AreFresh before) (import_note source row st)
  unfolding import_note uniquify_note
  import_note-AreFresh before row st there h =
      let s' = record st { total = suc st.total } in
      let ((mid, t), e, keeps) = mid_of-KeepsIds row s' there in
      rw (e, Returns) (import_unique-AreFresh before mid row t (AreFresh-same before st t keeps h))

  import_rows-AreFresh :
      (before : List ℕ) (rows : List NoteRow) (st : Importer)
      → All HasType rows
      → AreFresh before st
      → Returns (AreFresh before) (import_rows source rows st)
  unfolding import_rows
  import_rows-AreFresh before [] st there h = h
  import_rows-AreFresh before (row ∷ rows) st there h =
      elim (Option-cases (import_note source row st)) [
        | inl e ↦ ground (arith, e, import_note-AreFresh before row st there.0 h)
        | inr (st', e) ↦
            let fresh : AreFresh before st' =
              subst (Returns (AreFresh before)) e (import_note-AreFresh before row st there.0 h) in
            rw (e, Returns) (import_rows-AreFresh before rows st' there.1 fresh)
      ]

  -- The import of notes returns, if the source has the note type of each note. Then the ids in use are the ids from before
  -- and after them those of the added notes, and no two are the same. No two of the ids from before
  -- are to be the same.
  pub import_notes-AreFresh :
      (rows : List NoteRow) (notes : List Known) (ids : List ℕ) (models : List Model)
      (media : Files)
      → All HasType rows
      → IsDistinct ids
      → Returns (AreFresh ids) (import_notes source rows notes ids models media)
  unfolding import_notes begin
  import_notes-AreFresh rows notes ids models media there d =
      import_rows-AreFresh ids rows (begin notes ids models media) there (sym (append-nil ids), d)
