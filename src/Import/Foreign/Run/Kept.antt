-- ===== src/Import/Foreign/Run/Kept.antt =====
-- What an import of notes from text does to the notes that are there.
use anki.Prelude.{
  ℕ, zero, suc, Bool, false, not, ◌&&◌, List, [], ◌∷◌, ◌++◌, ◌+◌, ◌<◌, ◌≡◌, refl, ap, subst, sym,
  ◌∙◌, inl, inr, map, length, contains, All, non_empty, get_elem?, IfSome, Option-cases, Bool-cases,
  List-cases, ◌==◌, arith,
}
use mathlib.Core.List.{append_assoc, append-nil}
use anki.Prelude.Text.{Text, same, has_text}
use anki.Utils.{next_free, timestamp_id, skip_used, split_fields}
use anki.Import.Foreign.{ForeignNote, ImportMode, TextEnv, Settings, process_fields, clean_field}
use anki.Import.Foreign.Run.{
  StoredNote, StoredCard, Update, Progress, index_of, stored_note, ids_with, new_data, update_data,
  duplicate, find_duplicates, is_add, import_cleaned, import_one, import_each, start_progress,
  without, add_new, apply_update, count_changes, add_updates, tags_mapped, is_changed, Outcome,
  finish, import_notes,
}

-- The ids of the rows are `n`, `n + 1` and so on.
abbrev pub InRow : ℕ → List StoredNote → Type 0
InRow n [] = Unit
InRow n (row ∷ rows) = (row.id ≡ n) × InRow (suc n) rows

InRow-snoc :
    (n : ℕ) (rows : List StoredNote) (row : StoredNote)
    → InRow n rows
    → row.id ≡ n + length rows
    → InRow n (rows ++ row ∷ [])
InRow-snoc n [] row h e = (omega arith, tt)
InRow-snoc n (r ∷ rows) row h e = (h.0, InRow-snoc (suc n) rows row h.1 (omega arith))

-- No update is for another mode than the one for updates.
abbrev NoUpdates : ImportMode → List Update → Type 0
NoUpdates ImportMode.update us = Unit
NoUpdates ImportMode.ignore us = us ≡ []
NoUpdates ImportMode.add us = us ≡ []

-- What holds all through the loop.
abbrev Sound : ImportMode → ℕ → Progress → Type 0
Sound mode n st = (st.next_id ≡ n + length st.new) × InRow n st.new × NoUpdates mode st.updates

length-snoc :
    (rows : List StoredNote) (row : StoredNote) → length (rows ++ row ∷ []) ≡ suc (length rows)
length-snoc [] row = refl
length-snoc (r ∷ rows) row = omega (arith, length-snoc rows row)

module _ (env : TextEnv) (settings : Settings) (table : List StoredNote) (n : ℕ) where
  abbrev mode : ImportMode
  mode = settings.import_mode

  new_data-Sound :
      (note : ForeignNote) (st : Progress)
      → Sound mode n st
      → IfSome (Sound mode n) (new_data env settings note st)
  unfolding new_data
  new_data-Sound note st h = elim (Option-cases (process_fields env settings note [])) [
    | inl e ↦ rw (e, IfSome) tt
    | inr (note', e) ↦
        rw (e, IfSome) (omega (arith, length-snoc st.new, h.0), InRow-snoc n st.new _ h.1 h.0, h.2)
  ]

  -- The part of the outcome of `duplicate` that is kept.
  abbrev SoundAfter : ImportMode → Bool × ForeignNote × Progress → Type 0
  SoundAfter m out = Sound m n out.2

  duplicate-Sound :
      (m : ImportMode) (fld0 : Text) (note : ForeignNote) (stored : StoredNote) (sflds : List Text)
      (st : Progress)
      → Sound m n st
      → IfSome (SoundAfter m) (duplicate env settings m fld0 note stored sflds st)
  unfolding duplicate update_data
  duplicate-Sound ImportMode.update fld0 note stored sflds st h =
      elim (Option-cases (process_fields env settings note sflds)) [
        | inl e ↦ rw (e, IfSome) tt
        | inr (note', e) ↦ rw (e, IfSome) (h.0, h.1, tt)
      ]
  duplicate-Sound ImportMode.ignore fld0 note stored sflds st h = h
  duplicate-Sound ImportMode.add fld0 note stored sflds st h =
      elim (Bool-cases (has_text fld0 st.dupes)) [
        | inl e ↦ rw (e, IfSome) h
        | inr e ↦ rw (e, IfSome) h
      ]

  find_duplicates-Sound :
      (fld0 : Text) (ids : List ℕ) (out : Bool × ForeignNote × Progress)
      → SoundAfter mode out
      → IfSome (SoundAfter mode) (find_duplicates env settings table fld0 ids out)
  unfolding find_duplicates
  find_duplicates-Sound fld0 [] out h = h
  find_duplicates-Sound fld0 (id ∷ ids) (found, note, st) h =
      elim (Option-cases (stored_note id table)) [
        | inl e ↦ rw (e, IfSome) tt
        | inr (stored, e) ↦ elim (List-cases (split_fields stored.flds)) [
          | inl f ↦ rw (e, f, IfSome) tt
          | inr (first, rest, f) ↦ elim (Bool-cases (not (same fld0 first))) [
            | inl g ↦ rw (e, f, g, IfSome) (find_duplicates-Sound fld0 ids (found, note, st) h)
            | inr g ↦
                let d = duplicate env settings mode fld0 note stored (first ∷ rest) st in
                let sound = duplicate-Sound mode fld0 note stored (first ∷ rest) st h in
                elim (Option-cases d) [
                  | inl k ↦ rw (e, f, g, k, IfSome) tt
                  | inr (out, k) ↦
                      rw (e, f, g, k, IfSome)
                        (find_duplicates-Sound fld0 ids out
                          (subst (IfSome (SoundAfter mode)) k sound))
                ]
          ]
        ]
      ]

  import_cleaned-Sound :
      (fld0 : Text) (note : ForeignNote) (st : Progress)
      → Sound mode n st
      → IfSome (Sound mode n) (import_cleaned env settings table fld0 note st)
  unfolding import_cleaned
  import_cleaned-Sound fld0 note st h = elim (Bool-cases (not (non_empty fld0))) [
    | inl e ↦ rw (e, IfSome) h
    | inr e ↦ elim (Bool-cases (has_text fld0 st.firsts && not (is_add mode))) [
      | inl f ↦ rw (e, f, IfSome) h
      | inr f ↦
          let same_csum = ids_with settings.mid (env.field_checksum fld0) table in
          let st₁ : Progress = record st { firsts = st.firsts ++ fld0 ∷ [] } in
          let sound = find_duplicates-Sound fld0 same_csum (false, note, st₁) h in
          elim (Option-cases
            (find_duplicates env settings table fld0 same_csum (false, note, st₁))) [
              | inl k ↦ rw (e, f, k, IfSome) tt
              | inr ((found, note', st₂), k) ↦
                  let h₂ : Sound mode n st₂ = subst (IfSome (SoundAfter mode)) k sound in
                  elim (Bool-cases found) [
                    | inl g ↦ rw (e, f, k, g, IfSome) h₂
                    | inr g ↦ rw (e, f, k, g) (new_data-Sound note' st₂ h₂)
                  ]
            ]
    ]
  ]

  import_one-Sound :
      (fld0idx : ℕ) (note : ForeignNote) (st : Progress)
      → Sound mode n st
      → IfSome (Sound mode n) (import_one env settings table fld0idx note st)
  unfolding import_one
  import_one-Sound fld0idx note st h =
      let fields = map (clean_field env.is_space settings.allow_html) note.fields in
      elim (Option-cases (get_elem? fields fld0idx)) [
        | inl e ↦ rw (e, IfSome) tt
        | inr (first, e) ↦
            rw (e, IfSome)
              (import_cleaned-Sound (env.nfc first) (record note { fields = fields }) st h)
      ]

  import_each-Sound :
      (fld0idx : ℕ) (notes : List ForeignNote) (st : Progress)
      → Sound mode n st
      → IfSome (Sound mode n) (import_each env settings table fld0idx notes st)
  unfolding import_each
  import_each-Sound fld0idx [] st h = h
  import_each-Sound fld0idx (note ∷ notes) st h =
      elim (Option-cases (import_one env settings table fld0idx note st)) [
        | inl e ↦ rw (e, IfSome) tt
        | inr (st', e) ↦
            rw (e, IfSome)
              (import_each-Sound fld0idx notes st'
                (subst (IfSome (Sound mode n)) e (import_one-Sound fld0idx note st h)))
      ]

-- Rows with ids from `n` on go behind a table of smaller ids.
abbrev IsBelow : ℕ → List StoredNote → Type 0
IsBelow n table = All (λ r. r.id < n) table

without_below : (n : ℕ) (table : List StoredNote) → IsBelow n table → without n table ≡ table
unfolding without
without_below n [] h = refl
without_below n (r ∷ rows) h = ground (arith, h.0, without_below n rows h.1)

IsBelow-snoc :
    (n : ℕ) (table : List StoredNote) (row : StoredNote)
    → row.id ≡ n
    → IsBelow n table
    → IsBelow (suc n) (table ++ row ∷ [])
IsBelow-snoc n [] row e h = (omega arith, tt)
IsBelow-snoc n (r ∷ rows) row e h = (omega (arith, h.0), IsBelow-snoc n rows row e h.1)

add_new-append :
    (n : ℕ) (rows table : List StoredNote)
    → InRow n rows
    → IsBelow n table
    → add_new rows table ≡ table ++ rows
unfolding add_new
add_new-append n [] table r h = sym (append-nil table)
add_new-append n (row ∷ rows) table r h =
    let kept = subst (λ k. without k table ≡ table) (sym r.0) (without_below n table h) in
    rw kept (
      add_new-append (suc n) rows (table ++ row ∷ []) r.1 (IsBelow-snoc n table row r.0 h)
      ∙ append_assoc table (row ∷ []) rows)

-- What no update changes of a note: its id, its guid and its note type.
abbrev pub identity : StoredNote → ℕ × Text × ℕ
identity note = (note.id, note.guid, note.mid)

apply_update-identity :
    (with_tags : Bool) (u : Update) (table : List StoredNote)
    → map identity (map (apply_update with_tags u) table) ≡ map identity table
unfolding apply_update
apply_update-identity with_tags u [] = refl
apply_update-identity with_tags u (r ∷ rows) =
    elim (Bool-cases (r.id == u.id && is_changed with_tags u r)) [
      | inl e ↦ rw e (
          ap (λ (rest : List (ℕ × Text × ℕ)). identity r ∷ rest)
            (apply_update-identity with_tags u rows))
      | inr e ↦ rw e (
          ap (λ (rest : List (ℕ × Text × ℕ)). identity r ∷ rest)
            (apply_update-identity with_tags u rows))
    ]

add_updates-identity :
    (with_tags : Bool) (us : List Update) (table : List StoredNote) (count : ℕ)
    → map identity (add_updates with_tags us table count).0 ≡ map identity table
unfolding add_updates
add_updates-identity with_tags [] table count = refl
add_updates-identity with_tags (u ∷ us) table count =
    add_updates-identity with_tags us (map (apply_update with_tags u) table)
      (count + count_changes with_tags u table)
    ∙ apply_update-identity with_tags u table

skip_used_unused :
    (step fuel x : ℕ) (used : List ℕ) → contains x used ≡ false → skip_used step fuel x used ≡ x
unfolding skip_used
skip_used_unused step zero x used h = refl
skip_used_unused step (suc fuel) x used h = ground (arith, h)

unused :
    (n : ℕ) (table : List StoredNote) → IsBelow n table → contains n (map (λ r. r.id) table) ≡ false
unused n [] h = refl
unused n (r ∷ rows) h = ground (arith, h.0, unused n rows h.1)

-- In the mode for updates nothing is said of their texts; in the others there are none.
abbrev pub IsAppended : ImportMode → List StoredNote → List StoredNote → List StoredNote → Type 0
IsAppended ImportMode.update table new table' = Unit
IsAppended ImportMode.ignore table new table' = table' ≡ table ++ new
IsAppended ImportMode.add table new table' = table' ≡ table ++ new

-- The notes that were there stay, and behind them are the new ones, with ids from the time on.
abbrev pub KeepsNotes : ImportMode → ℕ → List StoredNote → Outcome → Type 0
KeepsNotes mode now_ms table out =
    InRow now_ms out.progress.new
    × (map identity out.notes ≡ map identity (table ++ out.progress.new))
    × IsAppended mode table out.progress.new out.notes

module _ (generate : List ℕ → List StoredCard → List StoredCard)
    (shuffle : List StoredCard → List StoredCard) where
  finish-IsAppended :
      (mode : ImportMode) (with_tags : Bool) (us : List Update) (table new notes : List StoredNote)
      → notes ≡ table ++ new
      → NoUpdates mode us
      → IsAppended mode table new (add_updates with_tags us notes 0).0
  unfolding add_updates
  finish-IsAppended ImportMode.update with_tags us table new notes e h = tt
  finish-IsAppended ImportMode.ignore with_tags us table new notes e h = rw (h, add_updates) e
  finish-IsAppended ImportMode.add with_tags us table new notes e h = rw (h, add_updates) e

  finish-Keeps :
      (settings : Settings) (n : ℕ) (table : List StoredNote) (cards : List StoredCard)
      (st : Progress)
      → IsBelow n table
      → Sound settings.import_mode n st
      → KeepsNotes settings.import_mode n table (finish generate shuffle settings table cards st)
  unfolding finish
  finish-Keeps settings n table cards st below h =
      let with_tags = tags_mapped settings.mapping in
      let appended = add_new-append n st.new table h.1 below in
      (
        h.1,
        add_updates-identity with_tags st.updates (add_new st.new table) 0
            ∙ ap (λ (rows : List StoredNote). map identity rows) appended,
        finish-IsAppended settings.import_mode with_tags st.updates table st.new
            (add_new st.new table) appended h.2,
      )

  -- If the import returns: each note that was there is still there, in its place and with its id,
  -- guid and note type; behind them are the new notes, with the time and the numbers after it for
  -- ids. But for the mode that updates, the old notes are as they were in every column. All ids in
  -- the table are to be smaller than the time.
  pub import_notes-KeepsNotes :
      (env : TextEnv) (settings : Settings) (now_ms : ℕ) (foreign : List ForeignNote)
      (notes : List StoredNote) (cards : List StoredCard)
      → All (λ r. r.id < now_ms) notes
      → IfSome
          (KeepsNotes settings.import_mode now_ms notes)
          (import_notes generate shuffle env settings now_ms foreign notes cards)
  unfolding import_notes timestamp_id next_free
  import_notes-KeepsNotes env settings now_ms foreign notes cards below =
      elim (List-cases settings.flds) [
        | inl e ↦ rw (e, IfSome) tt
        | inr ((first, ord), flds, e) ↦ elim (Option-cases (index_of first settings.mapping)) [
          | inl f ↦ rw (e, f, IfSome) tt
          | inr (idx, f) ↦
              let ids = map (λ r. r.id) notes in
              let next_id = skip_used 1 (length ids) now_ms ids in
              let at_now = skip_used_unused 1 (length ids) now_ms ids (unused now_ms notes below) in
              let begin = start_progress env settings next_id in
              let sound : Sound settings.import_mode now_ms begin =
                (omega (arith, at_now), tt, none_yet settings.import_mode) in
              elim (Option-cases (import_each env settings notes idx foreign begin)) [
                | inl k ↦ rw (e, f, k, IfSome) tt
                | inr (st, k) ↦
                    rw (e, f, k, IfSome)
                      (finish-Keeps settings now_ms notes cards st below (
                        subst (IfSome (Sound settings.import_mode now_ms)) k
                          (import_each-Sound env settings notes now_ms idx foreign begin sound)))
              ]
        ]
      ]
    where
      none_yet : (mode : ImportMode) → NoUpdates mode []
      none_yet ImportMode.update = tt
      none_yet ImportMode.ignore = refl
      none_yet ImportMode.add = refl
