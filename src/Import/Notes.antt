-- ===== src/Import/Notes.antt =====
-- `_importNotes`, `_uniquifyNote` and `_mid` of pylib/anki/importing/anki2.py. The media that a note
-- refers to are copied by `_mungeMedia`, which gives the fields to store (Media).
pub mod Ids
pub mod Schemas
use anki.Prelude.{
  ℕ, zero, suc, Bool, true, false, not, Option, none, some, List, [], ◌∷◌, ◌++◌, ◌+◌, length, map,
  ◌==◌, ltb, if◌then◌else◌,
}
use anki.Prelude.Int.{ℤ}
use anki.Prelude.Text.{Text, same, has_text}
use anki.Utils.{next_free}
use anki.Import.Media.{Files}

-- A row of `notes`; the columns that are only copied are left out.
pub record NoteRow : Type 0 where
  pub id : ℕ
  pub guid : Text
  pub mid : ℕ
  pub mod_time : ℕ
  pub usn : ℤ
  pub flds : Text

-- An entry of `_notes`: what is known of the note with a guid.
pub record Known : Type 0 where
  pub guid : Text
  pub id : ℕ
  pub mod_time : ℕ
  pub mid : ℕ

-- A note type: its schema hash and the time of its last change.
pub record Model : Type 0 where
  pub id : ℕ
  pub scm : Text
  pub mod_time : ℕ

-- The importer and what it changes.
pub record Importer : Type 0 where
  pub notes : List Known
  pub existing : List ℕ
  pub ignored_guids : List Text
  pub model_map : List (ℕ × ℕ)
  pub models : List Model
  pub add : List NoteRow
  pub update : List NoteRow
  pub dirty : List ℕ
  pub dupes_identical : List NoteRow
  pub dupes_ignored : List NoteRow
  pub media : Files
  pub total : ℕ

-- The collection that is imported, and settings.
pub record Source : Type 0 where
  -- `self.src.models.get`, `none` for a note type that is not there
  pub src_model : ℕ → Option Model
  pub munge_media : ℕ → Text → Files → Text × Files
  pub usn : ℤ
  pub allow_update : Bool

unfoldable pub known : Text → List Known → Option Known
known guid [] = none
known guid (k ∷ ks) = if same guid k.guid then some k else known guid ks

-- `self._notes[guid] = …`
unfoldable pub set_known : Known → List Known → List Known
set_known new [] = new ∷ []
set_known new (k ∷ ks) =
    let rest = set_known new ks in if same new.guid k.guid then new ∷ ks else k ∷ rest

unfoldable pub model_of : ℕ → List Model → Option Model
model_of mid [] = none
model_of mid (m ∷ ms) = if m.id == mid then some m else model_of mid ms

-- `dst.models.update`: the note type is replaced or added.
unfoldable pub put_model : Model → List Model → List Model
put_model new [] = new ∷ []
put_model new (m ∷ ms) =
    let rest = put_model new ms in if m.id == new.id then new ∷ ms else m ∷ rest

unfoldable pub mapped : ℕ → List (ℕ × ℕ) → Option ℕ
mapped mid [] = none
mapped mid ((old, new) ∷ rest) = if old == mid then some new else mapped mid rest

-- The loop of `_mid`: the first id, from `mid` on, that is free or has a note type with the schema.
unfoldable pub probe : ℕ → Model → ℕ → List Model → ℕ
probe zero src mid models = mid
probe (suc fuel) src mid models =
    let later = probe fuel src (mid + 1) models in
    elim (model_of mid models) [
      | none ↦ mid
      | some dst ↦ if same src.scm dst.scm then mid else later
    ]

-- What the loop does to the note types before it ends.
unfoldable pub copy_model : Model → ℕ → List Model → List Model
copy_model src mid models = elim (model_of mid models) [
  | none ↦ put_model (record src { id = mid }) models
  | some dst ↦
      if ltb dst.mod_time src.mod_time then put_model (record src { id = mid }) models else models
]

module _ (source : Source) where
  -- `_mid`, which raises if the source has no such note type: `scmhash` reads it.
  unfoldable pub mid_of : ℕ → Importer → Option (ℕ × Importer)
  mid_of src_mid st = elim (mapped src_mid st.model_map) [
    | some mid ↦ some (mid, st)
    | none ↦ elim (source.src_model src_mid) [
      | none ↦ none
      | some src ↦
          let mid = probe (length st.models) src src_mid st.models in
          some (
            mid,
            record st {
              models = copy_model src mid st.models;
              model_map = (src_mid, mid) ∷ st.model_map;
            },
          )
    ]
  ]

  -- `_uniquifyNote` behind `_mid`.
  unfoldable pub uniquify_with : ℕ → NoteRow → Importer → Bool × NoteRow × Importer
  uniquify_with dst_mid note st =
      let note' = record note { mid = dst_mid } in
      elim (known note.guid st.notes) [
        | none ↦ (true, note', st)
        | some k ↦
            if note.mid == dst_mid
            then (false, note, st)
            else (false, note', record st { ignored_guids = st.ignored_guids ++ note.guid ∷ [] })
      ]

  -- `_uniquifyNote`: whether the note is to be added, and the note with its new note type
  unfoldable pub uniquify_note : NoteRow → Importer → Option (Bool × NoteRow × Importer)
  uniquify_note note st = elim (mid_of note.mid st) [
    | none ↦ none
    | some (dst_mid, st') ↦ some (uniquify_with dst_mid note st')
  ]

  unfoldable pub add_note : NoteRow → Importer → Importer
  add_note note st =
      let id = next_free 999 note.id st.existing in
      let (flds, media) = source.munge_media note.mid note.flds st.media in
      let row = record note { id = id; usn = source.usn; flds = flds } in
      record st {
        media = media;
        existing = st.existing ++ id ∷ [];
        add = st.add ++ row ∷ [];
        dirty = st.dirty ++ id ∷ [];
        notes =
            set_known
              (record { guid = note.guid; id = id; mod_time = note.mod_time; mid = note.mid })
              st.notes;
      }

  -- A duplicate, or a note of a changed schema, against the note that is there.
  unfoldable pub update_note : NoteRow → Known → Importer → Importer
  update_note note old st =
      if not (ltb old.mod_time note.mod_time)
      then record st { dupes_identical = st.dupes_identical ++ note ∷ [] }
      else if not (old.mid == note.mid)
      then record st {
        dupes_ignored = st.dupes_ignored ++ note ∷ [];
        ignored_guids = st.ignored_guids ++ note.guid ∷ [];
      }
      else let (flds, media) = source.munge_media note.mid note.flds st.media in
        let row = record note { id = old.id; usn = source.usn; flds = flds } in
        record st { media = media; update = st.update ++ row ∷ []; dirty = st.dirty ++ old.id ∷ [] }

  -- One round of the loop, behind `_uniquifyNote`; `none` is a `KeyError`.
  unfoldable pub import_unique : Bool × NoteRow × Importer → Option Importer
  import_unique (should_add, note, st) =
      if should_add
      then some (add_note note st)
      else if not source.allow_update
      then some st
      else elim (known note.guid st.notes) [
        | none ↦ none
        | some old ↦ some (update_note note old st)
      ]

  -- One round of the loop; `none` where it raises.
  unfoldable pub import_note : NoteRow → Importer → Option Importer
  import_note row st = elim (uniquify_note row (record st { total = suc st.total })) [
    | none ↦ none
    | some out ↦ import_unique out
  ]

  unfoldable pub import_rows : List NoteRow → Importer → Option Importer
  import_rows [] st = some st
  import_rows (row ∷ rows) st = elim (import_note row st) [
    | none ↦ none
    | some st' ↦ import_rows rows st'
  ]

-- The state at the start.
unfoldable pub begin : List Known → List ℕ → List Model → Files → Importer
begin notes ids models media = record {
  media = media;
  notes = notes;
  existing = ids;
  ignored_guids = [];
  model_map = [];
  models = models;
  add = [];
  update = [];
  dirty = [];
  dupes_identical = [];
  dupes_ignored = [];
  total = 0;
}

-- `_importNotes`, from the notes, their ids and the note types that the collection has.
unfoldable pub import_notes :
    Source → List NoteRow → List Known → List ℕ → List Model → Files → Option Importer
import_notes source rows notes ids models media =
    import_rows source rows (begin notes ids models media)
