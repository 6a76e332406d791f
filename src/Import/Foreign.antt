-- ===== src/Import/Foreign.antt =====
-- Notes from text files: the texts and fields of `NoteImporter` in pylib/anki/importing/noteimp.py.
mod Tests
pub mod Run
pub mod Marks
pub mod Fields
use anki.Prelude.{
  ℕ, zero, suc, Bool, true, false, not, Option, none, some, List, [], ◌∷◌, ◌++◌, ◌+◌, reverse,
  select, non_empty, get_elem?, length, ◌==◌, if◌then◌else◌,
}
use anki.Prelude.Int.{ℤ, pos}
use anki.Prelude.Text.{Text, codes, same, has_text, attach}
use anki.Utils.{join_fields}
use anki.Tags as Tags

pub record ForeignCard : Type 0 where
  pub due : ℤ
  pub ivl : ℕ
  pub factor : ℕ
  pub reps : ℕ
  pub lapses : ℕ

-- `cards` is the map from templates to cards.
pub record ForeignNote : Type 0 where
  pub fields : List Text
  pub tags : List Text
  pub cards : List (ℕ × ForeignCard)
  pub fields_str : Text

-- UPDATE_MODE, IGNORE_MODE and ADD_MODE
pub data ImportMode : Type 0 where
  update ignore add : ImportMode

-- A character of `html.escape(s, quote=False)`
unfoldable pub escape_char : ℕ → Text
escape_char c =
    if c == 38
    then codes "&amp;"
    else if c == 60
    then codes "&lt;"
    else if c == 62
    then codes "&gt;"
    else c ∷ []

unfoldable pub html_escape : Text → Text
html_escape [] = []
html_escape (c ∷ s) = escape_char c ++ html_escape s

-- `field.replace("\n", "<br>")`
unfoldable pub break_lines : Text → Text
break_lines [] = []
break_lines (c ∷ s) = (if c == 10 then codes "<br>" else c ∷ []) ++ break_lines s

-- What is outside of these functions: characters and their normal form, the checksum of a first field,
-- the random numbers and the clock at each reading, and settings of the collection.
pub record TextEnv : Type 0 where
  pub nfc : Text → Text
  pub is_space : ℕ → Bool
  pub field_checksum : Text → ℕ
  pub random : ℕ → ℕ
  pub now : ℕ → ℕ
  pub usn : ℤ
  pub normalize_note_text : Bool

-- The importer's settings and the note type: its id, and its fields with their numbers.
pub record Settings : Type 0 where
  pub allow_html : Bool
  pub import_mode : ImportMode
  pub mapping : List (Option Text)
  pub tag_modified : Option Text
  pub mid : ℕ
  pub flds : List (Text × ℕ)

module _ (is_space : ℕ → Bool) where
  unfoldable pub strip_left : Text → Text
  strip_left [] = []
  strip_left (c ∷ s) = let rest = strip_left s in if is_space c then rest else c ∷ s

  -- `s.strip()`
  unfoldable pub strip : Text → Text
  strip s = reverse (strip_left (reverse (strip_left s)))

  unfoldable pub split_spaces : Text → List Text
  split_spaces [] = [] ∷ []
  split_spaces (c ∷ s) =
      let rest = split_spaces s in if is_space c then [] ∷ rest else attach c rest

  -- `s.split()`
  unfoldable pub words : Text → List Text
  words s = select non_empty (split_spaces s)

  -- The three assignments to `n.fields[c]`, each from `field` as the note had it.
  unfoldable pub clean_field : Bool → Text → Text
  clean_field allow_html field =
      let escaped = if not allow_html then html_escape field else field in
      let stripped = strip field in if not allow_html then break_lines field else stripped

-- `"_tags"`
abbrev pub tags_field : Text
tags_field = codes "_tags"

-- `flds[name]` of `field_map`; of two fields with one name the later counts
unfoldable pub field_ord : Text → List (Text × ℕ) → Option ℕ
field_ord name [] = none
field_ord name ((f, ord) ∷ flds) =
    let later = field_ord name flds in
    elim later [ some o ↦ some o | none ↦ if same f name then some ord else none ]

-- `fields[i] = text`; `none` if there is no such field
unfoldable pub set_field : ℕ → Text → List Text → Option (List Text)
set_field i text [] = none
set_field zero text (f ∷ fs) = some (text ∷ fs)
set_field (suc i) text (f ∷ fs) = elim (set_field i text fs) [
  | none ↦ none
  | some fs' ↦ some (f ∷ fs')
]

-- One round of the loop of `processFields`, on the tags of the note and the fields to store.
unfoldable pub process_entry :
    List (Text × ℕ)
    → List Text
    → ℕ
    → Option Text
    → List Text × List Text
    → Option (List Text × List Text)
process_entry flds texts c none (tags, fields) = some (tags, fields)
process_entry flds texts c (some f) (tags, fields) =
    if not (non_empty f) then some (tags, fields) else elim (get_elem? texts c) [
      | none ↦ none
      | some text ↦
          if same f tags_field
          then some (tags ++ Tags.split text, fields)
          else elim (field_ord f flds) [
            | none ↦ none
            | some sidx ↦ elim (set_field sidx text fields) [
              | none ↦ none
              | some fields' ↦ some (tags, fields')
            ]
          ]
    ]

-- The loop, from entry `c` on.
unfoldable pub process_entries :
    List (Text × ℕ)
    → List Text
    → ℕ
    → List (Option Text)
    → List Text × List Text
    → Option (List Text × List Text)
process_entries flds texts c [] out = some out
process_entries flds texts c (f ∷ mapping) out = elim (process_entry flds texts c f out) [
  | none ↦ none
  | some out' ↦ process_entries flds texts (suc c) mapping out'
]

-- `[""] * len(flds)`
unfoldable pub empty_fields : List (Text × ℕ) → List Text
empty_fields [] = []
empty_fields (f ∷ flds) = [] ∷ empty_fields flds

-- `processFields`: the note with its tags and its `fieldsStr`; `none` where a field is missing
unfoldable pub process_fields : TextEnv → Settings → ForeignNote → List Text → Option ForeignNote
process_fields env settings note fields =
    let start = if not (non_empty fields) then empty_fields settings.flds else fields in
    elim (process_entries settings.flds note.fields 0 settings.mapping (note.tags, start)) [
      | none ↦ none
      | some (tags, stored) ↦
          let joined = join_fields stored in
          some (record note {
            tags = tags;
            fields_str = if env.normalize_note_text then env.nfc joined else joined;
          })
    ]
