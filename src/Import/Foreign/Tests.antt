-- ===== src/Import/Foreign/Tests.antt =====
-- An import of notes from text, and each theorem at an input.
use anki.Prelude.{
  ℕ, ◌+◌, ◌≡◌, refl, arith, false, Option, none, some, List, [], ◌∷◌, ◌++◌, map, length, get_elem?,
  IfSome, ◌==◌, ◌||◌,
}
use mathlib.Core.Option
use anki.Prelude.Int.{ℤ, pos}
use anki.Prelude.Text.{Text, codes, same, has_text, split_on, join_with}
use anki.Utils.{
  base91, base62, digits_of, split_fields, join_fields, timestamp_id, next_free, skip_used,
}
use anki.Tags as Tags
use anki.Import.Foreign.{
  ForeignNote, ImportMode, TextEnv, Settings, clean_field, break_lines, field_ord, set_field,
  process_entry, process_entries, process_fields, empty_fields,
}
use anki.Import.Foreign.Marks.{clean_field-marks}
use anki.Import.Foreign.Fields.{process_entries-stores}
use anki.Import.Foreign.Run.{
  StoredNote, Outcome, import_notes, index_of, import_each, import_one, import_cleaned,
  find_duplicates, duplicate, new_data, ids_with, stored_note, tags_mapped, is_tags, finish,
  add_new, without, add_updates, update_cards, unchanged_count,
}
use anki.Import.Foreign.Run.Kept.{KeepsNotes, import_notes-KeepsNotes}

-- A text is its own normal form, and its length is its checksum.
abbrev text_env : TextEnv
text_env = record {
  nfc = λ s. s;
  is_space = λ c. c == 32 || c == 10;
  field_checksum = length;
  random = λ n. n + 90;
  now = λ n. n + 5;
  usn = pos 1;
  normalize_note_text = false;
}

abbrev flds : List (Text × ℕ)
flds = (codes "Front", 0) ∷ (codes "Back", 1) ∷ []

-- The note's second text goes to the first field, and its third to the tags.
abbrev mapping : List (Option Text)
mapping = some (codes "Back") ∷ some (codes "Front") ∷ some (codes "_tags") ∷ []

abbrev settings : Settings
settings = record {
  allow_html = false;
  import_mode = ImportMode.ignore;
  mapping = mapping;
  tag_modified = none;
  mid = 5;
  flds = flds;
}

abbrev stored : List StoredNote
stored =
    record {
      id = 40;
      guid = codes "g";
      mid = 5;
      mod_time = 1;
      usn = pos 0;
      tags = [];
      flds = codes "dog" ++ 31 ∷ codes "Hund";
      csum = 3;
    }
    ∷ []

abbrev foreign_note : Text → Text → ForeignNote
foreign_note front back = record {
  fields = back ∷ front ∷ codes "verb b" ∷ [];
  tags = [];
  cards = [];
  fields_str = [];
}

abbrev foreign : List ForeignNote
foreign =
    foreign_note (codes "dog") (codes "chien") ∷ foreign_note (codes "cat") (codes "chat") ∷ []

markup_is_kept : clean_field text_env.is_space false (codes " <b>a") ≡ codes " <b>a"
unfolding clean_field break_lines
markup_is_kept = refl

-- The texts of the notes, and how many were added, left alone and touched.
abbrev summary : Outcome → List Text × ℕ × ℤ × ℕ
summary out = (map (λ n. n.flds) out.notes, out.added, out.unchanged, out.total)

-- The dog is known, and the cat is added.
cat_is_added :
    Option.map summary
      (import_notes (λ ids cards. cards) (λ cards. cards) text_env settings 1000 foreign stored [])
    ≡ some
        ((codes "dog" ++ 31 ∷ codes "Hund") ∷ (codes "cat" ++ 31 ∷ codes "chat") ∷ [], 1, pos 1, 1)
unfolding import_notes index_of import_each import_one import_cleaned find_duplicates duplicate
    new_data ids_with stored_note tags_mapped is_tags finish add_new without add_updates
    update_cards unchanged_count process_fields process_entries process_entry empty_fields set_field
    field_ord clean_field break_lines same has_text split_fields join_fields split_on join_with
    timestamp_id next_free skip_used base91 base62 digits_of Tags.split Tags.join
cat_is_added = refl

clean_field-marks_example :
    clean_field text_env.is_space false (codes "<b>a & b</b>" ++ 10 ∷ codes " c>")
    ≡ join_with (codes "<br>") (split_on 10 (codes "<b>a & b</b>" ++ 10 ∷ codes " c>"))
clean_field-marks_example =
    clean_field-marks text_env.is_space (codes "<b>a & b</b>" ++ 10 ∷ codes " c>")

process_entries-stores_example :
    IfSome
      (λ out. get_elem? out.1 0 ≡ some (codes "dog"))
      (process_entries flds
        (foreign_note (codes "dog") (codes "chien")).fields
        0
        mapping
        ([], [] ∷ [] ∷ []))
unfolding field_ord same
process_entries-stores_example =
    process_entries-stores flds (foreign_note (codes "dog") (codes "chien")).fields 0 0
      (some (codes "Back") ∷ []) (codes "Front") (some (codes "_tags") ∷ []) [] ([] ∷ [] ∷ []) refl
      refl refl ((λ h. cc h), tt)

import_notes-KeepsNotes_example :
    IfSome
      (KeepsNotes ImportMode.ignore 1000 stored)
      (import_notes (λ ids cards. cards) (λ cards. cards) text_env settings 1000 foreign stored [])
import_notes-KeepsNotes_example =
    import_notes-KeepsNotes (λ ids cards. cards) (λ cards. cards) text_env settings 1000 foreign
      stored [] (omega arith)
