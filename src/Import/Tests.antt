-- ===== src/Import/Tests.antt =====
-- An import of two notes, three cards and their decks, and each theorem at an input.
use anki.Prelude.{
  ℕ, suc, map, contains, ◌+◌, ◌≡◌, refl, arith, true, false, none, some, List, [], ◌∷◌, length,
  IfSome, inr, ◌==◌, if◌then◌else◌,
}
use anki.Prelude.Int.{pos, ◌-ℤ◌}
use anki.Prelude.Text.{Text, codes, same, split_on, join_with}
use anki.Scheduler.Card.{CardType, CardQueue}
use anki.Utils.{split_fields, join_fields, decimal}
use anki.Decks.{Backend, DeckDict}
use anki.Import.Media.{
  Files, data_of, has_file, put_file, Piece, MediaEnv, munge_media, munge_fields, transform_names,
  substitute, repl, local_name, write_dst_media,
}
use anki.Import.Media.Kept.{munge_media-Keeps}
use anki.Import.Notes.{NoteRow, Known, Model, Source, mid_of, begin, import_notes}
use anki.Import.Notes.Ids.{AreFresh, Returns, import_notes-AreFresh}
use anki.Import.Notes.Schemas.{Maps, mid_of-AreMapped}
use anki.Import.Decks.{DeckEnv, DeckImport, did_of}
use anki.Import.Decks.Recorded.{IsRecorded, did_of-IsRecorded}
use anki.Import.Cards.{CardRow, SourceCard, CardSource, convert_card}
use anki.Import.Cards.Due.{home_due, convert_card-keeps_delay}

-- A backend that holds the names of the decks, and answers with a nameless deck for a number that it
-- does not know.
abbrev deck : ℕ → Text → DeckDict
deck id name = record { id = id; name = name; conf = some 1; dyn = false; desc = [] }

abbrev deck_at : ℕ → List Text → DeckDict
deck_at id [] = deck 1 []
deck_at id (name ∷ names) = if id == suc (length names) then deck id name else deck_at id names

abbrev backend : Backend (List Text)
backend = record {
  deck_id_by_name = λ name names. none;
  deck_legacy = λ id names. some (deck_at id names);
  add_deck = λ name filtered names. (suc (length names), name ∷ names);
  deck_and_child_names = λ id names. [];
}

abbrev deck_env : DeckEnv (List Text) (List Text) ℕ
deck_env = record {
  src_backend = backend;
  dst_backend = backend;
  get_config = λ id names. some id;
  update_config = λ conf names. names;
  save_deck = λ d names. names;
  deck_prefix = [];
  now = 77;
}

abbrev decks : DeckImport (List Text) (List Text)
decks = record { src = codes "a::b" ∷ []; dst = []; decks = [] }

did_of-IsRecorded_example : IfSome (IsRecorded 1 decks) (did_of deck_env 5 1 decks)
did_of-IsRecorded_example = did_of-IsRecorded deck_env 5 1 decks

-- The sign for kelvin is the letter K to NFC.
abbrev kelvin : ℕ → ℕ
kelvin c = if c == 8490 then 75 else c

-- Every field is the name of a file.
abbrev media_env : MediaEnv
media_env = record {
  nfc = map kelvin;
  splitext = λ s. (s, []);
  replace = λ text old new. new;
  regexps = (λ text. Piece.found text text ∷ []) ∷ [];
  is_writable = λ s. true;
  src_data = λ s. if same s (codes "dog") then 1 ∷ 2 ∷ [] else [];
}

abbrev dog_of_target : Files
dog_of_target = (codes "dog", 9 ∷ []) ∷ []

-- The target's file of the name is another: the source's goes to a name of its own.
renames_media :
    munge_media media_env 5 (codes "dog") dog_of_target
    ≡ (codes "dog_5", (codes "dog", 9 ∷ []) ∷ (codes "dog_5", 1 ∷ 2 ∷ []) ∷ [])
unfolding munge_media munge_fields transform_names substitute repl local_name write_dst_media
    has_file data_of put_file same split_fields join_fields split_on join_with decimal
renames_media = refl

kelvin-IsOwnForm :
    (name other : Text) → contains 75 name ≡ false → map kelvin other ≡ name → other ≡ name
kelvin-IsOwnForm [] [] h e = refl
kelvin-IsOwnForm [] (d ∷ other) h e = ground (arith, e)
kelvin-IsOwnForm (c ∷ name) [] h e = ground (arith, e)
kelvin-IsOwnForm (c ∷ name) (d ∷ other) h e = ground (arith, h, e, kelvin-IsOwnForm name other)

munge_media-Keeps_example :
    data_of (codes "dog") (munge_media media_env 5 (codes "dog") dog_of_target).1 ≡ 9 ∷ []
unfolding data_of same
munge_media-Keeps_example =
    munge_media-Keeps media_env (codes "dog") 5 (codes "dog") dog_of_target
      (λ other e. kelvin-IsOwnForm (codes "dog") other refl e) refl

abbrev basic_type : Model
basic_type = record { id = 5; scm = codes "FrontBack"; mod_time = 10 }

abbrev source : Source
source = record {
  src_model = λ mid. if mid == 5 then some basic_type else none;
  munge_media = munge_media media_env;
  usn = pos 3;
  allow_update = true;
}

abbrev note : ℕ → Text → ℕ → NoteRow
note id guid mod_time = record {
  id = id;
  guid = guid;
  mid = 5;
  mod_time = mod_time;
  usn = pos 0;
  flds = codes "dog";
}

abbrev known_note : Known
known_note = record { guid = codes "g1"; id = 40; mod_time = 50; mid = 5 }

abbrev source_notes : List NoteRow
source_notes = note 40 (codes "g1") 60 ∷ note 40 (codes "g2") 60 ∷ []

import_notes-AreFresh_example :
    Returns
      (AreFresh (40 ∷ []))
      (import_notes source source_notes (known_note ∷ []) (40 ∷ []) (basic_type ∷ []) dog_of_target)
import_notes-AreFresh_example =
    import_notes-AreFresh source source_notes (known_note ∷ []) (40 ∷ []) (basic_type ∷ [])
      dog_of_target ((basic_type, refl), ((basic_type, refl), tt)) (refl, tt)

-- The target has the id with another schema.
abbrev other_type : Model
other_type = record basic_type { scm = codes "Text" }

mid_of-AreMapped_example : Maps source 5 (mid_of source 5 (begin [] [] (other_type ∷ []) []))
unfolding begin
mid_of-AreMapped_example = mid_of-AreMapped source 5 (begin [] [] (other_type ∷ []) []) tt

abbrev review_card : CardRow
review_card = record {
  id = 300;
  nid = 40;
  did = 1;
  ord = 0;
  mod_time = 9;
  usn = pos 0;
  type = CardType.rev;
  queue = CardQueue.rev;
  due = pos 120;
  odue = pos 0;
  odid = 0;
}

-- The same card in a filtered deck.
abbrev filtered_card : CardRow
filtered_card = record review_card { due = pos 0; odue = pos 120; odid = 8; ord = 1 }

-- Forty days lie between the two collections.
convert_card-keeps_delay_example :
    (convert_card (pos 100 -ℤ pos 60) filtered_card).due -ℤ pos 60
    ≡ home_due filtered_card -ℤ pos 100
convert_card-keeps_delay_example =
    convert_card-keeps_delay (pos 100) (pos 60) filtered_card refl (inr refl)

abbrev card_source : CardSource
card_source = record {
  notes = known_note ∷ [];
  ignored_guids = [];
  present = record { guid = codes "g0"; ord = 0; id = 300 } ∷ [];
  usn = pos 3;
  reviews = record { id = 1; cid = 300; usn = pos 0 } ∷ [];
  ahead_by = pos 40;
  now = λ n. 1000 + n;
}

abbrev source_cards : List SourceCard
source_cards =
    record { guid = codes "g1"; card = review_card }
    ∷ record { guid = codes "g1"; card = filtered_card }
    ∷ record { guid = codes "gone"; card = review_card }
    ∷ []
