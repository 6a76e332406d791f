-- ===== src/Import/Foreign/Run.antt =====
-- `importNotes` of pylib/anki/importing/noteimp.py, with `newData`, `updateData`, `addNew`,
-- `addUpdates` and `updateCards`, on the tables `notes` and `cards`.
pub mod Kept
use anki.Prelude.{
  ℕ, zero, suc, Bool, true, false, not, ◌&&◌, ◌||◌, Option, none, some, List, [], ◌∷◌, ◌++◌, ◌+◌,
  map, select, non_empty, get_elem?, length, ◌==◌, if◌then◌else◌,
}
use anki.Prelude.Int.{ℤ, pos, ◌-ℤ◌}
use anki.Prelude.Text.{Text, same, has_text}
use anki.Scheduler.Card.{CardType, CardQueue}
use anki.Utils.{base91, split_fields, timestamp_id}
use anki.Tags as Tags
use anki.Import.Foreign.{
  ForeignCard, ForeignNote, ImportMode, TextEnv, Settings, clean_field, words, tags_field,
  process_fields,
}

-- A row of `notes`.
pub record StoredNote : Type 0 where
  pub id : ℕ
  pub guid : Text
  pub mid : ℕ
  pub mod_time : ℕ
  pub usn : ℤ
  pub tags : Text
  pub flds : Text
  pub csum : ℕ

-- The columns of `cards` that an import sets, and the two that select the row.
pub record StoredCard : Type 0 where
  pub nid : ℕ
  pub ord : ℕ
  pub type : CardType
  pub queue : CardQueue
  pub ivl : ℕ
  pub due : ℤ
  pub factor : ℕ
  pub reps : ℕ
  pub lapses : ℕ

-- A row for `addUpdates`; `tags` is there if tags are mapped or `tagModified` is set.
pub record Update : Type 0 where
  pub mod_time : ℕ
  pub usn : ℤ
  pub flds : Text
  pub tags : Option Text
  pub id : ℕ

pub data Message : Type 0 where
  empty_first_field : List Text → Message
  appeared_twice first_field_matched added_duplicate : Text → Message

-- What the loop changes.
pub record Progress : Type 0 where
  pub next_id : ℕ
  pub ids : List ℕ
  pub cards : List (ℕ × ℕ × ForeignCard)
  pub firsts : List Text
  pub updates : List Update
  pub new : List StoredNote
  pub dupe_count : ℕ
  pub dupes : List Text
  pub log : List Message
  pub update_log : List Message

-- `f == "_tags"` of an entry of the mapping
unfoldable pub is_tags : Option Text → Bool
is_tags none = false
is_tags (some f) = same f tags_field

unfoldable pub tags_mapped : List (Option Text) → Bool
tags_mapped [] = false
tags_mapped (f ∷ mapping) = is_tags f || tags_mapped mapping

-- `mapping.index(name)`
unfoldable pub index_of : Text → List (Option Text) → Option ℕ
index_of name [] = none
index_of name (f ∷ mapping) =
    let later = index_of name mapping in
    let further : Option ℕ = elim later [ none ↦ none | some i ↦ some (suc i) ] in
    elim f [ none ↦ further | some g ↦ if same g name then some 0 else further ]

-- `select flds from notes where id = ?`
unfoldable pub stored_note : ℕ → List StoredNote → Option StoredNote
stored_note id [] = none
stored_note id (n ∷ ns) = if n.id == id then some n else stored_note id ns

-- `csums[csum]`: the notes of the note type with a checksum
unfoldable pub ids_with : ℕ → ℕ → List StoredNote → List ℕ
ids_with mid csum [] = []
ids_with mid csum (n ∷ ns) =
    let rest = ids_with mid csum ns in if n.mid == mid && n.csum == csum then n.id ∷ rest else rest

-- The cards of a new note, each with the note's id.
abbrev number_cards : ℕ → List (ℕ × ForeignCard) → List (ℕ × ℕ × ForeignCard)
number_cards id [] = []
number_cards id ((ord, c) ∷ cs) = (id, ord, c) ∷ number_cards id cs

-- `self.importMode == ADD_MODE`
abbrev pub is_add : ImportMode → Bool
is_add ImportMode.add = true
is_add ImportMode.update = false
is_add ImportMode.ignore = false

module _ (env : TextEnv) (settings : Settings) where
  -- `newData`, and the row is added to `new`
  unfoldable pub new_data : ForeignNote → Progress → Option Progress
  new_data n st = elim (process_fields env settings n []) [
    | none ↦ none
    | some n' ↦
        let id = st.next_id in
        let row : StoredNote = record {
          id = id;
          guid = base91 (env.random (length st.ids));
          mid = settings.mid;
          mod_time = env.now (length st.ids);
          usn = env.usn;
          tags = Tags.join n'.tags;
          flds = n'.fields_str;
          csum = 0;
        } in
        some (record st {
          next_id = st.next_id + 1;
          ids = st.ids ++ id ∷ [];
          cards = st.cards ++ number_cards id n'.cards;
          new = st.new ++ row ∷ [];
        })
  ]

  -- The tags of an update.
  unfoldable pub updated_tags : ForeignNote → Text → Option Text
  updated_tags n old =
      if tags_mapped settings.mapping then some (Tags.join n.tags) else elim settings.tag_modified [
        | none ↦ none
        | some modified ↦
            if non_empty modified
            then some (Tags.join (Tags.split old ++ words env.is_space modified))
            else none
      ]

  -- `updateData`, and what is done with its result
  unfoldable pub update_data :
      Text → ForeignNote → StoredNote → List Text → Progress → Option (ForeignNote × Progress)
  update_data fld0 n stored sflds st = elim (process_fields env settings n sflds) [
    | none ↦ none
    | some n' ↦
        let row : Update = record {
          mod_time = env.now (length st.ids);
          usn = env.usn;
          flds = n'.fields_str;
          tags = updated_tags n' stored.tags;
          id = stored.id;
        } in
        some (
          n',
          record st {
            ids = st.ids ++ stored.id ∷ [];
            updates = st.updates ++ row ∷ [];
            update_log = st.update_log ++ Message.first_field_matched fld0 ∷ [];
            dupe_count = suc st.dupe_count;
          },
        )
  ]

  -- A note of the collection that has the same first field: whether that is a reason not to add.
  unfoldable pub duplicate :
      ImportMode
      → Text
      → ForeignNote
      → StoredNote
      → List Text
      → Progress
      → Option (Bool × ForeignNote × Progress)
  duplicate ImportMode.update fld0 n stored sflds st = elim (update_data fld0 n stored sflds st) [
    | none ↦ none
    | some (n', st') ↦ some (true, n', st')
  ]
  duplicate ImportMode.ignore fld0 n stored sflds st =
      some (true, n, record st { dupe_count = suc st.dupe_count })
  duplicate ImportMode.add fld0 n stored sflds st = some (
    false,
    n,
    (if has_text fld0 st.dupes then st else record st {
      update_log = st.update_log ++ Message.added_duplicate fld0 ∷ [];
      dupes = st.dupes ++ fld0 ∷ [];
    }),
  )

  -- The loop over the notes with the same checksum.
  unfoldable pub find_duplicates :
      List StoredNote
      → Text
      → List ℕ
      → Bool × ForeignNote × Progress
      → Option (Bool × ForeignNote × Progress)
  find_duplicates table fld0 [] out = some out
  find_duplicates table fld0 (id ∷ ids) (found, n, st) = elim (stored_note id table) [
    | none ↦ none
    | some stored ↦ elim (split_fields stored.flds) [
      | [] ↦ none
      | first ∷ rest ↦
          if not (same fld0 first)
          then find_duplicates table fld0 ids (found, n, st)
          else elim (duplicate settings.import_mode fld0 n stored (first ∷ rest) st) [
            | none ↦ none
            | some out ↦ find_duplicates table fld0 ids out
          ]
    ]
  ]

  -- One round of the loop over the notes, from the first field on.
  unfoldable pub import_cleaned : List StoredNote → Text → ForeignNote → Progress → Option Progress
  import_cleaned table fld0 n st =
      if not (non_empty fld0)
      then some (record st { log = st.log ++ Message.empty_first_field n.fields ∷ [] })
      else if has_text fld0 st.firsts && not (is_add settings.import_mode)
      then some (record st { log = st.log ++ Message.appeared_twice fld0 ∷ [] })
      else let csum = env.field_checksum fld0 in
        let st₁ = record st { firsts = st.firsts ++ fld0 ∷ [] } in
        elim (find_duplicates table fld0 (ids_with settings.mid csum table) (false, n, st₁)) [
          | none ↦ none
          | some (found, n', st₂) ↦ if found then some st₂ else new_data n' st₂
        ]

  -- `fld0idx` is the place of the first field in the notes.
  unfoldable pub import_one : List StoredNote → ℕ → ForeignNote → Progress → Option Progress
  import_one table fld0idx n st =
      let fields = map (clean_field env.is_space settings.allow_html) n.fields in
      elim (get_elem? fields fld0idx) [
        | none ↦ none
        | some first ↦ import_cleaned table (env.nfc first) (record n { fields = fields }) st
      ]

  unfoldable pub import_each : List StoredNote → ℕ → List ForeignNote → Progress → Option Progress
  import_each table fld0idx [] st = some st
  import_each table fld0idx (n ∷ ns) st = elim (import_one table fld0idx n st) [
    | none ↦ none
    | some st' ↦ import_each table fld0idx ns st'
  ]

  abbrev pub start_progress : ℕ → Progress
  start_progress next_id = record {
    next_id = next_id;
    ids = [];
    cards = [];
    firsts = [];
    updates = [];
    new = [];
    dupe_count = 0;
    dupes = [];
    log = [];
    update_log = [];
  }

-- `insert or replace into notes`: a row of the same id goes, and the new one is put behind.
unfoldable pub without : ℕ → List StoredNote → List StoredNote
without id [] = []
without id (n ∷ ns) = let rest = without id ns in if n.id == id then rest else n ∷ rest

unfoldable pub add_new : List StoredNote → List StoredNote → List StoredNote
add_new [] table = table
add_new (row ∷ rows) table = add_new rows (without row.id table ++ row ∷ [])

-- `where id = ? and (flds != ? or tags != ?)`, or without the tags
unfoldable pub is_changed : Bool → Update → StoredNote → Bool
is_changed with_tags u n =
    not (same n.flds u.flds)
    || (with_tags && elim u.tags [ none ↦ false | some tags ↦ not (same n.tags tags) ])

unfoldable pub apply_update : Bool → Update → StoredNote → StoredNote
apply_update with_tags u n =
    if n.id == u.id && is_changed with_tags u n
    then record n {
      mod_time = u.mod_time;
      usn = u.usn;
      flds = u.flds;
      tags = elim u.tags [ none ↦ n.tags | some tags ↦ tags ];
    }
    else n

unfoldable pub count_changes : Bool → Update → List StoredNote → ℕ
count_changes with_tags u [] = 0
count_changes with_tags u (n ∷ ns) =
    (if n.id == u.id && is_changed with_tags u n then 1 else 0) + count_changes with_tags u ns

-- `addUpdates`: the table, and `updateCount`
unfoldable pub add_updates : Bool → List Update → List StoredNote → ℕ → List StoredNote × ℕ
add_updates with_tags [] table count = (table, count)
add_updates with_tags (u ∷ us) table count =
    add_updates with_tags us (map (apply_update with_tags u) table)
      (count + count_changes with_tags u table)

-- `updateCards`
unfoldable pub update_card : ℕ × ℕ × ForeignCard → StoredCard → StoredCard
update_card (nid, ord, c) card =
    if card.nid == nid && card.ord == ord
    then record card {
      type = CardType.rev;
      queue = CardQueue.rev;
      ivl = c.ivl;
      due = c.due;
      factor = c.factor;
      reps = c.reps;
      lapses = c.lapses;
    }
    else card

unfoldable pub update_cards : List (ℕ × ℕ × ForeignCard) → List StoredCard → List StoredCard
update_cards [] cards = cards
update_cards (c ∷ cs) cards = update_cards cs (map (update_card c) cards)

-- What an import leaves: the tables and the numbers of the summary.
pub record Outcome : Type 0 where
  pub notes : List StoredNote
  pub cards : List StoredCard
  pub progress : Progress
  pub added : ℕ
  pub updated : ℕ
  pub unchanged : ℤ
  pub total : ℕ

unfoldable pub unchanged_count : ImportMode → ℕ → ℕ → ℤ
unchanged_count ImportMode.update dupes updated = pos dupes -ℤ pos updated
unchanged_count ImportMode.ignore dupes updated = pos dupes
unchanged_count ImportMode.add dupes updated = pos 0

-- The backend's `after_note_updates` gives the notes their cards and checksums, and its
-- `randomize_cards` shuffles new ones: what they do to the cards is `generate` and `shuffle`.
module _ (generate : List ℕ → List StoredCard → List StoredCard)
    (shuffle : List StoredCard → List StoredCard) where
  -- From the loop on.
  unfoldable pub finish : Settings → List StoredNote → List StoredCard → Progress → Outcome
  finish settings notes cards st =
      let (notes', updated) =
        add_updates (tags_mapped settings.mapping) st.updates (add_new st.new notes) 0 in
      record {
        notes = notes';
        cards = shuffle (update_cards st.cards (generate st.ids cards));
        progress = st;
        added = length st.new;
        updated = updated;
        unchanged = unchanged_count settings.import_mode st.dupe_count updated;
        total = length st.ids;
      }

  -- `importNotes`; `none` where it raises. A mapping without the first field is refused.
  unfoldable pub import_notes :
      TextEnv → Settings → ℕ → List ForeignNote → List StoredNote → List StoredCard → Option Outcome
  import_notes env settings now_ms foreign notes cards = elim settings.flds [
    | [] ↦ none
    | (first, ord) ∷ flds ↦ elim (index_of first settings.mapping) [
      | none ↦ none
      | some fld0idx ↦
          let next_id = timestamp_id now_ms (map (λ n. n.id) notes) in
          elim (import_each env settings notes fld0idx foreign
            (start_progress env settings next_id)) [
              | none ↦ none
              | some st ↦ some (finish settings notes cards st)
            ]
    ]
  ]
