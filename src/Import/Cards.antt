-- ===== src/Import/Cards.antt =====
-- `_importCards` of pylib/anki/importing/anki2.py: the cards of another collection and their reviews.
-- The number of a deck is converted by `_did`, which is the argument `did_of`.
pub mod Fresh
pub mod Due
use anki.Prelude.{
  ℕ, suc, Bool, true, false, ◌||◌, ◌&&◌, Option, none, some, List, [], ◌∷◌, ◌++◌, ◌+◌, map,
  contains, ◌==◌, if◌then◌else◌,
}
use anki.Prelude.Int.{ℤ, pos, ◌-ℤ◌, truthy}
use anki.Prelude.Text.{Text, same, has_text}
use anki.Scheduler.Card.{CardType, CardQueue, queue_of_type}
use anki.Utils.{next_free}
use anki.Import.Notes.{Known, known}

-- A row of `cards`; the columns that are only copied are left out.
pub record CardRow : Type 0 where
  pub id : ℕ
  pub nid : ℕ
  pub did : ℕ
  pub ord : ℕ
  pub mod_time : ℕ
  pub usn : ℤ
  pub type : CardType
  pub queue : CardQueue
  pub due : ℤ
  pub odue : ℤ
  pub odid : ℕ

-- A row of the query on the source: the guid of the note, and the card.
pub record SourceCard : Type 0 where
  pub guid : Text
  pub card : CardRow

-- A row of `revlog`, likewise.
pub record RevlogRow : Type 0 where
  pub id : ℕ
  pub cid : ℕ
  pub usn : ℤ

-- A card of the target: the guid of its note, its template and its id.
pub record Present : Type 0 where
  pub guid : Text
  pub ord : ℕ
  pub id : ℕ

-- `(guid, ord) in self._cards`
unfoldable pub is_present : Text → ℕ → List Present → Bool
is_present guid ord [] = false
is_present guid ord (p ∷ ps) = (same p.guid guid && p.ord == ord) || is_present guid ord ps

-- `card[7] in (QUEUE_TYPE_REV, QUEUE_TYPE_DAY_LEARN_RELEARN) or card[6] == CARD_TYPE_REV`
unfoldable pub has_due_day : CardType → CardQueue → Bool
has_due_day CardType.rev queue = true
has_due_day type CardQueue.rev = true
has_due_day type CardQueue.day_learn_relearn = true
has_due_day type queue = false

unfoldable pub is_learning : CardType → Bool
is_learning CardType.lrn = true
is_learning CardType.new = false
is_learning CardType.rev = false
is_learning CardType.relearning = false

unfoldable pub shift_due : ℤ → CardRow → CardRow
shift_due ahead_by c =
    if has_due_day c.type c.queue then record c { due = c.due -ℤ ahead_by } else c

unfoldable pub shift_odue : ℤ → CardRow → CardRow
shift_odue ahead_by c = if truthy c.odue then record c { odue = c.odue -ℤ ahead_by } else c

-- From a filtered deck to a normal one.
unfoldable pub to_normal_deck : CardRow → CardRow
to_normal_deck c = if c.odid == 0 then c else record c {
  odid = 0;
  due = c.odue;
  odue = pos 0;
  queue = if is_learning c.type then CardQueue.new else queue_of_type c.type;
  type = if is_learning c.type then CardType.new else c.type;
}

unfoldable pub convert_card : ℤ → CardRow → CardRow
unfolding to_normal_deck shift_odue shift_due
convert_card ahead_by c = to_normal_deck (shift_odue ahead_by (shift_due ahead_by c))

-- What the loop builds, with the state of `_did`.
pub record CardImport (S : Type 0) : Type 0 where
  pub decks : S
  pub existing : List ℕ
  pub cards : List CardRow
  pub revlog : List RevlogRow
  pub cnt : ℕ

-- What the loop reads: the notes and guids that `_importNotes` left, the cards and the number of the
-- target, the reviews of the source, how many days it is ahead, and the clock at each card.
pub record CardSource : Type 0 where
  pub notes : List Known
  pub ignored_guids : List Text
  pub present : List Present
  pub usn : ℤ
  pub reviews : List RevlogRow
  pub ahead_by : ℤ
  pub now : ℕ → ℕ

-- The reviews of a card, for its new id.
unfoldable pub reviews_of : ℕ → ℕ → ℤ → List RevlogRow → List RevlogRow
reviews_of scid id usn [] = []
reviews_of scid id usn (rev ∷ revs) =
    let rest = reviews_of scid id usn revs in
    if rev.cid == scid then record rev { cid = id; usn = usn } ∷ rest else rest

module _ {S : Type 0} (did_of : ℕ → S → Option (ℕ × S)) (source : CardSource) where
  -- A card that is not there yet, of the note with this id.
  unfoldable pub add_card : ℕ → CardRow → CardImport S → Option (CardImport S)
  add_card nid card st =
      let id = next_free 999 card.id st.existing in
      elim (did_of card.did st.decks) [
        | none ↦ none
        | some (did, decks) ↦
            let row = convert_card source.ahead_by (record card {
              id = id;
              nid = nid;
              did = did;
              mod_time = source.now st.cnt;
              usn = source.usn;
            }) in
            some (record {
              decks = decks;
              existing = st.existing ++ id ∷ [];
              cards = st.cards ++ row ∷ [];
              revlog = st.revlog ++ reviews_of card.id row.id source.usn source.reviews;
              cnt = suc st.cnt;
            })
      ]

  unfoldable pub import_card : SourceCard → CardImport S → Option (CardImport S)
  import_card c st =
      if has_text c.guid source.ignored_guids then some st else elim (known c.guid source.notes) [
        | none ↦ some st
        | some note ↦
            if is_present c.guid c.card.ord source.present
            then some st
            else add_card note.id c.card st
      ]

  unfoldable pub import_card_rows : List SourceCard → CardImport S → Option (CardImport S)
  import_card_rows [] st = some st
  import_card_rows (c ∷ cs) st = elim (import_card c st) [
    | none ↦ none
    | some st' ↦ import_card_rows cs st'
  ]

  unfoldable pub begin_cards : S → CardImport S
  begin_cards decks = record {
    decks = decks;
    existing = map (λ p. p.id) source.present;
    cards = [];
    revlog = [];
    cnt = 0;
  }

-- `insert or ignore into …`, of rows one after the other
module _ {A : Type 0} (id_of : A → ℕ) where
  unfoldable pub insert_or_ignore : List A → List A → List A
  insert_or_ignore [] table = table
  insert_or_ignore (row ∷ rows) table =
      insert_or_ignore rows
        (if contains (id_of row) (map id_of table) then table else table ++ row ∷ [])

-- `_importCards`: the tables `cards` and `revlog` of the target, and the state of `_did`
unfoldable pub import_cards :
    {S : Type 0}
    → (ℕ → S → Option (ℕ × S))
    → CardSource
    → List SourceCard
    → S
    → List CardRow
    → List RevlogRow
    → Option (List CardRow × List RevlogRow × S)
import_cards did_of source rows decks cards revlog =
    elim (import_card_rows did_of source rows (begin_cards did_of source decks)) [
      | none ↦ none
      | some st ↦ some (
        insert_or_ignore (λ c. c.id) st.cards cards,
        insert_or_ignore (λ r. r.id) st.revlog revlog,
        st.decks,
      )
    ]
