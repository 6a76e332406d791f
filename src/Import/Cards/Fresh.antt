-- ===== src/Import/Cards/Fresh.antt =====
-- What `_importCards` adds to the tables.
use anki.Prelude.{
  ℕ, true, Option, List, [], ◌∷◌, ◌++◌, ◌≡◌, map, contains, IsDistinct, All, ◌⊎◌, some,
}
use anki.Import.Cards.{CardRow, SourceCard, RevlogRow, CardImport, CardSource}

abbrev pub ids_of : List CardRow → List ℕ
ids_of cards = map (λ c. c.id) cards

-- The review is of one of the cards.
abbrev pub IsOf : List CardRow → RevlogRow → Type 0
IsOf cards rev = contains rev.cid (ids_of cards) ≡ true

-- The card is one of the source's.
abbrev pub IsFrom : SourceCard → List SourceCard → Type 0
IsFrom c [] = ⊥
IsFrom c (row ∷ rows) = (c ≡ row) ⊎ IsFrom c rows

-- The card is of the template of a card of the source, in the deck that `_did` gave for that card's
-- deck, which is no filtered one to the card.
abbrev pub IsPlaced : {S : Type 0} → (ℕ → S → Option (ℕ × S)) → List SourceCard → CardRow → Type 0
IsPlaced {S} did_of rows row =
    (c : SourceCard) × (s : S) × (s' : S) × IsFrom c rows
    × (did_of c.card.did s ≡ some (row.did, s'))
    × (row.ord ≡ c.card.ord)
    × (row.odid ≡ 0)

module _ {S : Type 0} (did_of : ℕ → S → Option (ℕ × S)) (source : CardSource) (before : List ℕ)
    (whole : List SourceCard) where
  -- What holds all through the loop.
  abbrev Sound : CardImport S → Type 0
  Sound st =
      (st.existing ≡ before ++ ids_of st.cards)
      × IsDistinct st.existing
      × All (IsPlaced did_of whole) st.cards
      × All (IsOf st.cards) st.revlog

-- A table that is there, and rows with a property behind it.
abbrev pub Grows : (RevlogRow → Type 0) → List RevlogRow → List RevlogRow → Type 0
Grows P table table' = (added : List RevlogRow) × (table' ≡ table ++ added) × All P added

-- What the import may do to the two tables.
abbrev pub AreAdded :
    {S : Type 0}
    → (ℕ → S → Option (ℕ × S))
    → List SourceCard
    → List CardRow
    → List RevlogRow
    → List CardRow × List RevlogRow × S
    → Type 0
AreAdded did_of rows cards revlog out =
    (added : List CardRow) × (out.0 ≡ cards ++ added)
    × IsDistinct (ids_of out.0)
    × All (IsPlaced did_of rows) added
    × Grows (IsOf added) revlog out.1
