-- ===== src/Decks.antt =====
-- `DeckManager` of pylib/anki/decks.py: names, parents, the search in the tree of decks, and the
-- decks that use a configuration. The backend holds the decks.
pub mod Names
pub mod Parents
pub mod Tree
mod Tests
use anki.Prelude.{
  ℕ, Bool, true, false, not, ◌&&◌, ◌||◌, Option, none, some, List, [], ◌∷◌, ◌++◌, map, select,
  non_empty, ◌==◌, if◌then◌else◌,
}
use anki.Prelude.Text.{Text, attach, join_with}

-- The keys of a deck that are read here. A filtered deck has no `conf`.
pub record DeckDict : Type 0 where
  pub id : ℕ
  pub name : Text
  pub conf : Option ℕ
  pub dyn : Bool
  pub desc : Text

-- The backend, with its state of type `S`.
pub record Backend (S : Type 0) : Type 0 where
  -- `get_deck_id_by_name`; `none` for its `NotFoundError`
  pub deck_id_by_name : Text → S → Option ℕ
  -- `get_deck_legacy`
  pub deck_legacy : ℕ → S → Option DeckDict
  -- a new deck of this name and kind, which is added
  pub add_deck : Text → Bool → S → ℕ × S
  -- `get_deck_and_child_names`
  pub deck_and_child_names : ℕ → S → List (Text × ℕ)

abbrev pub default_deck_id : ℕ
default_deck_id = 1

-- "::"
abbrev pub colons : Text
colons = 58 ∷ 58 ∷ []

-- `path`: `name.split("::")`
unfoldable pub path : Text → List Text
path [] = [] ∷ []
path (c ∷ []) = (c ∷ []) ∷ []
path (c ∷ d ∷ s) =
    let after = path s in
    let rest = path (d ∷ s) in if c == 58 && d == 58 then [] ∷ after else attach c rest

-- `xs[-1]`, of a list that is not empty
abbrev pub last_of : List Text → Text
last_of [] = []
last_of (x ∷ []) = x
last_of (x ∷ y ∷ xs) = last_of (y ∷ xs)

-- `xs[:-1]`
abbrev pub but_last : List Text → List Text
but_last [] = []
but_last (x ∷ []) = []
but_last (x ∷ y ∷ xs) = x ∷ but_last (y ∷ xs)

-- `"::" in name`
unfoldable pub holds_colons : Text → Bool
holds_colons [] = false
holds_colons (c ∷ []) = false
holds_colons (c ∷ d ∷ s) = let later = holds_colons (d ∷ s) in (c == 58 && d == 58) || later

unfoldable pub basename : Text → Text
basename name = last_of (path name)

unfoldable pub immediate_parent_path : Text → List Text
immediate_parent_path name = but_last (path name)

unfoldable pub immediate_parent : Text → Option Text
immediate_parent name = elim (immediate_parent_path name) [
  | [] ↦ none
  | part ∷ parts ↦ some (join_with colons (part ∷ parts))
]

-- The loop of `parents` that collects the names, each built on the one before.
unfoldable pub names_below : Text → List Text → List Text
names_below head [] = []
names_below head (part ∷ parts) =
    let name = head ++ (colons ++ part) in name ∷ names_below name parts

unfoldable pub parents_names : List Text → List Text
parents_names [] = []
parents_names (part ∷ parts) = part ∷ names_below part parts

-- `[name_id for name_id in name_ids if name_id[1] != did]`
unfoldable pub select_others : ℕ → List (Text × ℕ) → List (Text × ℕ)
select_others did [] = []
select_others did ((name, id) ∷ rest) =
    let others = select_others did rest in if id == did then others else (name, id) ∷ others

module _ {S : Type 0} (backend : Backend S) where
  -- `get`; the number 0 is no deck
  unfoldable pub get : ℕ → Bool → S → Option DeckDict
  get did default s =
      let fallback : Option DeckDict =
        if default then backend.deck_legacy default_deck_id s else none in
      if did == 0
      then fallback
      else elim (backend.deck_legacy did s) [ some deck ↦ some deck | none ↦ fallback ]

  unfoldable pub by_name : Text → S → Option DeckDict
  by_name name s = elim (backend.deck_id_by_name name s) [
    | none ↦ none
    | some id ↦ if id == 0 then none else backend.deck_legacy id s
  ]

  -- `id`: the deck of the name, which is added if it is missing
  unfoldable pub id_of : Text → Bool → S → ℕ × S
  id_of name filtered s = elim (backend.deck_id_by_name name s) [
    | some id ↦ if id == 0 then backend.add_deck name filtered s else (id, s)
    | none ↦ backend.add_deck name filtered s
  ]

  -- The second loop of `parents`, without a map of names. It may add decks.
  unfoldable pub get_parents : List Text → S → List (Option DeckDict) × S
  get_parents [] s = ([], s)
  get_parents (name ∷ names) s =
      let (id, s') = id_of name false s in
      let (rest, s'') = get_parents names s' in (get id true s' ∷ rest, s'')

  -- `parents`; `none` where the deck itself is not found
  unfoldable pub parents : ℕ → S → Option (List (Option DeckDict) × S)
  parents did s = elim (get did true s) [
    | none ↦ none
    | some deck ↦ some (get_parents (parents_names (immediate_parent_path deck.name)) s)
  ]

  -- The loop of `parents_by_name`, with the parts so far.
  unfoldable pub parents_from : List Text → List Text → S → List DeckDict
  parents_from head [] s = []
  parents_from head (name ∷ names) s =
      let head' = head ++ name ∷ [] in
      let rest = parents_from head' names s in
      elim (by_name (join_with colons head') s) [ some deck ↦ deck ∷ rest | none ↦ rest ]

  unfoldable pub parents_by_name : Text → S → List DeckDict
  parents_by_name name s =
      if not (holds_colons name) then [] else parents_from [] (immediate_parent_path name) s

  unfoldable pub children : ℕ → S → List (Text × ℕ)
  children did s = select_others did (backend.deck_and_child_names did s)

-- `remove_config`: the decks that are saved, each with the default configuration
unfoldable pub reset_config : ℕ → List DeckDict → List DeckDict
reset_config id [] = []
reset_config id (deck ∷ decks) =
    let rest = reset_config id decks in
    elim deck.conf [
      | none ↦ rest
      | some conf ↦ if conf == id then record deck { conf = some 1 } ∷ rest else rest
    ]

unfoldable pub decks_using_config : ℕ → List DeckDict → List ℕ
decks_using_config id [] = []
decks_using_config id (deck ∷ decks) =
    let rest = decks_using_config id decks in
    elim deck.conf [ none ↦ rest | some conf ↦ if conf == id then deck.id ∷ rest else rest ]

-- A node of the backend's tree of decks.
mutual
  pub data TreeNode : Type 0 where
    node : ℕ → Forest → TreeNode

  pub data Forest : Type 0 where
    leaf : Forest
    child : TreeNode → Forest → Forest

-- `find_deck_in_tree`, and its loop over the children
unfoldable mutual
  pub find_deck_in_tree : TreeNode → ℕ → Option TreeNode
  find_deck_in_tree (node id children) deck_id =
      let below = find_in_children children deck_id in
      if id == deck_id then some (node id children) else below

  pub find_in_children : Forest → ℕ → Option TreeNode
  find_in_children leaf deck_id = none
  find_in_children (child first rest) deck_id =
      let later = find_in_children rest deck_id in
      elim (find_deck_in_tree first deck_id) [ some match ↦ some match | none ↦ later ]
