-- ===== src/Decks/Tests.antt =====
-- Names of decks and the tree of decks at work, and each theorem at an input.
use mathlib.Core.Option
use anki.Prelude.{
  length, if◌then◌else◌, ◌==◌, ◌+◌, false, ℕ, ◌≡◌, refl, Option, none, some, List, [], ◌∷◌, map,
}
use anki.Prelude.Text.{Text, codes, same, join_with}
use anki.Decks.{
  Backend, DeckDict, path, basename, immediate_parent, immediate_parent_path, parents,
  parents_by_name, parents_names, names_below, by_name, get, id_of, get_parents, TreeNode, node,
  leaf, child, find_deck_in_tree, holds_colons, parents_from,
}
use anki.Decks.Parents.{existing, parents_by_name-existing}
use anki.Decks.Tree.{IsFound, holds, find_deck_in_tree-IsFound}

abbrev deck : ℕ → Text → DeckDict
deck id name = record { id = id; name = name; conf = some 1; dyn = false; desc = [] }

-- A backend whose state is its list of decks.
abbrev deck_named : Text → List DeckDict → Option ℕ
deck_named name [] = none
deck_named name (d ∷ ds) = if same d.name name then some d.id else deck_named name ds

abbrev deck_numbered : ℕ → List DeckDict → Option DeckDict
deck_numbered id [] = none
deck_numbered id (d ∷ ds) = if d.id == id then some d else deck_numbered id ds

abbrev backend : Backend (List DeckDict)
backend = record {
  deck_id_by_name = deck_named;
  deck_legacy = deck_numbered;
  add_deck = λ name filtered ds. let id = 100 + length ds in (id, deck id name ∷ ds);
  deck_and_child_names = λ id ds. map (λ d. (d.name, d.id)) ds;
}

abbrev decks : List DeckDict
decks = deck 1 (codes "Default") ∷ deck 7 (codes "a") ∷ deck 9 (codes "a::b::c") ∷ []

base : basename (codes "a::b::c") ≡ codes "c"
unfolding basename path
base = refl

parent : immediate_parent (codes "a::b::c") ≡ some (codes "a::b")
unfolding immediate_parent immediate_parent_path path join_with
parent = refl

-- The missing parent is added.
parents_are_added :
    Option.map (λ r. map (Option.map (λ d. d.name)) r.0) (parents backend 9 decks)
    ≡ some (some (codes "a") ∷ some (codes "a::b") ∷ [])
unfolding parents get get_parents id_of parents_names names_below immediate_parent_path path same
parents_are_added = refl

only_existing_parents :
    map (λ d. d.name) (parents_by_name backend (codes "a::b::c") decks) ≡ codes "a" ∷ []
unfolding parents_by_name parents_from by_name immediate_parent_path path join_with same
    holds_colons
only_existing_parents = refl

abbrev deck_tree : TreeNode
deck_tree = node 0 (child (node 4 (child (node 7 leaf) leaf)) (child (node 9 leaf) leaf))

finds_grandchild : find_deck_in_tree deck_tree 7 ≡ some (node 7 leaf)
unfolding find_deck_in_tree
finds_grandchild = refl

parents_by_name-existing_example :
    parents_by_name backend (codes "a::b::c") decks
    ≡ existing backend decks (parents_names (immediate_parent_path (codes "a::b::c")))
parents_by_name-existing_example = parents_by_name-existing backend decks (codes "a::b::c")

find_deck_in_tree-IsFound_example : IsFound (holds deck_tree 7) 7 (find_deck_in_tree deck_tree 7)
find_deck_in_tree-IsFound_example = find_deck_in_tree-IsFound deck_tree 7
