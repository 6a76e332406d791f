-- ===== src/Decks/Tree.antt =====
-- The search in the tree of decks.
use anki.Prelude.{
  ℕ, Bool, true, false, ◌||◌, Option, none, some, ◌≡◌, ◌⊎◌, inl, inr, ◌==◌, Bool-cases, refl, arith,
}
use anki.Decks.{TreeNode, Forest, node, leaf, child, find_deck_in_tree, find_in_children}

-- Whether a node of the tree has the id.
unfoldable mutual
  pub holds : TreeNode → ℕ → Bool
  holds (node id children) deck_id = id == deck_id || some_holds children deck_id

  pub some_holds : Forest → ℕ → Bool
  some_holds leaf deck_id = false
  some_holds (child first rest) deck_id = holds first deck_id || some_holds rest deck_id

abbrev pub IsFound : Bool → ℕ → Option TreeNode → Type 0
IsFound held deck_id found =
    ((held ≡ true) × ((children : Forest) × (found ≡ some (node deck_id children))))
    ⊎ ((held ≡ false) × (found ≡ none))

mutual
  unfolding holds find_deck_in_tree

  find-IsFound :
      (tree : TreeNode) (deck_id : ℕ)
      → IsFound (holds tree deck_id) deck_id (find_deck_in_tree tree deck_id)
  find-IsFound (node id children) deck_id = elim (Bool-cases (id == deck_id)) [
    | inl e ↦ inl (ground (arith, e), (children, ground (arith, e)))
    | inr e ↦ elim (find_in_children-IsFound children deck_id) [
      | inl (h, (kids, f)) ↦ inl (ground (arith, e, h), (kids, ground (arith, e, f)))
      | inr (h, f) ↦ inr (ground (arith, e, h), ground (arith, e, f))
    ]
  ]

  find_in_children-IsFound :
      (children : Forest) (deck_id : ℕ)
      → IsFound (some_holds children deck_id) deck_id (find_in_children children deck_id)
  find_in_children-IsFound leaf deck_id = inr (refl, refl)
  find_in_children-IsFound (child first rest) deck_id = elim (find-IsFound first deck_id) [
    | inl (h, (kids, f)) ↦ inl (ground (arith, h), (kids, ground (arith, f)))
    | inr (h, f) ↦ elim (find_in_children-IsFound rest deck_id) [
      | inl (k, (kids, g)) ↦ inl (ground (arith, h, k), (kids, ground (arith, f, g)))
      | inr (k, g) ↦ inr (ground (arith, h, k), ground (arith, f, g))
    ]
  ]

-- The search finds a node with the id that is sought if the tree has one, and nothing otherwise.
pub find_deck_in_tree-IsFound :
    (tree : TreeNode) (deck_id : ℕ)
    → IsFound (holds tree deck_id) deck_id (find_deck_in_tree tree deck_id)
find_deck_in_tree-IsFound tree deck_id = find-IsFound tree deck_id
