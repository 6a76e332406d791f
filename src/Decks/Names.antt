-- ===== src/Decks/Names.antt =====
-- A deck's name, its parts and the name of its parent.
use anki.Prelude.{
  ◌&&◌, none, some, List, [], ◌∷◌, ◌++◌, ◌≡◌, ◌⊎◌, inl, inr, refl, ap, sym, ◌∙◌, ◌==◌, Bool-cases,
  arith,
}
use anki.Prelude.Text.{Text, join_with, join_with-attach}
use anki.Decks.{colons, path, last_of, but_last, basename, immediate_parent_path, immediate_parent}
use mathlib.Core.List.{append_assoc}

path-cons : (name : Text) → (p : Text) × (ps : List Text) × (path name ≡ p ∷ ps)
unfolding path
path-cons [] = ([], [], refl)
path-cons (c ∷ []) = (c ∷ [], [], refl)
path-cons (c ∷ d ∷ s) =
    let (p, ps, e) = path-cons (d ∷ s) in
    elim (Bool-cases (c == 58 && d == 58)) [
      | inl h ↦ ([], path s, ground (arith, h))
      | inr h ↦ (c ∷ p, ps, ground (arith, h, e))
    ]

-- Joining the parts of a name gives the name.
pub join_with-path : (name : Text) → join_with colons (path name) ≡ name
unfolding path join_with
join_with-path [] = refl
join_with-path (c ∷ []) = refl
join_with-path (c ∷ d ∷ s) =
    let (p, ps, e) = path-cons (d ∷ s) in
    let (q, qs, f) = path-cons s in
    elim (Bool-cases (c == 58 && d == 58)) [
      | inl h ↦ ground (arith, h, f, join_with-path s)
      | inr h ↦ ground (arith, h, e, join_with-path (d ∷ s), join_with-attach colons c p ps)
    ]

-- A path with a parent: the parts before the last, and the last.
join_with-split :
    (p q : Text) (ps : List Text)
    → join_with colons (p ∷ q ∷ ps)
      ≡ join_with colons (p ∷ but_last (q ∷ ps)) ++ (colons ++ last_of (q ∷ ps))
unfolding join_with
join_with-split p q [] = refl
join_with-split p q (r ∷ ps) =
    let init = join_with colons (q ∷ but_last (r ∷ ps)) in
    let last = colons ++ last_of (r ∷ ps) in
    ap (λ (rest : Text). p ++ (colons ++ rest)) (join_with-split q r ps)
    ∙ sym (append_assoc p (colons ++ init) last)

abbrev IsNamed : Text → Type 0
IsNamed name =
    ((immediate_parent name ≡ none) × (basename name ≡ name))
    ⊎ ((parent : Text) × (immediate_parent name ≡ some parent)
        × (name ≡ parent ++ (colons ++ basename name)))

path-IsNamed : (name p : Text) (ps : List Text) → path name ≡ p ∷ ps → IsNamed name
unfolding immediate_parent immediate_parent_path basename join_with
path-IsNamed name p [] e = inl (ground (arith, e), ground (arith, e, join_with-path name))
path-IsNamed name p (q ∷ ps) e = inr (
  join_with colons (p ∷ but_last (q ∷ ps)),
  ground (arith, e),
  ground (arith, e, join_with-path name, join_with-split p q ps),
)

-- A deck's name is its base name, or the name of its parent, two colons and its base name.
immediate_parent_lem :
    (name : Text)
    → ((immediate_parent name ≡ none) × (basename name ≡ name))
      ⊎ ((parent : Text) × (immediate_parent name ≡ some parent)
          × (name ≡ parent ++ (colons ++ basename name)))
immediate_parent_lem name = let (p, ps, e) = path-cons name in path-IsNamed name p ps e
