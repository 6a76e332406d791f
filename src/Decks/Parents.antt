-- ===== src/Decks/Parents.antt =====
-- Which decks `parents` and `parents_by_name` look up.
use anki.Prelude.{
  none, some, List, [], ◌∷◌, ◌++◌, ◌≡◌, refl, ap, sym, ◌∙◌, Option-cases, Bool-cases, false, inl,
  inr, arith,
}
use anki.Prelude.Text.{Text, join_with}
use anki.Decks.{
  Backend, DeckDict, colons, path, holds_colons, immediate_parent_path, names_below, parents_names,
  by_name, parents_from, parents_by_name,
}
use mathlib.Core.List.{append_assoc}

-- The join of some parts and one more.
join_with-snoc :
    (h : Text) (hs : List Text) (name : Text)
    → join_with colons (h ∷ (hs ++ name ∷ [])) ≡ join_with colons (h ∷ hs) ++ (colons ++ name)
unfolding join_with
join_with-snoc h [] name = refl
join_with-snoc h (k ∷ hs) name =
    ap (λ (rest : Text). h ++ (colons ++ rest)) (join_with-snoc k hs name)
    ∙ sym (append_assoc h (colons ++ join_with colons (k ∷ hs)) (colons ++ name))

path-plain : (name : Text) → holds_colons name ≡ false → path name ≡ name ∷ []
unfolding holds_colons path
path-plain [] h = refl
path-plain (c ∷ []) h = refl
path-plain (c ∷ d ∷ s) h = ground (arith, h, path-plain (d ∷ s))

module _ {S : Type 0} (backend : Backend S) (s : S) where
  -- The decks that there are, of the names.
  abbrev pub existing : List Text → List DeckDict
  existing [] = []
  existing (name ∷ names) =
      let rest = existing names in
      elim (by_name backend name s) [ some deck ↦ deck ∷ rest | none ↦ rest ]

  parents_from-existing :
      (h : Text) (hs names : List Text)
      → parents_from backend (h ∷ hs) names s
        ≡ existing (names_below (join_with colons (h ∷ hs)) names)
  unfolding parents_from names_below
  parents_from-existing h hs [] = refl
  parents_from-existing h hs (name ∷ names) =
      let below = join_with colons (h ∷ hs) ++ (colons ++ name) in
      let e = join_with-snoc h hs name in
      elim (Option-cases (by_name backend below s)) [
        | inl n ↦ ground (arith, n, e, parents_from-existing h (hs ++ name ∷ []) names)
        | inr (deck, n) ↦ ground (arith, n, e, parents_from-existing h (hs ++ name ∷ []) names)
      ]

  -- `parents_by_name` gives, in order, the decks that there are of the names that `parents` goes
  -- through.
  pub parents_by_name-existing :
      (name : Text)
      → parents_by_name backend name s ≡ existing (parents_names (immediate_parent_path name))
  unfolding parents_by_name immediate_parent_path parents_names parents_from join_with
  parents_by_name-existing name = elim (Bool-cases (holds_colons name)) [
    | inl e ↦ rw e (start (immediate_parent_path name))
    | inr e ↦ ground (arith, e, path-plain name e)
  ]
    where
      start : (names : List Text) → parents_from backend [] names s ≡ existing (parents_names names)
      start [] = refl
      start (part ∷ parts) = elim (Option-cases (by_name backend part s)) [
        | inl n ↦ ground (arith, n, parents_from-existing part [] parts)
        | inr (deck, n) ↦ ground (arith, n, parents_from-existing part [] parts)
      ]
