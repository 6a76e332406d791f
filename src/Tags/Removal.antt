-- ===== src/Tags/Removal.antt =====
-- Texts of tags: what `split`, `join` and `rem_from_str` make of them.
use anki.Prelude.{
  ℕ, Bool, true, false, not, ◌&&◌, List, [], ◌∷◌, ◌++◌, ◌≡◌, refl, ap, subst, ◌∙◌, map, non_empty,
  select, contains, All, ◌==◌, Bool-cases, inl, inr, arith,
}
use mathlib.Core.List.{append_assoc}
use anki.Prelude.Text.{
  Text, AreFree, same, same_iff, same_refl, split_on, split_on-cons, join_with, split_on-append,
}
use anki.Tags.{
  plain_space, split, join, remove_first, remove_each, is_match, remove_matches, rem_from_str,
}

-- A tag is not empty and holds no space, of either kind.
abbrev pub IsTag : Text → Type 0
IsTag tag = (non_empty tag ≡ true) × (contains 32 tag ≡ false) × (contains 12288 tag ≡ false)

map-plain : (s : Text) → contains 12288 s ≡ false → map plain_space s ≡ s
map-plain [] h = refl
map-plain (c ∷ s) h = ground (arith, h, map-plain s)

-- The tags, each with a space behind it.
abbrev spaced : List Text → Text
spaced [] = []
spaced (tag ∷ tags) = tag ++ 32 ∷ spaced tags

plain-append : (s t : Text) → map plain_space (s ++ t) ≡ map plain_space s ++ map plain_space t
plain-append [] t = refl
plain-append (c ∷ s) t = ap (λ (r : Text). plain_space c ∷ r) (plain-append s t)

plain-spaced : (tags : List Text) → All IsTag tags → map plain_space (spaced tags) ≡ spaced tags
plain-spaced [] h = refl
plain-spaced (tag ∷ tags) h =
    ground (arith, plain-append tag (32 ∷ spaced tags), map-plain tag h.0.2, plain-spaced tags h.1)

select-spaced :
    (tags : List Text) → All IsTag tags → select non_empty (split_on 32 (spaced tags)) ≡ tags
unfolding split_on
select-spaced [] h = refl
select-spaced (tag ∷ tags) h =
    ground (arith, split_on-append 32 tag (spaced tags) h.0.1, h.0.0, select-spaced tags h.1)

join_with-spaced :
    (tag : Text) (tags : List Text)
    → join_with (32 ∷ []) (tag ∷ tags) ++ 32 ∷ [] ≡ spaced (tag ∷ tags)
unfolding join_with
join_with-spaced tag [] = refl
join_with-spaced tag (next ∷ tags) =
    let rest = join_with (32 ∷ []) (next ∷ tags) in
    append_assoc tag (32 ∷ rest) (32 ∷ [])
    ∙ ap (λ (r : Text). tag ++ 32 ∷ r) (join_with-spaced next tags)

-- Splitting a join of tags gives the tags, if none is empty or holds a space.
pub split-join : (tags : List Text) → All IsTag tags → split (join tags) ≡ tags
unfolding split join split_on
split-join [] h = refl
split-join (tag ∷ tags) h =
    rw (join_with-spaced tag tags, plain-spaced (tag ∷ tags) h)
      (ground (arith, select-spaced (tag ∷ tags) h))

All-select :
    (P : Text → Type 0) (p : Text → Bool) (tags : List Text) → All P tags → All P (select p tags)
All-select P p [] h = tt
All-select P p (tag ∷ tags) h = elim (Bool-cases (p tag)) [
  | inl e ↦ rw (e, All) (h.0, All-select P p tags h.1)
  | inr e ↦ rw (e, All) (All-select P p tags h.1)
]

select-All : (p : Text → Bool) (tags : List Text) → All (λ t. p t ≡ true) (select p tags)
select-All p [] = tt
select-All p (tag ∷ tags) = elim (Bool-cases (p tag)) [
  | inl e ↦ rw (e, All) (e, select-All p tags)
  | inr e ↦ rw (e, All) (select-All p tags)
]

select-select :
    (p q : Text → Bool) (tags : List Text)
    → select q (select p tags) ≡ select (λ t. p t && q t) tags
select-select p q [] = refl
select-select p q (tag ∷ tags) = ground (arith, select-select p q tags)

-- A tag that is not to go stays in front.
remove_each-cons :
    (p : Text → Bool) (tag : Text) (rems tags : List Text)
    → p tag ≡ false
    → All (λ r. p r ≡ true) rems
    → remove_each rems (tag ∷ tags) ≡ tag ∷ remove_each rems tags
unfolding remove_each remove_first
remove_each-cons p tag [] tags h g = refl
remove_each-cons p tag (rem ∷ rems) tags h g = elim (Bool-cases (same rem tag)) [
  | inl e ↦ ground (arith, h, g.0, ap p ((same_iff rem tag).0 e))
  | inr e ↦ ground (arith, e, remove_each-cons p tag rems (remove_first rem tags) h g.1)
]

-- Removing each match, one occurrence at a time, keeps exactly the others.
remove_each-select :
    (p : Text → Bool) (tags : List Text)
    → remove_each (select p tags) tags ≡ select (λ t. not (p t)) tags
unfolding remove_each remove_first
remove_each-select p [] = refl
remove_each-select p (tag ∷ tags) = elim (Bool-cases (p tag)) [
  | inl e ↦ ground (arith, e, same_refl tag, remove_each-select p tags)
  | inr e ↦ ground (
    arith,
    e,
    remove_each-cons p tag (select p tags) tags e (select-All p tags),
    remove_each-select p tags,
  )
]

split_on-AreFree : (sep : ℕ) (s : Text) → AreFree sep (split_on sep s)
unfolding split_on
split_on-AreFree sep [] = (refl, tt)
split_on-AreFree sep (c ∷ s) =
    let (p, ps, e) = split_on-cons sep s in
    let ih : AreFree sep (p ∷ ps) = subst (AreFree sep) e (split_on-AreFree sep s) in
    elim (Bool-cases (c == sep)) [
      | inl k ↦ rw (k, All) (refl, split_on-AreFree sep s)
      | inr k ↦ rw (k, e, All) (ground (arith, k, ih.0), ih.1)
    ]

split_on_keeps : (c sep : ℕ) (s : Text) → contains c s ≡ false → AreFree c (split_on sep s)
unfolding split_on
split_on_keeps c sep [] h = (refl, tt)
split_on_keeps c sep (d ∷ s) h =
    let (p, ps, e) = split_on-cons sep s in
    let ih : AreFree c (p ∷ ps) =
      subst (AreFree c) e (split_on_keeps c sep s (ground (arith, h))) in
    elim (Bool-cases (d == sep)) [
      | inl k ↦ rw (k, All) (refl, split_on_keeps c sep s (ground (arith, h)))
      | inr k ↦ rw (k, e, All) (ground (arith, h, ih.0), ih.1)
    ]

plain_free : (s : Text) → contains 12288 (map plain_space s) ≡ false
plain_free [] = refl
plain_free (c ∷ s) = ground (arith, plain_free s)

All-zip :
    (tags : List Text)
    → All (λ t. non_empty t ≡ true) tags
    → AreFree 32 tags
    → AreFree 12288 tags
    → All IsTag tags
All-zip [] h k l = tt
All-zip (tag ∷ tags) h k l = ((h.0, k.0, l.0), All-zip tags h.1 k.1 l.1)

split-IsTag : (s : Text) → All IsTag (split s)
unfolding split
split-IsTag s =
    let plain = map plain_space s in
    let parts = split_on 32 plain in
    All-zip (select non_empty parts) (select-All non_empty parts)
      (All-select (λ t. contains 32 t ≡ false) non_empty parts (split_on-AreFree 32 plain))
      (All-select (λ t. contains 12288 t ≡ false) non_empty parts
        (split_on_keeps 12288 32 plain (plain_free s)))

module _ (lower : Text → Text) (alike : ℕ → ℕ → Bool) where
  -- No tag to delete matches the tag.
  abbrev pub is_kept : List Text → Text → Bool
  is_kept [] tag = true
  is_kept (del_tag ∷ del_tags) tag = not (is_match lower alike del_tag tag) && is_kept del_tags tag

  select_true : (tags : List Text) → tags ≡ select (is_kept []) tags
  select_true [] = refl
  select_true (tag ∷ tags) = ap (λ (r : List Text). tag ∷ r) (select_true tags)

  remove_matches-select :
      (del_tags tags : List Text)
      → remove_matches lower alike del_tags tags ≡ select (is_kept del_tags) tags
  unfolding remove_matches
  remove_matches-select [] tags = select_true tags
  remove_matches-select (del_tag ∷ del_tags) tags =
      let p = is_match lower alike del_tag in
      rw
        (
          remove_each-select p tags,
          remove_matches-select del_tags (select (λ t. not (p t)) tags),
          select-select (λ t. not (p t)) (is_kept del_tags) tags,
        )
        refl

  -- Deleting tags from a text keeps exactly the tags that match none of them, in their order.
  pub split-rem_from_str :
      (deltags tags : Text)
      → split (rem_from_str lower alike deltags tags)
        ≡ select (is_kept (split deltags)) (split tags)
  unfolding rem_from_str
  split-rem_from_str deltags tags =
      let kept = is_kept (split deltags) in
      rw (remove_matches-select (split deltags) (split tags)) (
        split-join (select kept (split tags))
          (All-select IsTag kept (split tags) (split-IsTag tags)))
