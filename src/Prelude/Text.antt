-- ===== src/Prelude/Text.antt =====
-- Texts as lists of code points, with the methods of Python's strings that the code calls.
use Prim.Native.Char.{code}
use Prim.Native.String.{String}
use Prim.Native.Nat.{ℕ}
use mathlib.Core.Path.{◌≡◌, refl, ap, ◌∙◌}
use mathlib.Core.Logic.{◌↔◌, inl, inr}
use mathlib.Core.Bool.{Bool, true, false, ◌&&◌}
use mathlib.Core.List.{List, [], ◌∷◌, ◌++◌}
use native.Mathlib.Omega.{arith}
use anki.Prelude.Tests.{◌==◌, if◌then◌else◌, Bool-cases}
use anki.Prelude.Lists.{All, contains}

abbrev pub Text : Type 0
Text = List ℕ

-- The code points of a literal.
abbrev pub codes : String → Text
codes String.[] = []
codes (String.◌∷◌ c s) = code c ∷ codes s

-- `a == b`
unfoldable pub same : Text → Text → Bool
same [] [] = true
same [] (y ∷ ys) = false
same (x ∷ xs) [] = false
same (x ∷ xs) (y ∷ ys) = x == y && same xs ys

pub same_iff : (a b : Text) → (same a b ≡ true) ↔ (a ≡ b)
unfolding same
same_iff [] [] = (λ h. refl, λ h. refl)
same_iff [] (y ∷ ys) = (λ h. ground (arith, h), λ h. cc h)
same_iff (x ∷ xs) [] = (λ h. ground (arith, h), λ h. cc h)
same_iff (x ∷ xs) (y ∷ ys) = ground (arith, same_iff xs ys)

pub same_refl : (a : Text) → same a a ≡ true
same_refl a = (same_iff a a).1 refl

-- `t in xs`
unfoldable pub has_text : Text → List Text → Bool
has_text t [] = false
has_text t (x ∷ xs) = if same t x then true else has_text t xs

-- No text stands twice in the list.
abbrev pub AreDistinct : List Text → Type 0
AreDistinct [] = Unit
AreDistinct (t ∷ ts) = (has_text t ts ≡ false) × AreDistinct ts

-- A character in front of the first part.
abbrev pub attach : ℕ → List Text → List Text
attach c [] = (c ∷ []) ∷ []
attach c (part ∷ parts) = (c ∷ part) ∷ parts

-- `text.split(sep)` for a separator of one character
unfoldable pub split_on : ℕ → Text → List Text
split_on sep [] = [] ∷ []
split_on sep (c ∷ s) = let rest = split_on sep s in if c == sep then [] ∷ rest else attach c rest

-- `sep.join(parts)`
unfoldable pub join_with : Text → List Text → Text
join_with sep [] = []
join_with sep (part ∷ []) = part
join_with sep (part ∷ next ∷ parts) = part ++ (sep ++ join_with sep (next ∷ parts))

-- No part holds the character.
abbrev pub AreFree : ℕ → List Text → Type 0
AreFree sep = All (λ part. contains sep part ≡ false)

pub split_on-cons : (sep : ℕ) (s : Text) → (p : Text) × (ps : List Text) × (split_on sep s ≡ p ∷ ps)
unfolding split_on
split_on-cons sep [] = ([], [], refl)
split_on-cons sep (c ∷ s) =
    let (p, ps, e) = split_on-cons sep s in
    elim (Bool-cases (c == sep)) [
      | inl h ↦ ([], split_on sep s, ground (arith, h))
      | inr h ↦ (c ∷ p, ps, ground (arith, h, e))
    ]

pub join_with-attach :
    (sep : Text) (c : ℕ) (p : Text) (ps : List Text)
    → join_with sep (attach c (p ∷ ps)) ≡ c ∷ join_with sep (p ∷ ps)
unfolding join_with
join_with-attach sep c p [] = refl
join_with-attach sep c p (q ∷ ps) = refl

-- Joining what `split` gives is the text again.
pub join_with-split_on : (sep : ℕ) (s : Text) → join_with (sep ∷ []) (split_on sep s) ≡ s
unfolding join_with split_on
join_with-split_on sep [] = refl
join_with-split_on sep (c ∷ s) =
    let (p, ps, e) = split_on-cons sep s in
    let ih = join_with-split_on sep s in
    elim (Bool-cases (c == sep)) [
      | inl h ↦ ground (arith, h, e, ih)
      | inr h ↦ ground (arith, h, e, ih, join_with-attach (sep ∷ []) c p ps)
    ]

pub split_on-append :
    (sep : ℕ) (p s : Text)
    → contains sep p ≡ false
    → split_on sep (p ++ sep ∷ s) ≡ p ∷ split_on sep s
unfolding split_on
split_on-append sep [] s h = ground arith
split_on-append sep (c ∷ p) s h = ground (arith, h, split_on-append sep p s)

pub split_on_free : (sep : ℕ) (p : Text) → contains sep p ≡ false → split_on sep p ≡ p ∷ []
unfolding split_on
split_on_free sep [] h = refl
split_on_free sep (c ∷ p) h = ground (arith, h, split_on_free sep p)

pub split_on-join_with :
    (sep : ℕ) (part : Text) (parts : List Text)
    → AreFree sep (part ∷ parts)
    → split_on sep (join_with (sep ∷ []) (part ∷ parts)) ≡ part ∷ parts
unfolding join_with
split_on-join_with sep part [] h = split_on_free sep part h.0
split_on-join_with sep part (next ∷ parts) h =
    split_on-append sep part (join_with (sep ∷ []) (next ∷ parts)) h.0
    ∙ ap (λ (rest : List Text). part ∷ rest) (split_on-join_with sep next parts h.1)
