-- ===== src/Desktop/Sound/Best.antt =====
-- Which player `_best_player_for_tag` of qt/aqt/sound.py picks.
use anki.Prelude.{
  ℕ, true, false, none, some, List, [], ◌∷◌, ◌++◌, ◌≡◌, ◌⊎◌, inl, inr, refl, ap, sym, subst, ◌∙◌,
  All, All-append, Bool-cases, if◌then◌else◌, arith,
}
use anki.Prelude.Int.{ℤ, ◌≤ℤ◌, leb_ℤ}
use anki.Desktop.Sound.{
  Player, insert_ranked, sort_ranked, last_ranked, ranked_for, best_player_for_tag,
}

-- The last of a list that is not empty.
abbrev last_pair : ℤ × ℕ → List (ℤ × ℕ) → ℤ × ℕ
last_pair d [] = d
last_pair d (x ∷ xs) = last_pair x xs

last_ranked-cons : (x : ℤ × ℕ) (xs : List (ℤ × ℕ)) → last_ranked (x ∷ xs) ≡ some (last_pair x xs).1
unfolding last_ranked
last_ranked-cons (r, p) [] = refl
last_ranked-cons (r, p) (y ∷ ys) = last_ranked-cons y ys

-- The ranks do not fall, from `r` on.
abbrev Ascends : ℤ → List (ℤ × ℕ) → Type 0
Ascends r [] = Unit
Ascends r ((s, q) ∷ xs) = (r ≤ℤ s) × Ascends s xs

Ascends-last : (x : ℤ × ℕ) (xs : List (ℤ × ℕ)) → Ascends x.0 xs → x.0 ≤ℤ (last_pair x xs).0
Ascends-last x [] h = omega arith
Ascends-last x (y ∷ ys) h = omega (arith, h.0, Ascends-last y ys h.1)

insert_ranked-Ascends :
    (r : ℤ) (x : ℤ × ℕ) (xs : List (ℤ × ℕ))
    → r ≤ℤ x.0
    → Ascends r xs
    → Ascends r (insert_ranked x xs)
unfolding insert_ranked
insert_ranked-Ascends r (rank, p) [] le h = (le, tt)
insert_ranked-Ascends r (rank, p) ((s, q) ∷ xs) le h = elim (Bool-cases (leb_ℤ rank s)) [
  | inl e ↦ rw (e, Ascends) (le, (ground (arith, e), h.1))
  | inr e ↦ rw (e, Ascends) (h.0, insert_ranked-Ascends s (rank, p) xs (ground (arith, e)) h.1)
]

last-insert_ranked :
    (d x y : ℤ × ℕ) (ys : List (ℤ × ℕ))
    → Ascends y.0 ys
    → last_pair d (insert_ranked x (y ∷ ys))
      ≡ (if leb_ℤ x.0 (last_pair y ys).0 then last_pair y ys else x)
unfolding insert_ranked
last-insert_ranked d (rank, p) (s, q) [] h = elim (Bool-cases (leb_ℤ rank s)) [
  | inl e ↦ rw e
  | inr e ↦ rw e
]
last-insert_ranked d (rank, p) (s, q) (z ∷ zs) h = elim (Bool-cases (leb_ℤ rank s)) [
  | inl e ↦
      let top : leb_ℤ rank (last_pair z zs).0 ≡ true =
        ground (arith, e, h.0, Ascends-last z zs h.1) in
      rw (e, top)
  | inr e ↦ rw e (last-insert_ranked (s, q) (rank, p) z zs h.1)
]

-- The last of the highest ranks: no rank before it is higher, and all behind it are lower.
abbrev pub IsTop : List (ℤ × ℕ) → ℤ × ℕ → Type 0
IsTop ranked top =
    (before : List (ℤ × ℕ)) × (after : List (ℤ × ℕ)) × (ranked ≡ before ++ top ∷ after)
    × All (λ x. x.0 ≤ℤ top.0) before
    × All (λ x. leb_ℤ top.0 x.0 ≡ false) after

leb-le : (a b : ℤ) → leb_ℤ a b ≡ true → a ≤ℤ b
leb-le a b h = ground arith

-- What sorting makes of a list that is not empty.
abbrev IsSorted : List (ℤ × ℕ) → Type 0
IsSorted ranked =
    (y : ℤ × ℕ) × (ys : List (ℤ × ℕ)) × (sort_ranked ranked ≡ y ∷ ys)
    × Ascends y.0 ys
    × IsTop ranked (last_pair y ys)

All-below :
    (x top : ℤ × ℕ) (xs : List (ℤ × ℕ))
    → leb_ℤ x.0 top.0 ≡ false
    → All (λ y. y.0 ≤ℤ top.0) xs
    → All (λ y. leb_ℤ x.0 y.0 ≡ false) xs
All-below x top [] e h = tt
All-below x top (y ∷ ys) e h = (ground (arith, e, h.0), All-below x top ys e h.1)

weaken :
    (top : ℤ × ℕ) (xs : List (ℤ × ℕ))
    → All (λ y. leb_ℤ top.0 y.0 ≡ false) xs
    → All (λ y. y.0 ≤ℤ top.0) xs
weaken top [] h = tt
weaken top (y ∷ ys) h = (ground (arith, h.0), weaken top ys h.1)

insert-head :
    (x y : ℤ × ℕ) (ys : List (ℤ × ℕ))
    → Ascends y.0 ys
    → (z : ℤ × ℕ) × (zs : List (ℤ × ℕ)) × (insert_ranked x (y ∷ ys) ≡ z ∷ zs) × Ascends z.0 zs
unfolding insert_ranked
insert-head (rank, p) (s, q) ys h = elim (Bool-cases (leb_ℤ rank s)) [
  | inl e ↦ ((rank, p), (s, q) ∷ ys, rw e, (ground (arith, e), h))
  | inr e ↦ (
    (s, q),
    insert_ranked (rank, p) ys,
    rw e,
    insert_ranked-Ascends s (rank, p) ys (ground (arith, e)) h,
  )
]

sort_ranked-IsSorted : (x : ℤ × ℕ) (rs : List (ℤ × ℕ)) → IsSorted (x ∷ rs)
unfolding sort_ranked insert_ranked
sort_ranked-IsSorted (rank, p) [] = ((rank, p), [], refl, tt, ([], [], refl, tt, tt))
sort_ranked-IsSorted x (r ∷ rs) =
    let (y, ys, e, asc, (before, after, f, low, high)) = sort_ranked-IsSorted r rs in
    let top = last_pair y ys in
    let (z, zs, g, asc') = insert-head x y ys asc in
    let same_last : last_pair z zs ≡ (if leb_ℤ x.0 top.0 then top else x) =
      ap (last_pair x) (sym g) ∙ last-insert_ranked x x y ys asc in
    let sorted : sort_ranked (x ∷ r ∷ rs) ≡ z ∷ zs = ap (insert_ranked x) e ∙ g in
    elim (Bool-cases (leb_ℤ x.0 top.0)) [
      | inl k ↦ (
        z,
        zs,
        sorted,
        asc',
        rw (same_last, k)
            (
              x ∷ before,
              after,
              ap (λ (l : List (ℤ × ℕ)). x ∷ l) f,
              (leb-le x.0 top.0 k, low),
              high,
            ),
      )
      | inr k ↦
          let all_low : All (λ v. v.0 ≤ℤ top.0) (r ∷ rs) = subst (All (λ v. v.0 ≤ℤ top.0)) (sym f) (
            All-append (λ v. v.0 ≤ℤ top.0) before (top ∷ after) low
              (omega arith, weaken top after high)) in
          (
            z,
            zs,
            sorted,
            asc',
            rw (same_last, k) ([], r ∷ rs, refl, tt, All-below x top (r ∷ rs) k all_low),
          )
    ]

module _ {Tag : Type 0} (players : List (Player Tag)) where
  -- No player is picked if none ranks the tag; else it is the last of those with the highest rank.
  pub best_player-IsTop :
      (tag : Tag)
      → ((ranked_for tag players ≡ []) × (best_player_for_tag players tag ≡ none))
        ⊎ ((top : ℤ × ℕ) × (best_player_for_tag players tag ≡ some top.1)
            × IsTop (ranked_for tag players) top)
  unfolding best_player_for_tag last_ranked sort_ranked
  best_player-IsTop tag = go (ranked_for tag players)
    where
      go :
          (rs : List (ℤ × ℕ))
          → ((rs ≡ []) × (last_ranked (sort_ranked rs) ≡ none))
            ⊎ ((top : ℤ × ℕ) × (last_ranked (sort_ranked rs) ≡ some top.1) × IsTop rs top)
      go [] = inl (refl, refl)
      go (x ∷ rs) =
          let (y, ys, e, asc, top) = sort_ranked-IsSorted x rs in
          inr (last_pair y ys, ap last_ranked e ∙ last_ranked-cons y ys, top)
