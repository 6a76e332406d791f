-- ===== src/Scheduler/Tables/Select.antt =====
-- What the queries for new cards and reviews return.
use anki.Prelude.{
  ℕ, zero, suc, refl, ◌≡◌, Bool, true, false, ◌&&◌, List, [], ◌∷◌, map, take, length, select, All,
  min, arith, ◌++◌, drop, ap, sym, subst, ◌==◌, Bool-cases, inl, inr,
}
use mathlib.Core.List.{Permᴰ}
use mathlib.Core.List.Permᴰ
use anki.Prelude.Int.{pos}
use anki.Scheduler.Card.{Card}
use anki.Scheduler.Answer.{is_queue_new}
use anki.Scheduler.Tables.{insert_by, sort_by, due_ord_before, select_new}

module _ {A : Type 0} (before : A → A → Bool) where
  -- Every element is followed by none that comes before it.
  abbrev pub InOrder : List A → Type 0
  InOrder [] = Unit
  InOrder (x ∷ xs) = All (λ y. before y x ≡ false) xs × InOrder xs

  insert_by-All :
      (P : A → Type 0) (x : A) (xs : List A) → P x → All P xs → All P (insert_by before x xs)
  unfolding insert_by
  insert_by-All P x [] p h = (p, tt)
  insert_by-All P x (y ∷ ys) p h = elim (Bool-cases (before y x)) [
    | inl e ↦ rw e (h.0, insert_by-All P x ys p h.1)
    | inr e ↦ rw e (p, h)
  ]

  All-after :
      ((x y z : A) → before y x ≡ false → before z y ≡ false → before z x ≡ false)
      → (x y : A) (zs : List A) → before y x ≡ false
      → All (λ z. before z y ≡ false) zs
      → All (λ z. before z x ≡ false) zs
  All-after trans x y [] e h = tt
  All-after trans x y (z ∷ zs) e h = (trans x y z e h.0, All-after trans x y zs e h.1)

  module _ (asym : (x y : A) → before x y ≡ true → before y x ≡ false)
      (trans : (x y z : A) → before y x ≡ false → before z y ≡ false → before z x ≡ false) where
    insert_by-InOrder : (x : A) (xs : List A) → InOrder xs → InOrder (insert_by before x xs)
    unfolding insert_by
    insert_by-InOrder x [] h = (tt, tt)
    insert_by-InOrder x (y ∷ ys) h = elim (Bool-cases (before y x)) [
      | inl e ↦ rw e (
        insert_by-All (λ z. before z y ≡ false) x ys (asym y x e) h.0,
        insert_by-InOrder x ys h.1,
      )
      | inr e ↦ rw e ((e, All-after trans x y ys e h.0), h)
    ]

    sort_by-InOrder : (xs : List A) → InOrder (sort_by before xs)
    unfolding sort_by
    sort_by-InOrder [] = tt
    sort_by-InOrder (x ∷ xs) = insert_by-InOrder x (sort_by before xs) (sort_by-InOrder xs)

  insert_by-Perm : (x : A) (xs : List A) → Permᴰ (insert_by before x xs) (x ∷ xs)
  unfolding insert_by
  insert_by-Perm x [] = Permᴰ.refl (x ∷ [])
  insert_by-Perm x (y ∷ ys) = elim (Bool-cases (before y x)) [
    | inl e ↦ rw e (Permᴰ.trans (Permᴰ.cons refl (insert_by-Perm x ys)) (Permᴰ.swap refl refl))
    | inr e ↦ rw e (Permᴰ.refl (x ∷ y ∷ ys))
  ]

  sort_by-Perm : (xs : List A) → Permᴰ (sort_by before xs) xs
  unfolding sort_by
  sort_by-Perm [] = Permᴰ.nil
  sort_by-Perm (x ∷ xs) =
      Permᴰ.trans (insert_by-Perm x (sort_by before xs)) (Permᴰ.cons refl (sort_by-Perm xs))

  take-drop : (n : ℕ) (xs : List A) → take n xs ++ drop n xs ≡ xs
  take-drop zero xs = refl
  take-drop (suc n) [] = refl
  take-drop (suc n) (x ∷ xs) = ap (λ (rest : List A). x ∷ rest) (take-drop n xs)

  length-insert_by : (x : A) (xs : List A) → length (insert_by before x xs) ≡ suc (length xs)
  unfolding insert_by
  length-insert_by x [] = refl
  length-insert_by x (y ∷ ys) = ground (arith, length-insert_by x ys)

  length-sort_by : (xs : List A) → length (sort_by before xs) ≡ length xs
  unfolding sort_by
  length-sort_by [] = refl
  length-sort_by (x ∷ xs) =
      ground (arith, length-insert_by x (sort_by before xs), length-sort_by xs)

  length-take : (n : ℕ) (xs : List A) → length (take n xs) ≡ min n (length xs)
  length-take zero xs = ground arith
  length-take (suc n) [] = ground arith
  length-take (suc n) (x ∷ xs) = ground (arith, length-take n xs)

due_ord_before_asym : (x y : Card) → due_ord_before x y ≡ true → due_ord_before y x ≡ false
due_ord_before_asym x y h = ground arith

due_ord_before_trans :
    (x y z : Card)
    → due_ord_before y x ≡ false
    → due_ord_before z y ≡ false
    → due_ord_before z x ≡ false
due_ord_before_trans x y z h k = ground arith

-- A new card of the deck.
abbrev pub is_new_of : ℕ → Card → Bool
is_new_of did c = c.did == did && is_queue_new c.queue

-- The new queue of a deck is filled with the ids of the first of its new cards: all the rows that are
-- new cards of the deck, each once, are the chosen ones and then the others, in the order of their due
-- numbers and templates. As many are chosen as there are, up to the limit.
pub select_new_lem :
    (did lim : ℕ) (rows : List Card)
    → (chosen : List Card) × (others : List Card) × (select_new did (pos lim) rows
        ≡ map (λ c. c.id) chosen)
      × Permᴰ (chosen ++ others) (select (is_new_of did) rows)
      × InOrder due_ord_before (chosen ++ others)
      × (length chosen ≡ min lim (length (select (is_new_of did) rows)))
unfolding select_new
select_new_lem did lim rows =
    let found = select (is_new_of did) rows in
    let sorted = sort_by due_ord_before found in
    let whole = sym (take-drop due_ord_before lim sorted) in
    (
      take lim sorted,
      drop lim sorted,
      refl,
      subst (λ xs. Permᴰ xs found) whole (sort_by-Perm due_ord_before found),
      subst (InOrder due_ord_before) whole
          (sort_by-InOrder due_ord_before due_ord_before_asym due_ord_before_trans found),
      omega (arith, length-take due_ord_before lim sorted, length-sort_by due_ord_before found),
    )
