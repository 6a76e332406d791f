-- ===== src/Scheduler/Limits/Narrow.antt =====
-- The limit of a deck against the limits of its parents.
use anki.Prelude.{ℕ, ap, ◌≡◌, ◌⊎◌, inl, inr, some, List, [], ◌∷◌, All, arith}
use anki.Prelude.Int.{ℤ, pos, negsuc, ◌≤ℤ◌, max_ℤ, ◌-ℤ◌, pos_part, neg_part}
use anki.Scheduler.Lookup.{lookup_conf, normal_key}
use anki.Scheduler.State.{Env, Deck, ok}
use anki.Scheduler.Logic.{Result-cases}
use anki.Scheduler.Limits.{deck_new_limit_single, narrow, narrow_all, deck_new_limit}

module _ {N : Type 0} (env : Env N) where
  -- The deck has a limit of its own, and `lim` is no more than that.
  abbrev pub Within : ℤ → Deck → Type 0
  Within lim g = (own : ℤ) × (deck_new_limit_single env g ≡ ok own) × (lim ≤ℤ own)

  -- `lim` is the limit of one of the decks.
  abbrev pub IsAttained : ℤ → List Deck → Type 0
  IsAttained lim [] = ⊥
  IsAttained lim (g ∷ gs) = (deck_new_limit_single env g ≡ ok lim) ⊎ IsAttained lim gs

  -- `l` is the least of `lim` and the limits of the decks.
  abbrev IsLeast : ℤ → List Deck → ℤ → Type 0
  IsLeast lim gs l = (l ≤ℤ lim) × All (Within l) gs × ((l ≡ lim) ⊎ IsAttained l gs)

  narrow-cases :
      (lim rem : ℤ)
      → pos 0 ≤ℤ lim
      → ((narrow env lim rem ≡ rem) × (rem ≤ℤ lim)) ⊎ ((narrow env lim rem ≡ lim) × (lim ≤ℤ rem))
  narrow-cases (pos n) rem h = ground arith
  narrow-cases (negsuc n) rem h = ground arith

  IsLeast-step :
      (lim rem l : ℤ) (g : Deck) (gs : List Deck)
      → pos 0 ≤ℤ lim
      → deck_new_limit_single env g ≡ ok rem
      → IsLeast (narrow env lim rem) gs l
      → IsLeast lim (g ∷ gs) l
  IsLeast-step lim rem l g gs h e (le, within, from) = elim (narrow-cases lim rem h) [
    | inl (c, r) ↦ (
      omega (arith, ap pos_part c, ap neg_part c),
      ((rem, e, omega (arith, ap pos_part c, ap neg_part c)), within),
      elim from [ inl q ↦ inr (inl (cc (q, c, e))) | inr q ↦ inr (inr q) ],
    )
    | inr (c, r) ↦ (
      omega (arith, ap pos_part c, ap neg_part c),
      ((rem, e, omega (arith, ap pos_part c, ap neg_part c)), within),
      elim from [ inl q ↦ inl (cc (q, c)) | inr q ↦ inr (inr q) ],
    )
  ]

  module _ (keeps : (lim : ℤ) (did : ℕ) → pos 0 ≤ℤ lim → pos 0 ≤ℤ env.new_limit_hook lim did) where
    deck_new_limit_single-nonneg :
        (g : Deck) (own : ℤ) → deck_new_limit_single env g ≡ ok own → pos 0 ≤ℤ own
    unfolding deck_new_limit_single
    deck_new_limit_single-nonneg g own e =
        elim (Result-cases (normal_key (λ c. c.new.per_day) (lookup_conf (env.deck_conf g.id)))) [
          | inr (err, c) ↦ ground (arith, c, e)
          | inl (p, c) ↦
              let rem = max_ℤ (pos 0) (pos p -ℤ env.new_today g.id) in
              ground (arith, c, e, keeps rem g.id (ground arith))
        ]

    narrow_all-IsLeast :
        (lim : ℤ) (gs : List Deck) (l : ℤ)
        → pos 0 ≤ℤ lim
        → narrow_all env lim gs ≡ ok l
        → IsLeast lim gs l
    unfolding narrow_all
    narrow_all-IsLeast lim [] l h e = ground (arith, e)
    narrow_all-IsLeast lim (g ∷ gs) l h e = elim (Result-cases (deck_new_limit_single env g)) [
      | inr (err, c) ↦ ground (arith, c, e)
      | inl (rem, c) ↦
          let m = narrow env lim rem in
          let p = deck_new_limit_single-nonneg g rem c in
          let r =
            narrow_all-IsLeast m gs l
              (elim (narrow-cases lim rem h) [
                | inl (q, w) ↦ omega (arith, ap pos_part q, ap neg_part q)
                | inr (q, w) ↦ omega (arith, ap pos_part q, ap neg_part q)
              ])
              (ground (arith, c, e)) in
          IsLeast-step lim rem l g gs h c r
    ]

    -- If the deck is there and its limit can be taken, the limit is at most the one of the deck
    -- alone and of each parent, and it is equal to one of these. The filter on limits is to keep
    -- them from falling below zero.
    pub deck_new_limit_least :
        (did : ℕ) (sel : Deck) (lim : ℤ)
        → env.deck did ≡ some sel
        → deck_new_limit env did ≡ ok lim
        → All (Within lim) (sel ∷ env.parents did) × IsAttained lim (sel ∷ env.parents did)
    unfolding deck_new_limit narrow_all
    deck_new_limit_least did sel lim d e = elim (Result-cases (deck_new_limit_single env sel)) [
      | inr (err, c) ↦ ground (arith, c, d, e)
      | inl (rem, c) ↦
          let (le, within, from) =
            narrow_all-IsLeast rem (env.parents did) lim (deck_new_limit_single-nonneg sel rem c)
              (ground (arith, c, d, e)) in
          (((rem, c, le), within), elim from [ inl q ↦ inl (rw (q) c) | inr q ↦ inr q ])
    ]
