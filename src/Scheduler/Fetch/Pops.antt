-- ===== src/Scheduler/Fetch/Pops.antt =====
-- The pops of `_getNewCard` and `_getRevCard` in pylib/anki/scheduler/v2.py.
use anki.Prelude.{
  ℕ, suc, ◌≡◌, ◌≢◌, inl, inr, Bool, true, false, Option, List, [], ◌∷◌, ◌++◌, reverse, refl, arith,
  non_empty, Option-cases, if◌then◌else◌,
}
use anki.Prelude.Int.{ℤ, negsuc, min_ℤ, truthy}
use mathlib.Core.List.{reverse-cons}
use anki.Scheduler.State.{
  State, Env, Deck, index_error, Result, ok, raise, Action, ◌>>◌, pure, modify,
}
use anki.Scheduler.Logic.{Run-cases, Result-cases}
use anki.Scheduler.Limits.{
  queue_limit, active, reset_counts, deck_new_limit_single, deck_rev_limit_single, narrow,
  narrow_all, deck_new_limit,
}
use anki.Scheduler.Tables.{select_new, select_rev}
use anki.Scheduler.NewQueue.{reset_new, fill_new_from, fill_new_once, fill_new, get_new_card}
use anki.Scheduler.RevQueue.{fill_rev_once, fill_rev, get_rev_card}

-- The queue holds a card if the call found one, and no exception speaks of an index.
abbrev Fills : (State → List ℕ) → Result Bool × State → Type 0
Fills queue (ok true, t) = non_empty (queue t) ≡ true
Fills queue (ok false, t) = Unit
Fills queue (raise err, t) = err ≢ index_error

non_empty-snoc : (x : ℕ) (xs : List ℕ) → non_empty (xs ++ x ∷ []) ≡ true
non_empty-snoc x [] = refl
non_empty-snoc x (y ∷ ys) = refl

non_empty-reverse : (xs : List ℕ) → non_empty xs ≡ true → non_empty (reverse xs) ≡ true
non_empty-reverse [] h = h
non_empty-reverse (x ∷ xs) h = rw reverse-cons (non_empty-snoc x (reverse xs))

module _ {N : Type 0} (env : Env N) where
  deck_new_limit_single-error : (g : Deck) → deck_new_limit_single env g ≢ raise index_error
  unfolding deck_new_limit_single
  deck_new_limit_single-error g = ground arith

  narrow_all-error : (lim : ℤ) (gs : List Deck) → narrow_all env lim gs ≢ raise index_error
  unfolding narrow_all
  narrow_all-error lim [] = ground arith
  narrow_all-error lim (g ∷ gs) = elim (Result-cases (deck_new_limit_single env g)) [
    | inl (rem, e) ↦ ground (arith, narrow_all-error (narrow env lim rem) gs)
    | inr (err, e) ↦ ground (arith, deck_new_limit_single-error g)
  ]

  deck_new_limit-error : (did : ℕ) → deck_new_limit env did ≢ raise index_error
  unfolding deck_new_limit
  deck_new_limit-error did = elim (Option-cases (env.deck did)) [
    | inr (sel, e) ↦ ground (arith, e, narrow_all-error (negsuc 0) (sel ∷ env.parents did))
    | inl e ↦ elim (Option-cases (env.deck 1)) [
      | inl f ↦ ground (arith, e, f)
      | inr (sel, f) ↦ ground (arith, e, f, narrow_all-error (negsuc 0) (sel ∷ env.parents did))
    ]
  ]

  fill_new_from-Fills :
      (dids : List ℕ) (s : State) → Fills (λ t. t.new_queue) (fill_new_from env dids s)
  unfolding fill_new_from
  fill_new_from-Fills [] s = tt
  fill_new_from-Fills (did ∷ dids) s =
      let t = record s { new_dids = did ∷ dids } in
      elim (Result-cases (deck_new_limit env did)) [
        | inr (err, e) ↦ ground (arith, deck_new_limit-error did)
        | inl (limit, e) ↦
            let lim = min_ℤ queue_limit limit in
            let ids = select_new did lim s.cards in
            ground (arith, fill_new_from-Fills dids t, non_empty-reverse ids)
      ]

  fill_new_once-Fills :
      (retry : Action Bool) (s : State)
      → ((t : State) → Fills (λ u. u.new_queue) (retry t))
      → Fills (λ t. t.new_queue) (fill_new_once env retry s)
  fill_new_once-Fills retry s h = elim (Run-cases (fill_new_from env s.new_dids s)) [
    | inl (found, t, e) ↦ ground (arith, fill_new_from-Fills s.new_dids s, h t)
    | inr (err, t, e) ↦ ground (arith, fill_new_from-Fills s.new_dids s)
  ]

  fill_new-Fills : (s : State) → Fills (λ t. t.new_queue) (fill_new env s)
  unfolding fill_new reset_counts reset_new
  fill_new-Fills s =
      fill_new_once-Fills (do reset_counts env; reset_new env; fill_new_once env (pure false)) s
        (λ t.
          fill_new_once-Fills (pure false) (reset_new env (reset_counts env t).1).1 (λ u. tt {0}))

  get_new_card-pops : (s : State) → (get_new_card env s).0 ≢ raise index_error
  unfolding get_new_card
  get_new_card-pops s = elim (Run-cases (fill_new env s)) [
    | inl (found, t, e) ↦ ground (arith, fill_new-Fills s)
    | inr (err, t, e) ↦ ground (arith, fill_new-Fills s)
  ]

  deck_rev_limit_single-error : (d : Option Deck) → deck_rev_limit_single env d ≢ raise index_error
  unfolding deck_rev_limit_single
  deck_rev_limit_single-error d = ground arith

  fill_rev_once-Fills :
      (retry : Action Bool) (s : State)
      → ((t : State) → Fills (λ u. u.rev_queue) (retry t))
      → Fills (λ t. t.rev_queue) (fill_rev_once env retry s)
  fill_rev_once-Fills retry s h =
      elim (Result-cases (deck_rev_limit_single env (env.deck env.selected))) [
        | inr (err, e) ↦ ground (arith, deck_rev_limit_single-error (env.deck env.selected))
        | inl (limit, e) ↦
            let lim = min_ℤ queue_limit limit in
            let ids = select_rev (env.sql_random s.queries) env.today (active s) lim s.cards in
            ground (
              arith,
              non_empty-reverse ids,
              h (record s {
                queries = if truthy lim then suc s.queries else s.queries;
                rev_queue = if truthy lim then reverse ids else [];
              }),
            )
      ]

  fill_rev-Fills : (s : State) → Fills (λ t. t.rev_queue) (fill_rev env s)
  unfolding fill_rev reset_counts
  fill_rev-Fills s =
      fill_rev_once-Fills
        (do
          reset_counts env
          modify (λ u. record u { rev_queue = [] })
          fill_rev_once env (pure false))
        s
        (λ t.
          fill_rev_once-Fills (pure false) (record (reset_counts env t).1 { rev_queue = [] })
            (λ u. tt {0}))

  get_rev_card-pops : (s : State) → (get_rev_card env s).0 ≢ raise index_error
  unfolding get_rev_card
  get_rev_card-pops s = elim (Run-cases (fill_rev env s)) [
    | inl (found, t, e) ↦ ground (arith, fill_rev-Fills s)
    | inr (err, t, e) ↦ ground (arith, fill_rev-Fills s)
  ]

  -- Fetching a new card or a review card never pops an empty queue, whatever the state.
  pub fetch_queues-pop :
      (s : State)
      → ((get_new_card env s).0 ≢ raise index_error) × ((get_rev_card env s).0 ≢ raise index_error)
  fetch_queues-pop s = (get_new_card-pops s, get_rev_card-pops s)
