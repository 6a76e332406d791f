-- ===== src/Scheduler/Answer/Stored.antt =====
-- What is in the table of cards when `answerCard` returns.
use anki.Prelude.{
  ◌%◌, ℕ, suc, ◌/◌, ◌≡◌, inl, inr, some, List, [], ◌∷◌, arith, select, refl, Option-cases,
  Bool-cases,
}
use anki.Scheduler.Card.{Card}
use anki.Scheduler.State.{State, Env}
use anki.Scheduler.Logic.{Ensures, Ensures-map, Run-cases}
use anki.Scheduler.Tables.{find_row}
use anki.Scheduler.Flush.{is_in_range, message_of, backend_row, update_row, update_card, flush}
use anki.Scheduler.Answer.{
  discard, discard_all, is_sibling, save_undo, bury_siblings, answer_inner, stamp_and_flush,
  answer_guarded, answer_card,
}
use anki.Scheduler.Answer.Outcome.{IsSound, answer_inner-IsSound}

discard_all-card : (rows : List Card) (s : State) → (discard_all rows s).card ≡ s.card
unfolding discard_all
discard_all-card [] s = refl
discard_all-card (row ∷ rows) s = ground (arith, discard_all-card rows (discard row s))

find_row-update_row :
    (c : Card) (rows rows' : List Card)
    → update_row c rows ≡ some rows'
    → find_row c.id rows' ≡ some c
unfolding update_row
find_row-update_row c [] rows' e = cc
find_row-update_row c (row ∷ rows) rows' e = elim (Option-cases (update_row c rows)) [
  | inl missing ↦ ground arith
  | inr (rest, f) ↦ ground (arith, find_row-update_row c rows rest f)
]

-- The row holds what the message tells of the card: the ordinal and the ease cut to 16 bits, the flags
-- to 8, and all else as it is. The time of the change and its number are the backend's.
abbrev pub Holds : Card → Card → Type 0
Holds c row =
    (row.id ≡ c.id)
    × (row.nid ≡ c.nid)
    × (row.did ≡ c.did)
    × (row.ord ≡ c.ord % 65_536)
    × (row.type ≡ c.type)
    × (row.queue ≡ c.queue)
    × (row.due ≡ c.due)
    × (row.ivl ≡ c.ivl)
    × (row.factor ≡ c.factor % 65_536)
    × (row.reps ≡ c.reps)
    × (row.lapses ≡ c.lapses)
    × (row.left ≡ c.left)
    × (row.odue ≡ c.odue)
    × (row.odid ≡ c.odid)
    × (row.flags ≡ c.flags % 256)

-- The table has a row that holds the card.
abbrev HasRow : Card → List Card → Type 0
HasRow c rows = (row : Card) × (find_row c.id rows ≡ some row) × Holds c row

-- The card in hand is sound, and the table holds it.
abbrev pub IsStored : State → Type 0
IsStored t = IsSound t.card × HasRow t.card t.cards

module _ {N : Type 0} (env : Env N) where
  -- The row that the backend is to write, the clock read once more.
  abbrev new_row : State → Card
  new_row s = backend_row (env.time s.reads / 1_000_000_000) env.usn (message_of s.card)

  flush-new_row :
      (s : State)
      → Ensures
          (λ _ t. (t.card ≡ s.card) × (find_row s.card.id t.cards ≡ some (new_row s)))
          (flush env s)
  unfolding flush update_card
  flush-new_row s = elim (Bool-cases (is_in_range s.card)) [
    | inr out ↦ ground (arith, out)
    | inl fitting ↦ elim (Option-cases (update_row (new_row s) s.cards)) [
      | inl missing ↦ ground (arith, fitting)
      | inr (rows, e) ↦ ground (arith, fitting, find_row-update_row (new_row s) s.cards rows e)
    ]
  ]

  new_row-Holds : (s : State) → Holds s.card (new_row s)
  new_row-Holds s =
      (refl, refl, refl, refl, refl, refl, refl, refl, refl, refl, refl, refl, refl, refl, refl)

  flush_stores :
      (s : State) → Ensures (λ _ t. (t.card ≡ s.card) × HasRow s.card t.cards) (flush env s)
  flush_stores s =
      Ensures-map _ _ (flush env s) (λ _ t (e, f). (e, (new_row s, f, new_row-Holds s)))
        (flush-new_row s)

  bury_siblings-card : (s : State) → (bury_siblings env s).1.card ≡ s.card
  unfolding bury_siblings
  bury_siblings-card s =
      ground (arith, discard_all-card (select (is_sibling env.today s.card) s.cards) s)

  stamp_and_flush-stores :
      (s : State) → IsSound s.card → Ensures (λ _ t. IsStored t) (stamp_and_flush env s)
  unfolding stamp_and_flush
  stamp_and_flush-stores s h =
      let s' = record s {
        reads = suc s.reads;
        card = record s.card { mod_time = env.time s.reads / 1_000_000_000; usn = env.usn };
      } in
      ground (arith, flush_stores s')

  answer_guarded-stores :
      (ease : ℕ) (s : State)
      → IsSound s.card
      → Ensures (λ _ t. IsStored t) (answer_guarded env ease s)
  unfolding answer_guarded save_undo
  answer_guarded-stores ease s h =
      let s' = (save_undo s).1 in
      elim (Run-cases (bury_siblings env s')) [
        | inr (err, t, e) ↦ ground arith
        | inl (done, t, e) ↦ elim (Run-cases (answer_inner env ease t)) [
          | inr (err, u, f) ↦ ground arith
          | inl (done', u, f) ↦ ground (
            arith,
            bury_siblings-card s',
            answer_inner-IsSound env ease t,
            stamp_and_flush-stores u,
          )
        ]
      ]

  -- If the answer to a card whose queue fits its type returns, the card's queue fits its type again,
  -- and the table has a row that holds the card as the answer left it: its ordinal and ease cut to 16
  -- bits and its flags to 8, and each other field of the message unchanged.
  pub answer_card-IsStored :
      (ease : ℕ) (s : State) → IsSound s.card → Ensures (λ _ t. IsStored t) (answer_card env ease s)
  unfolding answer_card
  answer_card-IsStored ease s h = ground (arith, answer_guarded-stores ease s h)
