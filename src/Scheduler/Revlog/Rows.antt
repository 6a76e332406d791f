-- ===== src/Scheduler/Revlog/Rows.antt =====
-- The rows that an answer adds to the review log.
use anki.Prelude.{ℕ, suc, ◌/◌, ◌≡◌, ◌⊎◌, inl, inr, false, List, [], ◌∷◌, arith, subst, sym}
use anki.Prelude.Int.{ℤ, pos, negsuc, ◌≤ℤ◌}
use anki.Scheduler.Card.{RevlogType, Card}
use anki.Scheduler.State.{Entry, State, Env, Result, ok, raise}
use anki.Scheduler.Logic.{Run-cases}
use anki.Scheduler.Revlog.{saturated_i32, has_entry, insert_revlog, time_taken, log, log_twice}

-- The log is the old one with one more row at its head, under a key of its own, which holds these
-- values.
abbrev AddsRow : Card → ℕ → ℤ → ℤ → RevlogType → List Entry → List Entry → Type 0
AddsRow c ease ivl last_ivl type old [] = ⊥
AddsRow c ease ivl last_ivl type old (e ∷ es) =
    (es ≡ old)
    × (has_entry e.id old ≡ false)
    × (e.cid ≡ c.id)
    × (e.ease ≡ ease)
    × (e.ivl ≡ saturated_i32 ivl)
    × (e.last_ivl ≡ saturated_i32 last_ivl)
    × (e.factor ≡ c.factor)
    × (e.type ≡ type)

-- One row more and the card as it was, or an exception and no row.
abbrev LogsRow : ℕ → ℤ → ℤ → RevlogType → State → Result (Unit {0}) × State → Type 0
LogsRow ease ivl last_ivl type s (ok done, t) =
    AddsRow s.card ease ivl last_ivl type s.revlog t.revlog × (t.card ≡ s.card)
LogsRow ease ivl last_ivl type s (raise err, t) = (t.revlog ≡ s.revlog) × (t.card ≡ s.card)

abbrev Inserts : Entry → State → Result (Unit {0}) × State → Type 0
Inserts e s (ok done, t) =
    (t.revlog ≡ e ∷ s.revlog) × (has_entry e.id s.revlog ≡ false) × (t.card ≡ s.card)
Inserts e s (raise err, t) = (t.revlog ≡ s.revlog) × (t.card ≡ s.card)

insert_revlog-Inserts : (e : Entry) (s : State) → Inserts e s (insert_revlog e s)
unfolding insert_revlog
insert_revlog-Inserts e s = ground arith

module _ {N : Type 0} (env : Env N) where
  time_taken-keeps :
      (s : State) → ((time_taken env s).1.revlog ≡ s.revlog) × ((time_taken env s).1.card ≡ s.card)
  unfolding time_taken
  time_taken-keeps s = ground arith

  abbrev row : ℕ → ℤ → ℤ → RevlogType → State → ℤ → Entry
  row ease ivl last_ivl type s taken = record {
    id = env.time s.reads / 1_000_000;
    cid = s.card.id;
    usn = env.usn;
    ease = ease;
    ivl = saturated_i32 ivl;
    last_ivl = saturated_i32 last_ivl;
    factor = s.card.factor;
    time = taken;
    type = type;
  }

  log-LogsRow :
      (ease : ℕ) (ivl last_ivl : ℤ) (type : RevlogType) (s : State)
      → LogsRow ease ivl last_ivl type s (log env ease ivl last_ivl type s)
  unfolding log
  log-LogsRow ease ivl last_ivl type s =
      let s' = record s { reads = suc s.reads } in
      elim (Run-cases (time_taken env s')) [
        | inr (err, t, e) ↦ ground (arith, time_taken-keeps s')
        | inl (taken, t, e) ↦ ground (
          arith,
          time_taken-keeps s',
          insert_revlog-Inserts (row ease ivl last_ivl type s taken) t,
        )
      ]

  log_twice-LogsRow :
      (ease : ℕ) (ivl last_ivl : ℤ) (type : RevlogType) (s : State)
      → LogsRow ease ivl last_ivl type s (log_twice env ease ivl last_ivl type s)
  unfolding log_twice
  log_twice-LogsRow ease ivl last_ivl type s = elim (Run-cases (log env ease ivl last_ivl type s)) [
    | inl (done, t, e) ↦ ground (arith, log-LogsRow ease ivl last_ivl type s)
    | inr (err, t, e) ↦
        ground (arith, log-LogsRow ease ivl last_ivl type s, log-LogsRow ease ivl last_ivl type t)
  ]

-- The number is the other one if that is a signed 32-bit integer, and else the nearest one.
abbrev pub IsSaturated : ℤ → ℤ → Type 0
IsSaturated n m =
    ((negsuc 2_147_483_647 ≤ℤ n) × (n ≤ℤ pos 2_147_483_647) × (m ≡ n))
    ⊎ ((pos 2_147_483_648 ≤ℤ n) × (m ≡ pos 2_147_483_647))
    ⊎ ((n ≤ℤ negsuc 2_147_483_648) × (m ≡ negsuc 2_147_483_647))

saturated_i32-IsSaturated : (n : ℤ) → IsSaturated n (saturated_i32 n)
unfolding saturated_i32
saturated_i32-IsSaturated n = ground arith

-- The log is the old one with one more row at its head, under a key of its own, which holds these
-- values, the intervals saturated.
abbrev pub Adds : Card → ℕ → ℤ → ℤ → RevlogType → List Entry → List Entry → Type 0
Adds c ease ivl last_ivl type old [] = ⊥
Adds c ease ivl last_ivl type old (e ∷ es) =
    (es ≡ old)
    × (has_entry e.id old ≡ false)
    × (e.cid ≡ c.id)
    × (e.ease ≡ ease)
    × IsSaturated ivl e.ivl
    × IsSaturated last_ivl e.last_ivl
    × (e.factor ≡ c.factor)
    × (e.type ≡ type)

-- One row more and the card as it was, or an exception and no row.
abbrev pub Logs : ℕ → ℤ → ℤ → RevlogType → State → Result (Unit {0}) × State → Type 0
Logs ease ivl last_ivl type s (ok done, t) =
    Adds s.card ease ivl last_ivl type s.revlog t.revlog × (t.card ≡ s.card)
Logs ease ivl last_ivl type s (raise err, t) = (t.revlog ≡ s.revlog) × (t.card ≡ s.card)

AddsRow-Adds :
    (c : Card) (ease : ℕ) (ivl last_ivl : ℤ) (type : RevlogType) (old new : List Entry)
    → AddsRow c ease ivl last_ivl type old new
    → Adds c ease ivl last_ivl type old new
AddsRow-Adds c ease ivl last_ivl type old [] h = h
AddsRow-Adds c ease ivl last_ivl type old (e ∷ es) (a, b, i, d, f, g, k, l) = (
  a,
  b,
  i,
  d,
  subst (IsSaturated ivl) (sym f) (saturated_i32-IsSaturated ivl),
  subst (IsSaturated last_ivl) (sym g) (saturated_i32-IsSaturated last_ivl),
  k,
  l,
)

LogsRow-Logs :
    (ease : ℕ) (ivl last_ivl : ℤ) (type : RevlogType) (s : State) (out : Result (Unit {0}) × State)
    → LogsRow ease ivl last_ivl type s out
    → Logs ease ivl last_ivl type s out
LogsRow-Logs ease ivl last_ivl type s (ok done, t) h =
    (AddsRow-Adds s.card ease ivl last_ivl type s.revlog t.revlog h.0, h.1)
LogsRow-Logs ease ivl last_ivl type s (raise err, t) h = h

module _ {N : Type 0} (env : Env N) where
  -- Writing to the review log adds one row, under a key that was not in the log, with the card's id
  -- and factor, the ease, the type and both intervals, each as the nearest number from -2^31 to
  -- 2^31 - 1. Otherwise it raises and the log stays as it was. The card is kept in both cases.
  pub log_twice-Logs :
      (ease : ℕ) (ivl last_ivl : ℤ) (type : RevlogType) (s : State)
      → Logs ease ivl last_ivl type s (log_twice env ease ivl last_ivl type s)
  log_twice-Logs ease ivl last_ivl type s =
      LogsRow-Logs ease ivl last_ivl type s _ (log_twice-LogsRow env ease ivl last_ivl type s)
