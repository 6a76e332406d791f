-- ===== src/Scheduler/Revlog.antt =====
-- The review log: `Card.time_taken` of pylib/anki/cards.py, `saturated_i32` and the closure `log`
-- of `_logLrn` and `_logRev` in pylib/anki/scheduler/v2.py.
pub mod Rows
use anki.Prelude.{ℕ, Bool, true, false, List, [], ◌∷◌, ◌-◌, ◌/◌, ◌^◌, ◌==◌, if◌then◌else◌}
use anki.Prelude.Int.{ℤ, pos, negsuc, ◌-ℤ◌, max_ℤ, min_ℤ}
use anki.Scheduler.Card.{RevlogType}
use anki.Scheduler.State.{
  Entry, Env, type_error, duplicate_pk, Action, pure, gets, or_raise, lift, try_except, raise_if,
  ◌>>=◌, ◌>>◌, modify, get_card, time_ns,
}
use anki.Scheduler.Lookup.{time_limit}

-- `saturated_i32`
unfoldable pub saturated_i32 : ℤ → ℤ
saturated_i32 n = min_ℤ (max_ℤ n (negsuc (2 ^ 31 - 1))) (pos (2 ^ 31 - 1))

-- `int((time.time() - started) * 1000)` on nanoseconds
abbrev milliseconds : ℕ → ℕ → ℤ
milliseconds now started = pos ((now - started) / 1_000_000) -ℤ pos ((started - now) / 1_000_000)

-- An entry with the same key makes the insertion raise.
abbrev pub has_entry : ℕ → List Entry → Bool
has_entry k [] = false
has_entry k (e ∷ es) = if k == e.id then true else has_entry k es

unfoldable pub insert_revlog : Entry → Action (Unit {0})
insert_revlog e = do
  taken ← gets (λ s. has_entry e.id s.revlog)
  raise_if taken duplicate_pk
  modify (λ s. record s { revlog = e ∷ s.revlog })

module _ {N : Type 0} (env : Env N) where
  -- `Card.time_taken`
  unfoldable pub time_taken : Action ℤ
  time_taken = do
    card ← get_card
    now ← time_ns env
    started ← or_raise card.timer_started type_error
    limit ← lift (time_limit env card)
    pure (min_ℤ (milliseconds now started) (pos limit))

  -- The closure `log` of `_logLrn` and `_logRev`.
  unfoldable pub log : ℕ → ℤ → ℤ → RevlogType → Action (Unit {0})
  log ease ivl last_ivl type = do
    now ← time_ns env
    card ← get_card
    taken ← time_taken
    insert_revlog (record {
      id = now / 1_000_000;
      cid = card.id;
      usn = env.usn;
      ease = ease;
      ivl = saturated_i32 ivl;
      last_ivl = saturated_i32 last_ivl;
      factor = card.factor;
      time = taken;
      type = type;
    })

  -- A failed insertion is tried once more.
  unfoldable pub log_twice : ℕ → ℤ → ℤ → RevlogType → Action (Unit {0})
  log_twice ease ivl last_ivl type =
      try_except (log ease ivl last_ivl type) (log ease ivl last_ivl type)
