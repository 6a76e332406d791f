-- ===== src/Scheduler/Flush.antt =====
-- `Card._to_backend_card` and `Card.flush` of pylib/anki/cards.py, with the backend's `update_cards`
-- (rslib/src/backend/card.rs and rslib/src/card/mod.rs) for one card.
use anki.Prelude.{
  ℕ, Bool, true, false, ◌&&◌, Option, none, some, List, [], ◌∷◌, ◌-◌, ◌%◌, ◌^◌, ◌==◌, ltb,
  if◌then◌else◌,
}
use anki.Prelude.Int.{ℤ, pos, negsuc, leb_ℤ}
use anki.Scheduler.Card.{CardType, CardQueue, Card}
use anki.Scheduler.State.{
  Env, value_error, not_found, Result, ok, raise, Action, pure, throw, gets, lift, raise_if, ◌>>=◌,
  ◌>>◌, modify, get_card, int_time,
}

-- The message `Card` of proto/anki/cards.proto, but for `data` and for `mtime_secs` and `usn`, which
-- `_to_backend_card` leaves to the backend.
pub record BackendCard : Type 0 where
  pub id : ℕ
  pub note_id : ℕ
  pub deck_id : ℕ
  pub template_idx : ℕ
  pub ctype : CardType
  pub queue : CardQueue
  pub due : ℤ
  pub interval : ℕ
  pub ease_factor : ℕ
  pub reps : ℕ
  pub lapses : ℕ
  pub remaining_steps : ℕ
  pub original_due : ℤ
  pub original_deck_id : ℕ
  pub flags : ℕ

abbrev is_id : ℕ → Bool
is_id n = ltb n (2 ^ 63)

abbrev is_u32 : ℕ → Bool
is_u32 n = ltb n (2 ^ 32)

abbrev is_i32 : ℤ → Bool
is_i32 n = leb_ℤ (negsuc (2 ^ 31 - 1)) n && leb_ℤ n (pos (2 ^ 31 - 1))

-- The message's fields have widths, and the assignment of a number that is out of them raises.
unfoldable pub is_in_range : Card → Bool
is_in_range c =
    is_id c.id
    && is_id c.nid
    && is_id c.did
    && is_u32 c.ord
    && is_i32 c.due
    && is_u32 c.ivl
    && is_u32 c.factor
    && is_u32 c.reps
    && is_u32 c.lapses
    && is_u32 c.left
    && is_i32 c.odue
    && is_id c.odid
    && is_u32 c.flags

abbrev pub message_of : Card → BackendCard
message_of c = record {
  id = c.id;
  note_id = c.nid;
  deck_id = c.did;
  template_idx = c.ord;
  ctype = c.type;
  queue = c.queue;
  due = c.due;
  interval = c.ivl;
  ease_factor = c.factor;
  reps = c.reps;
  lapses = c.lapses;
  remaining_steps = c.left;
  original_due = c.odue;
  original_deck_id = c.odid;
  flags = c.flags;
}

-- `_to_backend_card`
abbrev pub to_backend_card : Card → Result BackendCard
to_backend_card c = if is_in_range c then ok (message_of c) else raise value_error

-- The row that the backend makes of a message: it cuts three fields to fewer bits, and sets the time
-- and the update sequence number itself. The attributes of the object alone are not stored.
abbrev pub backend_row : ℕ → ℤ → BackendCard → Card
backend_row now usn m = record {
  id = m.id;
  nid = m.note_id;
  did = m.deck_id;
  ord = m.template_idx % 2 ^ 16;
  mod_time = now;
  usn = usn;
  type = m.ctype;
  queue = m.queue;
  due = m.due;
  ivl = m.interval;
  factor = m.ease_factor % 2 ^ 16;
  reps = m.reps;
  lapses = m.lapses;
  left = m.remaining_steps;
  odue = m.original_due;
  odid = m.original_deck_id;
  flags = m.flags % 2 ^ 8;
  last_ivl = 0;
  timer_started = none;
}

-- The row with the card's number is replaced.
unfoldable pub update_row : Card → List Card → Option (List Card)
update_row c [] = none
update_row c (row ∷ rows) =
    let rest = update_row c rows in
    elim (row.id == c.id) [
      | true ↦ some (c ∷ rows)
      | false ↦ elim rest [ none ↦ none | some rows' ↦ some (row ∷ rows') ]
    ]

abbrev or_not_found : Option (List Card) → Action (List Card)
or_not_found none = throw not_found
or_not_found (some rows) = pure rows

module _ {N : Type 0} (env : Env N) where
  -- `update_cards` of the backend, which reads the clock itself
  unfoldable pub update_card : BackendCard → Action (Unit {0})
  update_card m = do
    now ← int_time env
    rows ← gets (λ s. update_row (backend_row now env.usn m) s.cards)
    rows' ← or_not_found rows
    modify (λ s. record s { cards = rows' })

  -- `Card.flush`
  unfoldable pub flush : Action (Unit {0})
  flush = do
    card ← get_card
    raise_if (card.id == 0) not_found
    message ← lift (to_backend_card card)
    update_card message
