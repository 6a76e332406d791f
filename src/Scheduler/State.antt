-- ===== src/Scheduler/State.antt =====
-- What a method of the scheduler reads and changes, and the monad that its body runs in.
use anki.Prelude.{ℕ, suc, Bool, true, false, List, Option, none, some, ◌/◌}
use anki.Prelude.Int.{ℤ}
use anki.Scheduler.Number.{Number}
use anki.Scheduler.Card.{Card, RevlogType}
use anki.Scheduler.Config.{DeckConf}

-- A row of the table `revlog`.
pub record Entry : Type 0 where
  pub id : ℕ
  pub cid : ℕ
  pub usn : ℤ
  pub ease : ℕ
  pub ivl : ℤ
  pub last_ivl : ℤ
  pub factor : ℕ
  pub time : ℤ
  pub type : RevlogType

-- One call of the backend's `update_stats`.
pub record StatsUpdate : Type 0 where
  pub did : ℕ
  pub new_delta : ℕ
  pub review_delta : ℕ
  pub milliseconds_delta : ℤ

-- `LegacyReviewUndo` of pylib/anki/collection.py
pub record ReviewUndo : Type 0 where
  pub card : Card
  pub was_leech : Bool

-- The attributes of `Scheduler`, the card object in hand, the tables that the methods write, and
-- how many readings of the clock and random draws have been used.
pub record State : Type 0 where
  pub card : Card
  pub cards : List Card
  pub revlog : List Entry
  pub stats : List StatsUpdate
  pub leech_notes : List ℕ
  pub undo : List ReviewUndo
  pub new_count : ℤ
  pub rev_count : ℤ
  pub lrn_count : ℤ
  pub immediate_learn_count : ℤ
  pub reps : ℕ
  pub have_queues : Bool
  pub lrn_cutoff : ℕ
  pub current_deck_id : ℕ
  pub active_decks : List ℕ
  pub new_queue : List ℕ
  pub rev_queue : List ℕ
  pub lrn_queue : List (ℤ × ℕ)
  pub lrn_day_queue : List ℕ
  pub new_dids : List ℕ
  pub lrn_dids : List ℕ
  pub new_card_modulus : ℤ
  pub reads : ℕ
  pub draws : ℕ
  pub queries : ℕ

pub data NewSpread : Type 0 where
  distribute last first other : NewSpread

-- The keys of a deck that the scheduler reads.
pub record Deck : Type 0 where
  pub id : ℕ
  pub dyn : Bool

-- A node of the backend's deck tree.
pub record DueCounts : Type 0 where
  pub new_count : ℕ
  pub review_count : ℕ
  pub learn_count : ℕ

-- What the scheduler calls and does not implement: the numbers, the deck manager, the collection's
-- configuration, the backend, the clock and the generator of random numbers.
pub record Env (N : Type 0) : Type 0 where
  pub num : Number N
  -- `config_dict_for_deck_id`; `none` where its assertion fails
  pub deck_conf : ℕ → Option (DeckConf N)
  -- the n-th reading of the clock, in nanoseconds
  pub time : ℕ → ℕ
  -- the n-th draw; the range that is asked for is put on it by a remainder
  pub draw : ℕ → ℕ
  pub today : ℕ
  pub day_cutoff : ℕ
  pub usn : ℤ
  pub collapse_time : ℕ
  pub new_spread : NewSpread
  pub day_learn_first : Bool
  pub selected : ℕ
  pub deck_and_child_ids : ℕ → List ℕ
  pub deck : ℕ → Option Deck
  pub parents : ℕ → List Deck
  -- the backend's counts for a deck in the tree, from the cards as they are stored
  -- and the time
  pub due_counts : ℕ → List Card → ℕ → Option DueCounts
  pub new_today : ℕ → ℤ
  pub review_today : ℕ → ℤ
  -- the filters that add-ons may put on the limit of a deck
  pub new_limit_hook : ℤ → ℕ → ℤ
  pub review_limit_hook : ℤ → ℕ → ℤ
  -- `bury_cards(ids, manual=False)`
  pub bury : List ℕ → List Card → List Card
  -- SQLite's `random()` in the n-th query that calls it, for the row of a card
  pub sql_random : ℕ → ℕ → ℕ
  -- `random.shuffle` after `seed`
  pub shuffle : ℕ → List ℕ → List ℕ

pub data Error : Type 0 where
  invalid_ease_or_queue invalid_queue invalid_ease odid_unset early_input : Error
  key_error index_error assertion_error type_error value_error duplicate_pk not_found : Error

pub data Result (A : Type 0) : Type 0 where
  ok : A → Result A
  raise : Error → Result A

-- What was written before an exception stays written.
abbrev pub Action : Type 0 → Type 0
Action A = State → Result A × State

module _ {A : Type 0} where
  abbrev pub pure : A → Action A
  pure a s = (ok a, s)

  abbrev pub throw : Error → Action A
  throw e s = (raise e, s)

  abbrev pub gets : (State → A) → Action A
  gets f s = (ok (f s), s)

  abbrev pub or_raise : Option A → Error → Action A
  or_raise none e = throw e
  or_raise (some a) e = pure a

  abbrev pub lift : Result A → Action A
  lift (ok a) = pure a
  lift (raise e) = throw e

  -- `try: body` / `except: handler`
  abbrev pub try_except : Action A → Action A → Action A
  try_except body handler s =
      let (r, s') = body s in elim r [ ok a ↦ (ok a, s') | raise e ↦ handler s' ]

infixl 5 ◌>>=◌ ◌>>◌
abbrev pub ◌>>=◌ : {A B : Type 0} → Action A → (A → Action B) → Action B
◌>>=◌ m f s = let (r, s') = m s in elim r [ ok a ↦ f a s' | raise e ↦ (raise e, s') ]

abbrev pub ◌>>◌ : {A B : Type 0} → Action A → Action B → Action B
m >> k = m >>= λ _. k

abbrev pub modify : (State → State) → Action (Unit {0})
modify f s = (ok tt, f s)

abbrev pub get_card : Action Card
get_card s = (ok s.card, s)

abbrev pub modify_card : (Card → Card) → Action (Unit {0})
modify_card f s = (ok tt, record s { card = f s.card })

abbrev pub raise_if : Bool → Error → Action (Unit {0})
raise_if true e = throw e
raise_if false e = pure tt

-- `if c: body`
abbrev pub when : Bool → Action (Unit {0}) → Action (Unit {0})
when true m = m
when false m = pure tt

module _ {N : Type 0} (env : Env N) where
  -- `time.time()`, in nanoseconds
  abbrev pub time_ns : Action ℕ
  time_ns s = (ok (env.time s.reads), record s { reads = suc s.reads })

  -- `int_time()` of pylib/anki/utils.py
  abbrev pub int_time : Action ℕ
  int_time s = (ok (env.time s.reads / 1_000_000_000), record s { reads = suc s.reads })

  -- The draw behind one call of `random.randrange` or `random.randint`.
  abbrev pub next_draw : Action ℕ
  next_draw s = (ok (env.draw s.draws), record s { draws = suc s.draws })
