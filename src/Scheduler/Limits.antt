-- ===== src/Scheduler/Limits.antt =====
-- Counts and limits of decks: `_reset_counts`, `_deckNewLimit`, `_deckNewLimitSingle` and
-- `_deckRevLimitSingle` of pylib/anki/scheduler/v2.py, and the loading of a card.
pub mod Narrow
use anki.Prelude.{ℕ, zero, Option, none, some, List, [], ◌∷◌, if◌then◌else◌}
use anki.Prelude.Int.{ℤ, pos, negsuc, ◌-ℤ◌, max_ℤ, min_ℤ}
use anki.Scheduler.Card.{Card}
use anki.Scheduler.State.{
  State, Deck, DueCounts, Env, Result, ok, raise, type_error, not_found, Action, gets, or_raise,
  ◌>>=◌, modify, int_time,
}
use anki.Scheduler.Lookup.{lookup_conf, normal_key, map_result}
use anki.Scheduler.Tables.{find_row}

abbrev pub queue_limit : ℤ
queue_limit = pos 50

abbrev pub dyn_report_limit : ℤ
dyn_report_limit = pos 99_999

-- `self.col.decks.active()`
abbrev pub active : State → List ℕ
active s = elim s.active_decks [ [] ↦ 1 ∷ [] | d ∷ ds ↦ d ∷ ds ]

-- The attributes of the object alone are not loaded.
abbrev loaded : Card → Card
loaded row = record row { timer_started = none; last_ivl = 0 }

abbrev pub load_card : ℕ → Action (Unit {0})
load_card id = do
  row ← gets (λ s. find_row id s.cards)
  card ← or_raise row not_found
  modify (λ s. record s { card = loaded card })

module _ {N : Type 0} (env : Env N) where
  abbrev set_counts : Option DueCounts → State → State
  set_counts none s = record s {
    new_count = pos 0;
    rev_count = pos 0;
    immediate_learn_count = pos 0;
  }
  set_counts (some c) s = record s {
    new_count = pos c.new_count;
    rev_count = pos c.review_count;
    immediate_learn_count = pos c.learn_count;
  }

  unfoldable pub reset_counts : Action (Unit {0})
  reset_counts = do
    now ← int_time env
    modify (λ s. set_counts (env.due_counts now s.cards s.current_deck_id) s)

  -- `_deckNewLimitSingle` and `_deckRevLimitSingle`
  unfoldable pub deck_new_limit_single : Deck → Result ℤ
  deck_new_limit_single g =
      if g.dyn
      then ok dyn_report_limit
      else map_result
          (λ per_day. env.new_limit_hook (max_ℤ (pos 0) (pos per_day -ℤ env.new_today g.id)) g.id)
          (normal_key (λ c. c.new.per_day) (lookup_conf (env.deck_conf g.id)))

  unfoldable pub deck_rev_limit_single : Option Deck → Result ℤ
  deck_rev_limit_single none = ok (pos 0)
  deck_rev_limit_single (some d) =
      if d.dyn
      then ok dyn_report_limit
      else map_result
          (λ per_day.
            env.review_limit_hook (max_ℤ (pos 0) (pos per_day -ℤ env.review_today d.id)) d.id)
          (normal_key (λ c. c.rev.per_day) (lookup_conf (env.deck_conf d.id)))

  -- The loop of `_deckNewLimit`: -1 stands for no limit so far.
  abbrev pub narrow : ℤ → ℤ → ℤ
  narrow (negsuc zero) rem = rem
  narrow lim rem = min_ℤ rem lim

  unfoldable pub narrow_all : ℤ → List Deck → Result ℤ
  narrow_all lim [] = ok lim
  narrow_all lim (g ∷ gs) = elim (deck_new_limit_single g) [
    | raise e ↦ raise e
    | ok rem ↦ narrow_all (narrow lim rem) gs
  ]

  -- `decks.get`, which gives the default deck for one that is not there
  abbrev deck_or_default : ℕ → Option Deck
  deck_or_default did = elim (env.deck did) [ none ↦ env.deck 1 | some g ↦ some g ]

  -- For the deck and each of its parents. The limit of a deck that is not there cannot be taken.
  unfoldable pub deck_new_limit : ℕ → Result ℤ
  deck_new_limit did = elim (deck_or_default did) [
    | none ↦ raise type_error
    | some sel ↦ narrow_all (negsuc 0) (sel ∷ env.parents did)
  ]
