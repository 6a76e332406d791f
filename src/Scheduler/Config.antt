-- ===== src/Scheduler/Config.antt =====
-- The deck configurations that the scheduler reads (`DeckConfigDict`), as
-- `config_dict_for_deck_id` of pylib/anki/decks.py returns them.
use anki.Prelude.{ℕ, Bool, List, Option}

-- `NEW_CARDS_RANDOM`, `NEW_CARDS_DUE`
pub data NewOrder : Type 0 where
  random due : NewOrder

-- `conf["new"]`
pub record NewConf (N : Type 0) : Type 0 where
  pub delays : List N
  pub ints : List ℕ
  pub initial_factor : ℕ
  pub bury : Option Bool
  pub order : NewOrder
  pub per_day : ℕ

-- `conf["lapse"]`. `resched` is the key that `_lapseConf` adds for a filtered deck.
pub record LapseConf (N : Type 0) : Type 0 where
  pub delays : List N
  pub mult : N
  pub min_int : ℕ
  pub leech_fails : ℕ
  pub leech_suspends : Bool
  pub resched : Option Bool

-- `conf["rev"]`
pub record RevConf (N : Type 0) : Type 0 where
  pub hard_factor : Option N
  pub ivl_fct : Option N
  pub ease4 : N
  pub max_ivl : ℕ
  pub bury : Option Bool
  pub per_day : ℕ

pub record NormalConf (N : Type 0) : Type 0 where
  pub new : NewConf N
  pub lapse : LapseConf N
  pub rev : RevConf N
  pub max_taken : ℕ

-- A filtered deck has its configuration in the deck itself.
pub record FilteredConf : Type 0 where
  pub resched : Bool
  pub preview_delay : Option ℕ

-- The key `dyn` tells the two apart, and neither has the keys of the other.
pub data DeckConf (N : Type 0) : Type 0 where
  normal : NormalConf N → DeckConf N
  filtered : FilteredConf → DeckConf N

-- What `_lrnConf` returns, and the learning methods take as `conf`.
pub data QueueConf (N : Type 0) : Type 0 where
  new : NewConf N → QueueConf N
  lapse : LapseConf N → QueueConf N

-- `conf["delays"]`
abbrev pub delays_of : {N : Type 0} → QueueConf N → List N
delays_of (QueueConf.new c) = c.delays
delays_of (QueueConf.lapse c) = c.delays
