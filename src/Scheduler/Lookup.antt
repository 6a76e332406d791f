-- ===== src/Scheduler/Lookup.antt =====
-- The configuration that applies to a card: `_cardConf`, `_newConf`, `_lapseConf`, `_revConf`,
-- `_lrnConf` and `_previewingCard` of pylib/anki/scheduler/v2.py. A missing key is a `KeyError`.
use anki.Prelude.{ℕ, Bool, true, false, not, Option, none, some, ◌==◌, ◌*◌}
use anki.Scheduler.Card.{Card, is_lapsed_type, current_deck_id}
use anki.Scheduler.Config.{NewOrder, NewConf, LapseConf, RevConf, NormalConf, DeckConf, QueueConf}
use anki.Scheduler.State.{Env, key_error, assertion_error, Result, ok, raise}

-- `d.get(key, default)`
abbrev pub get_default : {A : Type 0} → Option A → A → A
get_default none d = d
get_default (some a) d = a

abbrev pub report_limit : ℕ
report_limit = 1000

abbrev pub map_result : {A B : Type 0} → (A → B) → Result A → Result B
map_result f (ok a) = ok (f a)
map_result f (raise e) = raise e

module _ {N : Type 0} where
  abbrev pub lookup_conf : Option (DeckConf N) → Result (DeckConf N)
  lookup_conf none = raise assertion_error
  lookup_conf (some c) = ok c

  -- `conf["new"]`, `conf["lapse"]` and so on
  abbrev pub normal_key : {A : Type 0} → (NormalConf N → A) → Result (DeckConf N) → Result A
  normal_key f (raise e) = raise e
  normal_key f (ok (DeckConf.normal c)) = ok (f c)
  normal_key f (ok (DeckConf.filtered d)) = raise key_error

  -- `conf["resched"]`
  abbrev pub resched_key : DeckConf N → Result Bool
  resched_key (DeckConf.normal c) = raise key_error
  resched_key (DeckConf.filtered d) = ok d.resched

module _ {N : Type 0} (env : Env N) where
  unfoldable pub card_conf : Card → Result (DeckConf N)
  card_conf card = lookup_conf (env.deck_conf card.did)

  -- The configuration of the card's original deck.
  abbrev pub original_conf : Card → Result (DeckConf N)
  original_conf card = lookup_conf (env.deck_conf card.odid)

  abbrev pub override_new : NewConf N → NewConf N
  override_new c = record {
    delays = c.delays;
    ints = c.ints;
    initial_factor = c.initial_factor;
    bury = some (get_default c.bury true);
    order = NewOrder.due;
    per_day = report_limit;
  }

  abbrev pub override_lapse : Bool → LapseConf N → LapseConf N
  override_lapse r c = record c { resched = some r }

  unfoldable pub new_conf : Card → Result (NewConf N)
  unfolding card_conf
  new_conf card = elim (card_conf card) [
    | raise e ↦ raise e
    | ok conf ↦ elim (card.odid == 0) [
      | true ↦ normal_key (λ c. c.new) (ok conf)
      | false ↦ normal_key (λ c. override_new c.new) (original_conf card)
    ]
  ]

  -- The key `resched` of the card's own deck is read last.
  abbrev pub merge_lapse : DeckConf N → Result (LapseConf N) → Result (LapseConf N)
  merge_lapse conf (raise e) = raise e
  merge_lapse conf (ok l) = map_result (λ r. override_lapse r l) (resched_key conf)

  unfoldable pub lapse_conf : Card → Result (LapseConf N)
  unfolding card_conf
  lapse_conf card = elim (card_conf card) [
    | raise e ↦ raise e
    | ok conf ↦ elim (card.odid == 0) [
      | true ↦ normal_key (λ c. c.lapse) (ok conf)
      | false ↦ merge_lapse conf (normal_key (λ c. c.lapse) (original_conf card))
    ]
  ]

  unfoldable pub rev_conf : Card → Result (RevConf N)
  unfolding card_conf
  rev_conf card = elim (card_conf card) [
    | raise e ↦ raise e
    | ok conf ↦ elim (card.odid == 0) [
      | true ↦ normal_key (λ c. c.rev) (ok conf)
      | false ↦ normal_key (λ c. c.rev) (original_conf card)
    ]
  ]

  unfoldable pub lrn_conf : Card → Result (QueueConf N)
  unfolding new_conf lapse_conf
  lrn_conf card = elim (is_lapsed_type card.type) [
    | true ↦ map_result QueueConf.lapse (lapse_conf card)
    | false ↦ map_result QueueConf.new (new_conf card)
  ]

  -- `conf["dyn"] and not conf["resched"]`
  abbrev pub is_preview_conf : DeckConf N → Bool
  is_preview_conf (DeckConf.normal c) = false
  is_preview_conf (DeckConf.filtered d) = not d.resched

  unfoldable pub previewing_card : Card → Result Bool
  unfolding card_conf
  previewing_card card = map_result is_preview_conf (card_conf card)

  -- `.get("previewDelay", 10) * 60`; a normal deck's configuration has no such key
  abbrev pub preview_delay_of : DeckConf N → ℕ
  preview_delay_of (DeckConf.normal c) = 10 * 60
  preview_delay_of (DeckConf.filtered d) = get_default d.preview_delay 10 * 60

  unfoldable pub preview_delay : Card → Result ℕ
  unfolding card_conf
  preview_delay card = map_result preview_delay_of (card_conf card)

  -- `Card.time_limit`, in milliseconds
  unfoldable pub time_limit : Card → Result ℕ
  unfolding current_deck_id
  time_limit card =
      normal_key (λ c. c.max_taken * 1000) (lookup_conf (env.deck_conf (current_deck_id card)))
