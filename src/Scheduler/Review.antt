-- ===== src/Scheduler/Review.antt =====
-- Answering a review card: `_answerRevCard`, `_rescheduleLapse`, `_checkLeech`, `_rescheduleRev`
-- and `_logRev` of pylib/anki/scheduler/v2.py.
pub mod Leech
pub mod Outcome
pub mod Total
use anki.Prelude.{
  ℕ, Bool, true, false, not, ◌&&◌, ◌||◌, Option, none, some, List, [], ◌∷◌, ◌+◌, ◌-◌, ◌/◌, ◌%◌, max,
  non_empty, contains, ◌==◌, leb, ltb, if◌then◌else◌,
}
use anki.Prelude.Int.{ℤ, pos, neg, ltb_ℤ, truthy}
use anki.Scheduler.Card.{CardType, CardQueue, RevlogType, Card}
use anki.Scheduler.Config.{QueueConf, LapseConf}
use anki.Scheduler.State.{
  Env, index_error, early_input, Action, pure, throw, gets, lift, raise_if, when, ◌>>=◌, ◌>>◌,
  modify, get_card, modify_card,
}
use anki.Scheduler.Lookup.{lapse_conf, rev_conf}
use anki.Scheduler.Intervals.{next_rev_ivl, early_ivl}
use anki.Scheduler.Revlog.{log_twice}
use anki.Scheduler.Learn.{
  leave_filtered, update_rev_ivl_on_fail, reschedule_as_rev, move_to_first_step,
}

abbrev pub is_suspended : CardQueue → Bool
is_suspended CardQueue.suspended = true
is_suspended _ = false

abbrev pub is_type_rev : CardType → Bool
is_type_rev CardType.rev = true
is_type_rev _ = false

-- At the threshold, and every half threshold of lapses after it.
unfoldable pub is_leech : ℕ → ℕ → Bool
is_leech fails lapses =
    not (fails == 0) && leb fails lapses && (lapses - fails) % max (fails / 2) 1 == 0

-- `f.add_tag("leech")` and `f.flush()`, over the notes that have the tag
abbrev pub tag_leech : ℕ → List ℕ → List ℕ
tag_leech nid notes = if contains nid notes then notes else nid ∷ notes

-- `card.odid and card.odue > self.today`
abbrev pub is_early : ℕ → Card → Bool
is_early today card = not (card.odid == 0) && ltb_ℤ (pos today) card.odue

-- `max(1300, card.factor + [-150, 0, 150][ease - 2])`
unfoldable pub factor_after : ℕ → ℕ → Option ℕ
factor_after factor ease =
    if ease == 2
    then some (max 1300 (factor - 150))
    else if ease == 3
    then some (max 1300 factor)
    else if ease == 4
    then some (max 1300 (factor + 150))
    else none

abbrev pub or_index_error : Option ℕ → Action ℕ
or_index_error none = throw index_error
or_index_error (some n) = pure n

module _ {N : Type 0} (env : Env N) where
  unfoldable pub check_leech : LapseConf N → Action Bool
  check_leech conf = do
    card ← get_card
    let leech = is_leech conf.leech_fails card.lapses
    when leech (
        modify (λ s. record s {
          leech_notes = tag_leech s.card.nid s.leech_notes;
          card =
              if conf.leech_suspends then record s.card { queue = CardQueue.suspended } else s.card;
        }))
    pure leech

  abbrev count_lapse : Card → Card
  count_lapse c = record c { lapses = c.lapses + 1; factor = max 1300 (c.factor - 200) }

  -- The two ways on from a lapse, of which the second gives a delay of zero.
  unfoldable pub relearn : LapseConf N → Action ℤ
  relearn conf = do
    modify_card (λ c. record c { type = CardType.relearning })
    move_to_first_step env (QueueConf.lapse conf)

  unfoldable pub keep_in_review : Bool → LapseConf N → Action ℤ
  keep_in_review suspended conf = do
    update_rev_ivl_on_fail env (QueueConf.lapse conf)
    reschedule_as_rev env (QueueConf.lapse conf) false
    when suspended (modify_card (λ c. record c { queue = CardQueue.suspended }))
    pure (pos 0)

  unfoldable pub after_leech : Bool → LapseConf N → Action ℤ
  after_leech leech conf = do
    card ← get_card
    let suspended = leech && is_suspended card.queue
    (if non_empty conf.delays && not suspended then relearn conf else keep_in_review suspended conf)

  unfoldable pub reschedule_lapse : Action ℤ
  reschedule_lapse = do
    card ← get_card
    conf ← lift (lapse_conf env card)
    modify_card count_lapse
    leech ← check_leech conf
    after_leech leech conf

  -- `_earlyReviewIvl`
  unfoldable pub early_review_ivl : Card → ℕ → Action ℕ
  early_review_ivl card ease = do
    raise_if
        (not (not (card.odid == 0) && is_type_rev card.type)
          || card.factor == 0
          || not (ltb 1 ease))
        early_input
    conf ← lift (rev_conf env card)
    pure (early_ivl env.num env.today card conf ease)

  -- `_nextRevIvl` with `fuzz=True`: it draws once for each candidate that it computes.
  unfoldable pub fuzzed_rev_ivl : Card → ℕ → Action ℕ
  fuzzed_rev_ivl card ease = do
    conf ← lift (rev_conf env card)
    first ← gets (λ s. s.draws)
    modify (λ s. record s { draws = first + (if ease == 2 then 1 else if ease == 3 then 2 else 3) })
    pure (next_rev_ivl env.num env.today card conf ease (λ n. some (env.draw (first + n))))

  unfoldable pub reschedule_rev : ℕ → Bool → Action (Unit {0})
  reschedule_rev ease early = do
    modify_card (λ c. record c { last_ivl = c.ivl })
    card ← get_card
    ivl ← (if early then early_review_ivl card ease else fuzzed_rev_ivl card ease)
    modify_card (λ c. record c { ivl = ivl })
    factor ← or_index_error (factor_after card.factor ease)
    modify_card (λ c. record c { factor = factor })
    modify_card (λ c. record c { due = pos (env.today + c.ivl) })
    modify_card leave_filtered

  -- `-delay or card.ivl`
  unfoldable pub log_rev : ℕ → ℤ → RevlogType → Action (Unit {0})
  log_rev ease delay type = do
    card ← get_card
    let ivl : ℤ = if truthy delay then neg delay else pos card.ivl
    log_twice env ease ivl (pos card.last_ivl) type

  unfoldable pub answer_rev_card : ℕ → Action (Unit {0})
  answer_rev_card ease = do
    card ← get_card
    let early = is_early env.today card
    delay ← (if ease == 1 then reschedule_lapse else reschedule_rev ease early >> pure (pos 0))
    log_rev ease delay (if early then RevlogType.cram else RevlogType.rev)
