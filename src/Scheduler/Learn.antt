-- ===== src/Scheduler/Learn.antt =====
-- Answering a (re)learning card: `_answerLrnCard` and what it calls in
-- pylib/anki/scheduler/v2.py, up to the row that `_logLrn` writes.
pub mod Placement
pub mod Outcome
pub mod Total
use anki.Prelude.{
  ℕ, Bool, true, false, not, ◌&&◌, Option, none, some, List, [], ◌∷◌, ◌+◌, ◌-◌, ◌*◌, ◌%◌, min, max,
  ◌==◌, leb, ltb, if◌then◌else◌,
}
use anki.Prelude.Int.{ℤ, pos, pos_part, ◌+ℤ◌, ◌-ℤ◌, neg, truthy, max_ℤ, min_ℤ, ltb_ℤ, floor_div}
use anki.Scheduler.Card.{CardType, CardQueue, RevlogType, Card, is_lapsed_type}
use anki.Scheduler.Config.{QueueConf, LapseConf, delays_of}
use anki.Scheduler.State.{
  Env, key_error, Result, ok, raise, Action, pure, lift, when, ◌>>=◌, ◌>>◌, modify, get_card,
  modify_card, int_time, next_draw,
}
use anki.Scheduler.Lookup.{lapse_conf, lrn_conf}
use anki.Scheduler.Revlog.{log_twice}
use anki.Scheduler.Steps.{left_today, starting_left, delay_for_grade, delay_for_repeating_grade}
use anki.Scheduler.Intervals.{lapse_ivl, graduating_ivl}

-- Entries of the learning queue are ordered by due time, then by id, as Python orders tuples.
abbrev pub entry_before : ℤ × ℕ → ℤ × ℕ → Bool
entry_before (d, i) (e, j) = if ltb_ℤ d e then true else if ltb_ℤ e d then false else ltb i j

-- `heappush`. The code only asks for the smallest entry and for emptiness, so the heap is kept as
-- its sorted list.
unfoldable pub heappush : ℤ × ℕ → List (ℤ × ℕ) → List (ℤ × ℕ)
heappush e [] = e ∷ []
heappush e (x ∷ xs) = let rest = heappush e xs in if entry_before e x then e ∷ x ∷ xs else x ∷ rest

-- `max(card.due, smallestDue + 1)`, if the queue is all that is left.
abbrev pub behind_smallest : Bool → List (ℤ × ℕ) → ℤ → ℤ
behind_smallest only [] due = due
behind_smallest only ((smallest, i) ∷ q) due = if only then max_ℤ due (smallest +ℤ pos 1) else due

-- `_removeFromFiltered`
abbrev pub leave_filtered : Card → Card
leave_filtered c = if c.odid == 0 then c else record c { did = c.odid; odue = pos 0; odid = 0 }

abbrev pub graduate_lapse : ℕ → Bool → Card → Card
graduate_lapse today early c =
    let ivl = c.ivl + (if early then 1 else 0) in
    record c { ivl = ivl; due = pos (today + ivl); queue = CardQueue.rev; type = CardType.rev }

abbrev pub graduate_new : ℕ → ℕ → ℕ → Card → Card
graduate_new today ivl factor c = record c {
  ivl = ivl;
  due = pos (today + ivl);
  factor = factor;
  type = CardType.rev;
  queue = CardQueue.rev;
}

module _ {N : Type 0} (env : Env N) where
  unfoldable pub log_lrn : ℕ → QueueConf N → Bool → RevlogType → ℕ → Action (Unit {0})
  log_lrn ease conf leaving type last_left = do
    card ← get_card
    let delays = delays_of conf
    let last_ivl = neg (delay_for_grade env.num delays last_left)
    let ivl : ℤ =
        if leaving
        then pos card.ivl
        else if ease == 2
        then neg (delay_for_repeating_grade env.num delays card.left)
        else neg (delay_for_grade env.num delays card.left)
    log_twice env ease ivl last_ivl type

  -- The branch of `_rescheduleLrnCard` for a card that is due today, `fuzz` seconds later.
  unfoldable pub requeue_today : ℕ → Action (Unit {0})
  requeue_today fuzz = do
    modify_card (λ c. record c {
      due = min_ℤ (pos env.day_cutoff -ℤ pos 1) (c.due +ℤ pos fuzz);
      queue = CardQueue.lrn;
    })
    card ← get_card
    now ← int_time env
    when (ltb_ℤ card.due (pos (now + env.collapse_time))) (
        modify (λ s.
          let only = not (truthy s.rev_count) && not (truthy s.new_count) in
          let due = behind_smallest only s.lrn_queue s.card.due in
          record s {
            lrn_count = s.lrn_count +ℤ pos 1;
            card = record s.card { due = due };
            lrn_queue = heappush (due, s.card.id) s.lrn_queue;
          }))

  -- The branch for a card that is due after the day's cutoff.
  abbrev requeue_later : Card → Card
  requeue_later c =
      let ahead = floor_div (c.due -ℤ pos env.day_cutoff) (pos 86_400) +ℤ pos 1 in
      record c { due = pos env.today +ℤ ahead; queue = CardQueue.day_learn_relearn }

  -- The fuzz is drawn below `max(1, min(300, int(delay * 0.25)))`.
  abbrev max_extra : ℤ → ℕ
  max_extra delay = max 1 (
      min 300
        (pos_part (env.num.trunc (env.num.mul (env.num.of_int delay) (env.num.literal 25 2)))))

  unfoldable pub reschedule_lrn_card : QueueConf N → Option ℤ → Action ℤ
  reschedule_lrn_card conf given = do
    card ← get_card
    let delay : ℤ = elim given [
      | none ↦ delay_for_grade env.num (delays_of conf) card.left
      | some d ↦ d
    ]
    now ← int_time env
    modify_card (λ c. record c { due = pos now +ℤ delay })
    (if ltb_ℤ (pos now +ℤ delay) (pos env.day_cutoff)
        then (next_draw env >>= λ draw. requeue_today (draw % max_extra delay))
        else modify_card requeue_later)
    pure delay

  unfoldable pub starting_left_of : Action ℕ
  starting_left_of = do
    card ← get_card
    delays ← (elim card.type [
      | CardType.relearning ↦ lift (lapse_conf env card) >>= λ c. pure c.delays
      | _ ↦ lift (lrn_conf env card) >>= λ c. pure (delays_of c)
    ])
    now ← int_time env
    pure (starting_left env.num env.day_cutoff now delays)

  abbrev pub lapse_keys : QueueConf N → Result (LapseConf N)
  lapse_keys (QueueConf.lapse c) = ok c
  lapse_keys (QueueConf.new c) = raise key_error

  unfoldable pub update_rev_ivl_on_fail : QueueConf N → Action (Unit {0})
  update_rev_ivl_on_fail conf = do
    modify_card (λ c. record c { last_ivl = c.ivl })
    keys ← lift (lapse_keys conf)
    modify_card (λ c. record c { ivl = lapse_ivl env.num c.ivl keys })

  abbrev is_relearning : CardType → Bool
  is_relearning CardType.relearning = true
  is_relearning CardType.new = false
  is_relearning CardType.lrn = false
  is_relearning CardType.rev = false

  unfoldable pub move_to_first_step : QueueConf N → Action ℤ
  move_to_first_step conf = do
    left ← starting_left_of
    modify_card (λ c. record c { left = left })
    card ← get_card
    when (is_relearning card.type) (update_rev_ivl_on_fail conf)
    reschedule_lrn_card conf none

  unfoldable pub move_to_next_step : QueueConf N → Action (Unit {0})
  move_to_next_step conf = do
    card ← get_card
    let left = card.left % 1000 - 1
    now ← int_time env
    let today = left_today env.num env.day_cutoff now (delays_of conf) left
    modify_card (λ c. record c { left = today * 1000 + left })
    reschedule_lrn_card conf none
    pure tt

  unfoldable pub repeat_step : QueueConf N → Action (Unit {0})
  repeat_step conf = do
    card ← get_card
    reschedule_lrn_card conf (some (delay_for_repeating_grade env.num (delays_of conf) card.left))
    pure tt

  abbrev initial_factor_of : QueueConf N → Result ℕ
  initial_factor_of (QueueConf.new c) = ok c.initial_factor
  initial_factor_of (QueueConf.lapse c) = raise key_error

  unfoldable pub reschedule_new : QueueConf N → Bool → Action (Unit {0})
  reschedule_new conf early = do
    card ← get_card
    draw ← next_draw env
    ivl ← lift (graduating_ivl env.num card conf early (some draw))
    factor ← lift (initial_factor_of conf)
    modify_card (graduate_new env.today ivl factor)

  unfoldable pub reschedule_as_rev : QueueConf N → Bool → Action (Unit {0})
  reschedule_as_rev conf early = do
    card ← get_card
    (if is_lapsed_type card.type
        then modify_card (graduate_lapse env.today early)
        else reschedule_new conf early)
    modify_card leave_filtered

  -- What the pressed button does, and whether the card leaves the learning queue.
  unfoldable pub press_lrn : ℕ → QueueConf N → Action Bool
  press_lrn ease conf = do
    card ← get_card
    (if ease == 4
        then reschedule_as_rev conf true >> pure true
        else if ease == 3
        then (if leb (card.left % 1000 - 1) 0
            then reschedule_as_rev conf false >> pure true
            else move_to_next_step conf >> pure false)
        else if ease == 2
        then repeat_step conf >> pure false
        else move_to_first_step conf >> pure false)

  unfoldable pub answer_lrn_card : ℕ → Action (Unit {0})
  answer_lrn_card ease = do
    card ← get_card
    conf ← lift (lrn_conf env card)
    let type : RevlogType = if is_lapsed_type card.type then RevlogType.relrn else RevlogType.lrn
    leaving ← press_lrn ease conf
    log_lrn ease conf leaving type card.left
