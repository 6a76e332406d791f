-- ===== src/Scheduler/Learn/Total.antt =====
-- Which calls return: `_answerLrnCard` and what it calls, for a card of a normal deck.
use anki.Prelude.{
  ℕ, suc, ◌+◌, ◌*◌, ◌/◌, ◌%◌, ◌-◌, ◌≤◌, ◌≡◌, inl, inr, Bool, true, false, none, some, Option, List,
  [], ◌∷◌, length, get_elem?, refl, arith, if◌then◌else◌,
}
use anki.Prelude.Int.{ℤ}
use anki.Scheduler.Card.{current_deck_id, CardType, Card, is_lapsed_type, RevlogType}
use anki.Scheduler.Config.{DeckConf, NormalConf, QueueConf, delays_of}
use anki.Scheduler.State.{State, Env, Entry, Result, ok, raise}
use anki.Scheduler.Logic.{Run-cases}
use anki.Scheduler.Lookup.{card_conf, new_conf, lapse_conf, lrn_conf, time_limit}
use anki.Scheduler.Steps.{delay_for_repeating_grade, left_today}
use anki.Scheduler.Intervals.{graduating_ivl}
use anki.Scheduler.Revlog.{has_entry, time_taken, insert_revlog, log, log_twice}
use anki.Scheduler.Learn.Outcome.{starting_left_of-card}
use anki.Scheduler.Learn.{
  reschedule_lrn_card, requeue_today, starting_left_of, update_rev_ivl_on_fail, move_to_first_step,
  move_to_next_step, repeat_step, reschedule_new, reschedule_as_rev, press_lrn, log_lrn,
  answer_lrn_card,
}

-- The call returns, and `Q` holds of the state.
abbrev pub Finishes : {A : Type 0} → (State → Type 0) → Result A × State → Type 0
Finishes Q (ok a, s) = Q s
Finishes Q (raise e, s) = ⊥

-- What the lookups of the options and the write of the card depend on.
abbrev pub Keeps : State → State → Type 0
Keeps s t =
    (t.card.did ≡ s.card.did)
    × (t.card.odid ≡ s.card.odid)
    × (t.card.id ≡ s.card.id)
    × (t.card.timer_started ≡ s.card.timer_started)
    × (t.revlog ≡ s.revlog)
    × (t.cards ≡ s.cards)

two_elems :
    (xs : List ℕ)
    → 2 ≤ length xs
    → (i j : ℕ) × (get_elem? xs 0 ≡ some i) × (get_elem? xs 1 ≡ some j)
two_elems [] h = ground (arith, h)
two_elems (x ∷ []) h = ground (arith, h)
two_elems (x ∷ y ∷ xs) h = (x, y, refl, refl)

-- `Keeps`, but for the log.
abbrev pub KeepsCard : State → State → Type 0
KeepsCard s t =
    (t.card.did ≡ s.card.did)
    × (t.card.odid ≡ s.card.odid)
    × (t.card.id ≡ s.card.id)
    × (t.card.timer_started ≡ s.card.timer_started)
    × (t.cards ≡ s.cards)

abbrev pub LogsOnly : State → State → Type 0
LogsOnly s t = (t.card ≡ s.card) × (t.cards ≡ s.cards)

module _ {N : Type 0} (env : Env N) (conf : NormalConf N) where
  -- The card is in its home deck, which has these options.
  abbrev pub IsAtHome : Card → Type 0
  IsAtHome c = (c.odid ≡ 0) × (env.deck_conf c.did ≡ some (DeckConf.normal conf))

  -- The options for cards of the type.
  abbrev pub options_for : CardType → QueueConf N
  options_for type =
      if is_lapsed_type type then QueueConf.lapse conf.lapse else QueueConf.new conf.new

  pub lrn_conf-IsAtHome : (c : Card) → IsAtHome c → lrn_conf env c ≡ ok (options_for c.type)
  unfolding lrn_conf lapse_conf new_conf card_conf
  lrn_conf-IsAtHome c h = ground arith

  pub lapse_conf-IsAtHome : (c : Card) → IsAtHome c → lapse_conf env c ≡ ok conf.lapse
  unfolding lapse_conf card_conf
  lapse_conf-IsAtHome c h = ground arith

  reschedule_lrn_card-Finishes :
      (q : QueueConf N) (given : Option ℤ) (s : State)
      → Finishes (Keeps s) (reschedule_lrn_card env q given s)
  unfolding reschedule_lrn_card requeue_today
  reschedule_lrn_card-Finishes q given s = ground arith

  pub starting_left_of-Finishes :
      (s : State) → IsAtHome s.card → Finishes (Keeps s) (starting_left_of env s)
  unfolding starting_left_of
  starting_left_of-Finishes s h =
      ground (arith, lrn_conf-IsAtHome s.card h, lapse_conf-IsAtHome s.card h)

  pub update_rev_ivl_on_fail-Finishes :
      (s : State) → Finishes (Keeps s) (update_rev_ivl_on_fail env (QueueConf.lapse conf.lapse) s)
  unfolding update_rev_ivl_on_fail
  update_rev_ivl_on_fail-Finishes s = ground arith

  pub reschedule_as_rev-Finishes :
      (early : Bool) (type : CardType) (s : State)
      → 2 ≤ length conf.new.ints
      → IsAtHome s.card
      → s.card.type ≡ type
      → Finishes (Keeps s) (reschedule_as_rev env (options_for type) early s)
  unfolding reschedule_as_rev reschedule_new graduating_ivl
  reschedule_as_rev-Finishes early type s n h e =
      let (i, j, p, q) = two_elems conf.new.ints n in ground (arith, p, q)

  pub move_to_first_step-Finishes :
      (s : State)
      → IsAtHome s.card
      → Finishes (Keeps s) (move_to_first_step env (options_for s.card.type) s)
  unfolding move_to_first_step
  move_to_first_step-Finishes s h =
      let q = options_for s.card.type in
      elim (Run-cases (starting_left_of env s)) [
        | inr (err, t, e) ↦ ground (arith, starting_left_of-Finishes s h)
        | inl (left, t, e) ↦
            let u = record t { card = record t.card { left = left } } in
            let v = (update_rev_ivl_on_fail env (QueueConf.lapse conf.lapse) u).1 in
            ground (
              arith,
              starting_left_of-Finishes s h,
              starting_left_of-card env s,
              update_rev_ivl_on_fail-Finishes u,
              reschedule_lrn_card-Finishes q none u,
              reschedule_lrn_card-Finishes q none v,
            )
      ]

  move_to_next_step-Finishes :
      (q : QueueConf N) (s : State) → Finishes (Keeps s) (move_to_next_step env q s)
  unfolding move_to_next_step
  move_to_next_step-Finishes q s =
      let left = s.card.left % 1000 - 1 in
      let today =
        left_today env.num env.day_cutoff (env.time s.reads / 1_000_000_000) (delays_of q) left in
      let t = record s {
        reads = suc s.reads;
        card = record s.card { left = today * 1000 + left };
      } in
      ground (arith, reschedule_lrn_card-Finishes q none t)

  repeat_step-Finishes : (q : QueueConf N) (s : State) → Finishes (Keeps s) (repeat_step env q s)
  unfolding repeat_step
  repeat_step-Finishes q s = ground (
    arith,
    reschedule_lrn_card-Finishes q
        (some (delay_for_repeating_grade env.num (delays_of q) s.card.left)) s,
  )

  press_lrn-Finishes :
      (ease : ℕ) (s : State)
      → 2 ≤ length conf.new.ints
      → IsAtHome s.card
      → Finishes (Keeps s) (press_lrn env ease (options_for s.card.type) s)
  unfolding press_lrn
  press_lrn-Finishes ease s n h =
      let q = options_for s.card.type in
      ground (
        arith,
        reschedule_as_rev-Finishes true s.card.type s n h refl,
        reschedule_as_rev-Finishes false s.card.type s n h refl,
        move_to_next_step-Finishes q s,
        repeat_step-Finishes q s,
        move_to_first_step-Finishes s h,
      )

  -- The clock shows no time that is a key of the log.
  abbrev pub HasFreeKeys : List Entry → Type 0
  HasFreeKeys log = (n : ℕ) → has_entry (env.time n / 1_000_000) log ≡ false

  pub time_taken-Finishes :
      (started : ℕ) (s : State)
      → IsAtHome s.card
      → s.card.timer_started ≡ some started
      → Finishes (Keeps s) (time_taken env s)
  unfolding time_taken time_limit current_deck_id
  time_taken-Finishes started s h t = ground arith

  pub log_twice-Finishes :
      (ease : ℕ) (ivl last_ivl : ℤ) (type : RevlogType) (started : ℕ) (s : State)
      → IsAtHome s.card
      → s.card.timer_started ≡ some started
      → has_entry (env.time s.reads / 1_000_000) s.revlog ≡ false
      → Finishes (LogsOnly s) (log_twice env ease ivl last_ivl type s)
  unfolding log_twice log insert_revlog time_taken time_limit current_deck_id
  log_twice-Finishes ease ivl last_ivl type started s h t k = ground arith

  log_lrn-Finishes :
      (ease : ℕ) (q : QueueConf N) (leaving : Bool) (type : RevlogType) (left started : ℕ)
      (s : State)
      → IsAtHome s.card
      → s.card.timer_started ≡ some started
      → has_entry (env.time s.reads / 1_000_000) s.revlog ≡ false
      → Finishes (LogsOnly s) (log_lrn env ease q leaving type left s)
  unfolding log_lrn
  log_lrn-Finishes ease q leaving type left started s h t k =
      log_twice-Finishes ease _ _ type started s h t k

  pub answer_lrn_card-Finishes :
      (ease started : ℕ) (s : State)
      → 2 ≤ length conf.new.ints
      → IsAtHome s.card
      → s.card.timer_started ≡ some started
      → HasFreeKeys s.revlog
      → Finishes (KeepsCard s) (answer_lrn_card env ease s)
  unfolding answer_lrn_card
  answer_lrn_card-Finishes ease started s n h t k =
      let q = options_for s.card.type in
      let type : RevlogType =
        if is_lapsed_type s.card.type then RevlogType.relrn else RevlogType.lrn in
      elim (Run-cases (press_lrn env ease q s)) [
        | inr (err, u, e) ↦
            ground (arith, lrn_conf-IsAtHome s.card h, press_lrn-Finishes ease s n h)
        | inl (leaving, u, e) ↦ ground (
          arith,
          lrn_conf-IsAtHome s.card h,
          press_lrn-Finishes ease s n h,
          log_lrn-Finishes ease q leaving type s.card.left started u,
          k u.reads,
        )
      ]
