-- ===== src/Scheduler/NextTimes.antt =====
-- What the answer buttons show: `nextIvl`, `_nextLrnIvl`, `counts`, `countIdx`, `answerButtons`
-- and `_is_finished` of pylib/anki/scheduler/v2.py.
pub mod Agree
use anki.Prelude.{
  ℕ, Bool, true, false, not, ◌||◌, List, [], ◌∷◌, Option, none, some, length, ◌-◌, ◌*◌, ◌%◌, ◌==◌,
  leb, if◌then◌else◌,
}
use anki.Prelude.Int.{ℤ, pos, ◌+ℤ◌, truthy}
use anki.Scheduler.Card.{CardQueue, Card}
use anki.Scheduler.Config.{LapseConf, delays_of}
use anki.Scheduler.State.{
  State, Env, Action, pure, lift, when, ◌>>=◌, ◌>>◌, get_card, modify_card, Result, ok, raise,
}
use anki.Scheduler.Lookup.{
  map_result, resched_key, card_conf, lapse_conf, rev_conf, lrn_conf, previewing_card,
  preview_delay,
}
use anki.Scheduler.Steps.{delay_for_grade, delay_for_repeating_grade}
use anki.Scheduler.Intervals.{lapse_ivl, graduating_ivl, next_rev_ivl}
use anki.Scheduler.Learn.{starting_left_of}
use anki.Scheduler.Review.{is_early, early_review_ivl}
use anki.Scheduler.Answer.{is_queue_new, is_learning_queue}

-- `QUEUE_TYPE_LRN` stands for the queues that are counted with it.
unfoldable pub count_idx : CardQueue → CardQueue
count_idx CardQueue.day_learn_relearn = CardQueue.lrn
count_idx CardQueue.preview = CardQueue.lrn
count_idx q = q

-- `counts[idx] += 1` on the list of the three counts. A queue below zero counts from the end.
abbrev bump_count : CardQueue → ℤ × ℤ × ℤ → ℤ × ℤ × ℤ
bump_count CardQueue.manually_buried (n, l, r) = (n +ℤ pos 1, l, r)
bump_count CardQueue.sibling_buried (n, l, r) = (n, l +ℤ pos 1, r)
bump_count CardQueue.suspended (n, l, r) = (n, l, r +ℤ pos 1)
bump_count CardQueue.new (n, l, r) = (n +ℤ pos 1, l, r)
bump_count CardQueue.lrn (n, l, r) = (n, l +ℤ pos 1, r)
bump_count CardQueue.rev (n, l, r) = (n, l, r +ℤ pos 1)
-- `count_idx` returns none of these two
bump_count CardQueue.day_learn_relearn c = c
bump_count CardQueue.preview c = c

unfoldable pub counts : State → Option Card → ℤ × ℤ × ℤ
counts s none = (s.new_count, s.lrn_count, s.rev_count)
counts s (some card) = bump_count (count_idx card.queue) (s.new_count, s.lrn_count, s.rev_count)

unfoldable pub is_finished : State → Bool
is_finished s = not (truthy s.new_count || truthy s.rev_count || truthy s.immediate_learn_count)

module _ {N : Type 0} (env : Env N) where
  -- `card.odid and not conf["resched"]`
  unfoldable pub answer_buttons : Card → Result ℕ
  answer_buttons card = elim (card_conf env card) [
    | raise e ↦ raise e
    | ok conf ↦ elim (card.odid == 0) [
      | true ↦ ok 4
      | false ↦ map_result (λ (resched : Bool). if resched then 4 else 2) (resched_key conf)
    ]
  ]

  abbrev days : ℕ → ℤ
  days n = pos (n * 86_400)

  -- `_nextLrnIvl`, in seconds. For a card of the new queue it also writes `card.left`.
  unfoldable pub next_lrn_ivl : ℕ → Action ℤ
  next_lrn_ivl ease = do
    fresh ← get_card
    when (is_queue_new fresh.queue)
        (do left ← starting_left_of env; modify_card (λ c. record c { left = left }))
    card ← get_card
    conf ← lift (lrn_conf env card)
    let delays = delays_of conf
    (if ease == 1
        then pure (delay_for_grade env.num delays (length delays))
        else if ease == 2
        then pure (delay_for_repeating_grade env.num delays card.left)
        else if ease == 4
        then lift (map_result days (graduating_ivl env.num card conf true none))
        else if leb (card.left % 1000 - 1) 0
        then lift (map_result days (graduating_ivl env.num card conf false none))
        else pure (delay_for_grade env.num delays (card.left % 1000 - 1)))

  -- A lapse shows its first delay, which is not rounded to an int, or else the new interval.
  abbrev lapse_time : ℕ → LapseConf N → List N → N
  lapse_time ivl conf [] = env.num.of_int (days (lapse_ivl env.num ivl conf))
  lapse_time ivl conf (delay ∷ delays) = env.num.mul delay (env.num.of_int (pos 60))

  unfoldable pub next_ivl : ℕ → Action N
  next_ivl ease = do
    card ← get_card
    preview ← lift (previewing_card env card)
    (if preview
        then (if ease == 1
            then lift (map_result (λ s. env.num.of_int (pos s)) (preview_delay env card))
            else pure (env.num.of_int (pos 0)))
        else if is_queue_new card.queue || is_learning_queue card.queue
        then (next_lrn_ivl ease >>= λ s. pure (env.num.of_int s))
        else if ease == 1
        then lift (map_result (λ conf. lapse_time card.ivl conf conf.delays) (lapse_conf env card))
        else if is_early env.today card
        then (early_review_ivl env card ease >>= λ d. pure (env.num.of_int (days d)))
        else lift (
            map_result
              (λ conf.
                env.num.of_int (days (next_rev_ivl env.num env.today card conf ease (λ n. none))))
              (rev_conf env card)))
