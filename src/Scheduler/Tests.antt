-- ===== src/Scheduler/Tests.antt =====
-- The scheduler at work on the sample collection, and each theorem at an input.
use anki.Prelude.{
  ℕ, ◌++◌, ◌+◌, ◌*◌, ◌/◌, ◌<◌, ◌≤◌, ◌≡◌, ◌≢◌, ◌⊎◌, ◌↔◌, refl, arith, true, some, none, List, [],
  ◌∷◌, none, max, min, length, map, select, All,
}
use native.Mathlib.Nat.{mul-le-mul_left}
use anki.Prelude.Int.{ℤ, pos, ◌≤ℤ◌, ◌+ℤ◌, ◌-ℤ◌, ◌*ℤ◌}
use anki.Scheduler.Card.{CardType, CardQueue, RevlogType, Card}
use anki.Scheduler.Config.{QueueConf, delays_of}
use anki.Scheduler.State.{ok, raise, index_error, value_error}
use anki.Scheduler.Logic.{Ensures}
use anki.Scheduler.Samples.{
  env, fresh, mature, learning, sibling, holding, home_deck, child_deck, thousandths, quotient,
  new_options, rev_options,
}
use anki.Scheduler.Steps.{slice_from_end, left_today}
use anki.Scheduler.Steps.Today.{steps_by, left_today-eq}
use anki.Scheduler.Intervals.{percent, fuzz_width, fuzzed_ivl, next_rev_ivl}
use anki.Scheduler.Intervals.Bounds.{next_rev_ivl-ordered}
use anki.Scheduler.Intervals.Fuzz.{CutsQuarter, fuzzed_ivl_range}
use anki.Scheduler.Revlog.{log_twice}
use anki.Scheduler.Revlog.Rows.{Logs, log_twice-Logs}
use anki.Scheduler.Learn.{reschedule_lrn_card, answer_lrn_card}
use anki.Scheduler.Learn.Placement.{reschedule_lrn_card-queue}
use anki.Scheduler.Learn.Outcome.{Stays, Graduates, answer_lrn_card-outcome}
use anki.Scheduler.Review.{is_leech, answer_rev_card}
use anki.Scheduler.Review.Leech.{is_leech_iff}
use anki.Scheduler.Review.Outcome.{Reviewed, answer_rev_card-Reviewed}
use anki.Scheduler.Answer.{is_sibling, bury_siblings, answer_card}
use anki.Scheduler.Answer.Stored.{IsStored, answer_card-IsStored}
use anki.Scheduler.Answer.Siblings.{AreGone, bury_siblings-AreGone}
use mathlib.Core.List.{Permᴰ}
use anki.Scheduler.Tables.{select_new, due_ord_before}
use anki.Scheduler.Tables.Select.{InOrder, is_new_of, select_new_lem}
use anki.Scheduler.Limits.{deck_new_limit}
use anki.Scheduler.Limits.Narrow.{Within, IsAttained, deck_new_limit_least}
use anki.Scheduler.NewQueue.{get_new_card}
use anki.Scheduler.RevQueue.{get_rev_card}
use anki.Scheduler.Fetch.{fetch_card}
use anki.Scheduler.Fetch.Pops.{fetch_queues-pop}
use anki.Scheduler.Program.{program}

abbrev summary : Card → CardType × CardQueue × ℤ × ℕ × ℕ × ℕ
summary c = (c.type, c.queue, c.due, c.ivl, c.factor, c.left)

good_new :
    summary (answer_card env 3 (holding fresh)).1.card
    ≡ (CardType.lrn, CardQueue.lrn, pos 10_602, 0, 0, 1001)
unfolding program
good_new = refl

good_mature :
    summary (answer_card env 3 (holding mature)).1.card
    ≡ (CardType.rev, CardQueue.rev, pos 159, 59, 2500, 0)
unfolding program
good_mature = refl

good_mature_returns : (answer_card env 3 (holding mature)).0 ≡ ok tt
unfolding program
good_mature_returns = refl

-- Its number of repetitions is the last one that the message takes.
abbrev far_behind : Card
far_behind = record mature { reps = 4_294_967_295 }

far_behind_raises : (answer_card env 3 (holding far_behind)).0 ≡ raise value_error
unfolding program
far_behind_raises = refl

again_mature :
    summary (answer_card env 1 (holding mature)).1.card
    ≡ (CardType.rev, CardQueue.suspended, pos 110, 10, 2300, 0)
unfolding program
again_mature = refl

easy_learning :
    summary (answer_card env 4 (holding learning)).1.card
    ≡ (CardType.rev, CardQueue.rev, pos 103, 3, 2500, 2002)
unfolding program
easy_learning = refl

fetched : (fetch_card env (holding fresh)).0 ≡ ok true
unfolding program
fetched = refl

answer_card-IsStored_example : Ensures (λ _ t. IsStored t) (answer_card env 3 (holding fresh))
answer_card-IsStored_example = answer_card-IsStored env 3 (holding fresh) refl

answer_rev_card-Reviewed_example :
    Ensures (λ _ t. Reviewed env 1 mature t.card) (answer_rev_card env 1 (holding mature))
answer_rev_card-Reviewed_example = answer_rev_card-Reviewed env 1 (holding mature) refl

answer_lrn_card-outcome_example :
    Ensures
      (λ _ t. Stays env learning t.card ⊎ Graduates env learning t.card)
      (answer_lrn_card env 4 (holding learning))
answer_lrn_card-outcome_example = answer_lrn_card-outcome env 4 (holding learning)

next_rev_ivl-ordered_example :
    let ivl = λ (ease : ℕ). next_rev_ivl thousandths 100 mature rev_options ease some in
    ((ivl 2 < ivl 3) ⊎ (ivl 3 ≡ 36_500))
    × ((ivl 3 < ivl 4) ⊎ (ivl 4 ≡ 36_500))
    × (ivl 2 ≤ 36_500)
    × (ivl 3 ≤ 36_500)
    × (ivl 4 ≤ 36_500)
next_rev_ivl-ordered_example = next_rev_ivl-ordered thousandths 100 mature rev_options some

bury_siblings-AreGone_example :
    Ensures
      (λ _ t. AreGone (select (is_sibling 100 sibling) (fresh ∷ mature ∷ learning ∷ [])) t)
      (bury_siblings env (holding sibling))
bury_siblings-AreGone_example = bury_siblings-AreGone env (holding sibling) (refl, tt) (refl, tt)

log_twice-Logs_example :
    Logs 3
      (pos 3_000_000_000)
      (pos 20)
      RevlogType.rev
      (holding mature)
      (log_twice env 3 (pos 3_000_000_000) (pos 20) RevlogType.rev (holding mature))
log_twice-Logs_example =
    log_twice-Logs env 3 (pos 3_000_000_000) (pos 20) RevlogType.rev (holding mature)

is_leech_iff_example : (is_leech 8 12 ≡ true) ↔ ((0 < 8) × ((k : ℕ) × (12 ≡ 8 + max (8 / 2) 1 * k)))
is_leech_iff_example = is_leech_iff 8 12

left_today-eq_example :
    left_today thousandths 20_000 19_900 (delays_of (QueueConf.new new_options)) 2
    ≡ max 1 (steps_by thousandths (pos 20_000) (pos 19_900) (slice_from_end new_options.delays 2))
left_today-eq_example = left_today-eq thousandths 20_000 19_900 new_options.delays 2

quotient_pos : (a : ℕ) → quotient (pos a) 1000 ≡ pos (a / 1000)
unfolding ◌-ℤ◌
quotient_pos a = ground arith

*ℤ_pos : (a b : ℕ) → pos a *ℤ pos b ≡ pos (a * b)
unfolding ◌*ℤ◌
*ℤ_pos a b = ground arith

percent-thousandths :
    (ivl p : ℕ) → percent thousandths ivl p ≡ ivl * 1000 * (p * 1000 / 100) / 1000 / 1000
percent-thousandths ivl p =
    rw
      (
        *ℤ_pos ivl 1000,
        *ℤ_pos (ivl * 1000) (p * 1000 / 100),
        quotient_pos (ivl * 1000 * (p * 1000 / 100)),
        quotient_pos (ivl * 1000 * (p * 1000 / 100) / 1000),
      )
      refl

thousandths-CutsQuarter : CutsQuarter thousandths
thousandths-CutsQuarter ivl p b h =
    let q = p * 1000 / 100 in
    let cut = mul-le-mul_left {m = q} {n = 250} (ivl * 1000) (omega arith) in
    rw (percent-thousandths ivl p) (omega arith)

fuzzed_ivl_range_example :
    let v = fuzzed_ivl thousandths 5 (pos 40) in
    (pos 1 ≤ℤ v)
    × (v ≤ℤ pos (40 + fuzz_width thousandths 40))
    × (pos 40 ≤ℤ v +ℤ pos (fuzz_width thousandths 40))
fuzzed_ivl_range_example =
    fuzzed_ivl_range thousandths 5 40 thousandths-CutsQuarter (omega arith) (omega arith)

reschedule_lrn_card-queue_example :
    let c = (reschedule_lrn_card env (QueueConf.new new_options) none (holding learning)).1.card in
    (c.type ≡ CardType.lrn)
    × ((c.queue ≡ CardQueue.lrn) ⊎ ((c.queue ≡ CardQueue.day_learn_relearn) × (pos 101 ≤ℤ c.due)))
reschedule_lrn_card-queue_example =
    reschedule_lrn_card-queue env (QueueConf.new new_options) none (holding learning)

fetch_queues-pop_example :
    ((get_new_card env (holding fresh)).0 ≢ raise index_error)
    × ((get_rev_card env (holding fresh)).0 ≢ raise index_error)
fetch_queues-pop_example = fetch_queues-pop env (holding fresh)

select_new_lem_example :
    let rows = fresh ∷ mature ∷ learning ∷ [] in
    (chosen : List Card) × (others : List Card) × (select_new 1 (pos 2) rows
      ≡ map (λ c. c.id) chosen)
    × Permᴰ (chosen ++ others) (select (is_new_of 1) rows)
    × InOrder due_ord_before (chosen ++ others)
    × (length chosen ≡ min 2 (length (select (is_new_of 1) rows)))
select_new_lem_example = select_new_lem 1 2 (fresh ∷ mature ∷ learning ∷ [])

child_limit : deck_new_limit env 3 ≡ ok (pos 15)
unfolding program
child_limit = refl

deck_new_limit_least_example :
    All (Within env (pos 15)) (child_deck ∷ home_deck ∷ [])
    × IsAttained env (pos 15) (child_deck ∷ home_deck ∷ [])
deck_new_limit_least_example =
    deck_new_limit_least env (λ lim did h. h) 3 child_deck (pos 15) refl child_limit
