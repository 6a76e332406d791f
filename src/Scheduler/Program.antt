-- ===== src/Scheduler/Program.antt =====
-- Every function of the scheduler under one name, for the tests that run it.
use anki.Prelude.Int.{◌+ℤ◌, ◌-ℤ◌, ◌*ℤ◌, floor_div}
use anki.Scheduler.Card.{queue_code, current_deck_id}
use anki.Scheduler.Lookup.{
  card_conf, new_conf, lapse_conf, rev_conf, lrn_conf, previewing_card, preview_delay, time_limit,
}
use anki.Scheduler.Steps.{
  seconds, scan_today, left_today, starting_left, delay_for_grade, delay_for_repeating_grade,
}
use anki.Scheduler.Intervals.{
  days_late, fuzz_width, fuzz_ivl_range, fuzzed_ivl, constrained_ivl, hard_ivl, good_ivl, easy_ivl,
  next_rev_ivl, early_ivl, lapse_ivl, graduating_ivl,
}
use anki.Scheduler.Revlog.{saturated_i32, insert_revlog, time_taken, log, log_twice}
use anki.Scheduler.Learn.{
  heappush, log_lrn, requeue_today, reschedule_lrn_card, starting_left_of, update_rev_ivl_on_fail,
  move_to_first_step, move_to_next_step, repeat_step, reschedule_new, reschedule_as_rev, press_lrn,
  answer_lrn_card,
}
use anki.Scheduler.Review.{
  is_leech, factor_after, check_leech, relearn, keep_in_review, after_leech, reschedule_lapse,
  early_review_ivl, fuzzed_rev_ivl, reschedule_rev, log_rev, answer_rev_card,
}
use anki.Scheduler.Flush.{is_in_range, update_row, update_card, flush}
use anki.Scheduler.Answer.{
  discard_all, save_undo, restore_preview_card, bury_siblings, answer_card_preview, enter_learning,
  dispatch_answer, answer_scheduled, answer_inner, stamp_and_flush, answer_guarded, answer_card,
}
use anki.Scheduler.NextTimes.{
  count_idx, counts, is_finished, answer_buttons, next_lrn_ivl, next_ivl,
}
use anki.Scheduler.Tables.{
  insert_by, sort_by, select_new, select_rev, heapify, select_lrn, select_lrn_day, count_lrn,
}
use anki.Scheduler.Limits.{
  reset_counts, deck_new_limit_single, deck_rev_limit_single, narrow_all, deck_new_limit,
}
use anki.Scheduler.NewQueue.{
  new_card_modulus, reset_new, time_for_new_card, fill_new_from, fill_new, get_new_card,
}
use anki.Scheduler.LrnQueue.{
  update_lrn_cutoff, reset_lrn_count, reset_lrn, fill_lrn, get_lrn_card, fill_lrn_day_from,
  fill_lrn_day, get_lrn_day_card,
}
use anki.Scheduler.RevQueue.{fill_rev, get_rev_card}
use anki.Scheduler.Fetch.{reset, get_card_inner, fetch_card}

unfoldable pub program : Unit {0}
unfolding ◌+ℤ◌ ◌-ℤ◌ ◌*ℤ◌ floor_div queue_code current_deck_id card_conf new_conf lapse_conf rev_conf
    lrn_conf previewing_card preview_delay time_limit seconds scan_today left_today starting_left
    delay_for_grade delay_for_repeating_grade days_late fuzz_width fuzz_ivl_range fuzzed_ivl
    constrained_ivl hard_ivl good_ivl easy_ivl next_rev_ivl early_ivl lapse_ivl graduating_ivl
    saturated_i32 insert_revlog time_taken log log_twice heappush log_lrn requeue_today
    reschedule_lrn_card starting_left_of update_rev_ivl_on_fail move_to_first_step move_to_next_step
    repeat_step reschedule_new reschedule_as_rev press_lrn answer_lrn_card is_leech factor_after
    check_leech relearn keep_in_review after_leech reschedule_lapse early_review_ivl fuzzed_rev_ivl
    reschedule_rev log_rev answer_rev_card discard_all is_in_range update_row update_card flush
    save_undo restore_preview_card bury_siblings answer_card_preview enter_learning dispatch_answer
    answer_scheduled answer_inner stamp_and_flush answer_guarded answer_card count_idx counts
    is_finished answer_buttons next_lrn_ivl next_ivl insert_by sort_by select_new select_rev heapify
    select_lrn select_lrn_day count_lrn reset_counts deck_new_limit_single deck_rev_limit_single
    narrow_all deck_new_limit new_card_modulus reset_new time_for_new_card fill_new_from fill_new
    get_new_card update_lrn_cutoff reset_lrn_count reset_lrn fill_lrn get_lrn_card fill_lrn_day_from
    fill_lrn_day get_lrn_day_card fill_rev get_rev_card reset get_card_inner fetch_card
program = tt
