-- ===== src/Scheduler/Intervals.antt =====
-- Review intervals in days: `_fuzzIvlRange`, `_fuzzedIvl`, `_constrainedIvl`, `_nextRevIvl`,
-- `_earlyReviewIvl`, `_lapseIvl`, `_daysLate` and `_graduatingIvl` of pylib/anki/scheduler/v2.py,
-- with the random draws as arguments.
pub mod Bounds
pub mod Fuzz
use anki.Prelude.{
  ℕ, suc, Bool, true, false, Option, none, some, get_elem?, ◌+◌, ◌/◌, ◌%◌, min, max, ◌==◌, ltb,
  if◌then◌else◌,
}
use anki.Prelude.Int.{ℤ, pos, negsuc, pos_part, ◌+ℤ◌, ◌-ℤ◌}
use anki.Scheduler.Number.{Number}
use anki.Scheduler.Card.{Card, is_lapsed_type}
use anki.Scheduler.Config.{QueueConf, LapseConf, RevConf}
use anki.Scheduler.State.{Result, ok, raise, key_error, index_error}
use anki.Scheduler.Lookup.{get_default}

unfoldable pub days_late : ℕ → Card → ℕ
days_late today card = pos_part (pos today -ℤ (if card.odid == 0 then card.due else card.odue))

-- `random.randint(min, max)`: the draw is put on the range
abbrev pub randint : ℕ → ℤ × ℤ → ℤ
randint draw (lo, hi) = lo +ℤ pos (draw % suc (pos_part (hi -ℤ lo)))

module _ {N : Type 0} (num : Number N) where
  abbrev int_num : ℕ → N
  int_num n = num.of_int (pos n)

  -- `max(a, b)`, which is `a` where the two are equal
  abbrev max_num : N → N → N
  max_num a b = if num.less a b then b else a

  -- `int(ivl * 0.nn)`, never below zero here
  abbrev pub percent : ℕ → ℕ → ℕ
  percent ivl p = pos_part (num.trunc (num.mul (int_num ivl) (num.literal p 2)))

  unfoldable pub fuzz_width : ℕ → ℕ
  fuzz_width ivl =
      if ltb ivl 7
      then max (percent ivl 25) 1
      else if ltb ivl 30
      then max (max 2 (percent ivl 15)) 1
      else max (max 4 (percent ivl 5)) 1

  unfoldable pub fuzz_ivl_range : ℤ → ℤ × ℤ
  fuzz_ivl_range (negsuc n) = (pos 1, pos 1)
  fuzz_ivl_range (pos ivl) =
      if ltb ivl 2
      then (pos 1, pos 1)
      else if ivl == 2
      then (pos 2, pos 3)
      else (pos ivl -ℤ pos (fuzz_width ivl), pos ivl +ℤ pos (fuzz_width ivl))

  unfoldable pub fuzzed_ivl : ℕ → ℤ → ℤ
  fuzzed_ivl draw ivl = randint draw (fuzz_ivl_range ivl)

  -- With `fuzz` the draw is given. The maximum of three is at least 1, so it is a natural number.
  unfoldable pub constrained_ivl : N → RevConf N → ℕ → Option ℕ → ℕ
  constrained_ivl x conf prev fuzz =
      let ivl = num.trunc (num.mul x (get_default conf.ivl_fct (int_num 1))) in
      let fuzzed : ℤ = elim fuzz [ none ↦ ivl | some draw ↦ fuzzed_ivl draw ivl ] in
      min (max (max (pos_part fuzzed) (prev + 1)) 1) conf.max_ivl

  -- The three candidates of `_nextRevIvl`, each built on the one before.
  abbrev pub hard_factor_of : RevConf N → N
  hard_factor_of conf = get_default conf.hard_factor (num.literal 12 1)

  abbrev pub factor_of : Card → N
  factor_of card = num.div (int_num card.factor) (int_num 1000)

  unfoldable pub hard_ivl : Card → RevConf N → Option ℕ → ℕ
  hard_ivl card conf fuzz =
      let hard_min : ℕ = if num.less (int_num 1) (hard_factor_of conf) then card.ivl else 0 in
      constrained_ivl (num.mul (int_num card.ivl) (hard_factor_of conf)) conf hard_min fuzz

  unfoldable pub good_ivl : ℕ → Card → RevConf N → ℕ → Option ℕ → ℕ
  good_ivl today card conf ivl2 fuzz =
      constrained_ivl (num.mul (int_num (card.ivl + days_late today card / 2)) (factor_of card))
        conf ivl2 fuzz

  unfoldable pub easy_ivl : ℕ → Card → RevConf N → ℕ → Option ℕ → ℕ
  easy_ivl today card conf ivl3 fuzz =
      constrained_ivl
        (num.mul (num.mul (int_num (card.ivl + days_late today card)) (factor_of card)) conf.ease4)
        conf ivl3 fuzz

  -- `draws n` is the n-th draw of the call, or nothing without `fuzz`.
  unfoldable pub next_rev_ivl : ℕ → Card → RevConf N → ℕ → (ℕ → Option ℕ) → ℕ
  next_rev_ivl today card conf ease draws =
      let ivl2 = hard_ivl card conf (draws 0) in
      let ivl3 = good_ivl today card conf ivl2 (draws 1) in
      let ivl4 = easy_ivl today card conf ivl3 (draws 2) in
      if ease == 2 then ivl2 else if ease == 3 then ivl3 else ivl4

  -- `_earlyReviewIvl` behind its check, which `Review.early_review_ivl` makes.
  abbrev early_factor : Card → RevConf N → ℕ → N
  early_factor card conf ease = if ease == 2 then hard_factor_of conf else factor_of card

  abbrev early_min : RevConf N → ℕ → N
  early_min conf ease = if ease == 2 then num.div (hard_factor_of conf) (int_num 2) else int_num 1

  abbrev easy_bonus : RevConf N → ℕ → N
  easy_bonus conf ease =
      if ease == 2
      then int_num 1
      else if ease == 3
      then int_num 1
      else num.sub conf.ease4 (num.div (num.sub conf.ease4 (int_num 1)) (int_num 2))

  unfoldable pub early_ivl : ℕ → Card → RevConf N → ℕ → ℕ
  early_ivl today card conf ease =
      let elapsed = pos card.ivl -ℤ (card.odue -ℤ pos today) in
      let ivl = max_num (num.mul (num.of_int elapsed) (early_factor card conf ease)) (int_num 1) in
      let capped = max_num (num.mul (int_num card.ivl) (early_min conf ease)) ivl in
      constrained_ivl (num.mul capped (easy_bonus conf ease)) conf 0 none

  unfoldable pub lapse_ivl : ℕ → LapseConf N → ℕ
  lapse_ivl ivl conf =
      max 1 (max conf.min_int (pos_part (num.trunc (num.mul (int_num ivl) conf.mult))))

  -- `conf["ints"][k]`
  abbrev ints_at : QueueConf N → ℕ → Result ℕ
  ints_at (QueueConf.lapse c) k = raise key_error
  ints_at (QueueConf.new c) k = elim (get_elem? c.ints k) [
    | none ↦ raise index_error
    | some i ↦ ok i
  ]

  abbrev fuzz_ideal : Option ℕ → Result ℕ → Result ℕ
  fuzz_ideal fuzz (raise e) = raise e
  fuzz_ideal none (ok ideal) = ok ideal
  fuzz_ideal (some draw) (ok ideal) = ok (pos_part (fuzzed_ivl draw (pos ideal)))

  unfoldable pub graduating_ivl : Card → QueueConf N → Bool → Option ℕ → Result ℕ
  graduating_ivl card conf early fuzz = elim (is_lapsed_type card.type) [
    | true ↦ ok (card.ivl + (if early then 1 else 0))
    | false ↦ fuzz_ideal fuzz (ints_at conf (if early then 1 else 0))
  ]
