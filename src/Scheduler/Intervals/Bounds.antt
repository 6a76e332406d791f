-- ===== src/Scheduler/Intervals/Bounds.antt =====
-- Bounds and order of the review intervals, whatever the arithmetic of the floats.
use anki.Prelude.{ℕ, ◌≤◌, ◌<◌, ◌≡◌, ◌⊎◌, Option, none, some, arith}
use anki.Scheduler.Number.{Number}
use anki.Scheduler.Card.{Card}
use anki.Scheduler.Config.{RevConf, LapseConf}
use anki.Scheduler.Intervals.{
  constrained_ivl, hard_ivl, good_ivl, easy_ivl, next_rev_ivl, lapse_ivl,
}

module _ {N : Type 0} (num : Number N) where
  -- A constrained interval is at most the configured maximum. Unless it is that maximum, it is more
  -- than the previous interval and at least a day. This holds with fuzz and without.
  constrained_ivl_bounds :
      (x : N) (conf : RevConf N) (prev : ℕ) (fuzz : Option ℕ)
      → let ivl = constrained_ivl num x conf prev fuzz in
        (ivl ≤ conf.max_ivl)
        × ((prev < ivl) ⊎ (ivl ≡ conf.max_ivl))
        × ((1 ≤ ivl) ⊎ (ivl ≡ conf.max_ivl))
  unfolding constrained_ivl
  constrained_ivl_bounds x conf prev none = ground arith
  constrained_ivl_bounds x conf prev (some draw) = ground arith

  hard_ivl_bounds :
      (card : Card) (conf : RevConf N) (fuzz : Option ℕ)
      → hard_ivl num card conf fuzz ≤ conf.max_ivl
  unfolding hard_ivl
  hard_ivl_bounds card conf fuzz = (constrained_ivl_bounds _ conf _ fuzz).0

  abbrev Follows : RevConf N → ℕ → ℕ → Type 0
  Follows conf prev ivl = (ivl ≤ conf.max_ivl) × ((prev < ivl) ⊎ (ivl ≡ conf.max_ivl))

  good_ivl-Follows :
      (today : ℕ) (card : Card) (conf : RevConf N) (prev : ℕ) (fuzz : Option ℕ)
      → Follows conf prev (good_ivl num today card conf prev fuzz)
  unfolding good_ivl
  good_ivl-Follows today card conf prev fuzz =
      let b = constrained_ivl_bounds _ conf prev fuzz in (b.0, b.1)

  easy_ivl-Follows :
      (today : ℕ) (card : Card) (conf : RevConf N) (prev : ℕ) (fuzz : Option ℕ)
      → Follows conf prev (easy_ivl num today card conf prev fuzz)
  unfolding easy_ivl
  easy_ivl-Follows today card conf prev fuzz =
      let b = constrained_ivl_bounds _ conf prev fuzz in (b.0, b.1)

  -- The interval of Good is more than the one of Hard, and the one of Easy more than the one of
  -- Good, unless it is the configured maximum; and none of the three passes the maximum. This holds
  -- for every choice of fuzz.
  pub next_rev_ivl-ordered :
      (today : ℕ) (card : Card) (conf : RevConf N) (draws : ℕ → Option ℕ)
      → let ivl = λ (ease : ℕ). next_rev_ivl num today card conf ease draws in
        ((ivl 2 < ivl 3) ⊎ (ivl 3 ≡ conf.max_ivl))
        × ((ivl 3 < ivl 4) ⊎ (ivl 4 ≡ conf.max_ivl))
        × (ivl 2 ≤ conf.max_ivl)
        × (ivl 3 ≤ conf.max_ivl)
        × (ivl 4 ≤ conf.max_ivl)
  unfolding next_rev_ivl
  next_rev_ivl-ordered today card conf draws =
      let ivl2 = hard_ivl num card conf (draws 0) in
      let ivl3 = good_ivl num today card conf ivl2 (draws 1) in
      let good = good_ivl-Follows today card conf ivl2 (draws 1) in
      let easy = easy_ivl-Follows today card conf ivl3 (draws 2) in
      (good.1, easy.1, hard_ivl_bounds card conf (draws 0), good.0, easy.0)

  -- The interval after a lapse is at least a day and at least the configured minimum.
  lapse_ivl_lower :
      (ivl : ℕ) (conf : LapseConf N)
      → (1 ≤ lapse_ivl num ivl conf) × (conf.min_int ≤ lapse_ivl num ivl conf)
  unfolding lapse_ivl
  lapse_ivl_lower ivl conf = ground arith
