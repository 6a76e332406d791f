-- ===== src/Desktop/Sound/Calls.antt =====
-- The calls of `AVPlayer` in qt/aqt/sound.py, in any order.
use anki.Prelude.{
  ℕ, zero, suc, Bool, true, false, none, some, List, [], ◌∷◌, ◌++◌, ◌≡◌, refl, ap, sym, subst, ◌∙◌,
  length, All, arith,
}
use mathlib.Core.List.{append_assoc, append-nil}
use anki.Desktop.Sound.{
  Player, Event, AvPlayer, best_player_for_tag, play_tag, play_next_if_idle, stop_if_playing,
  stop_and_clear_queue, clear_queue_and_maybe_interrupt, play_tags, insert_file, toggle_paused,
  shut_down_each, shutdown, on_play_finished,
}

-- The tags that were played, in order.
abbrev pub played : {Tag : Type 0} → List (Event Tag) → List Tag
played [] = []
played (Event.play p tag ∷ log) = tag ∷ played log
played (Event.stop p ∷ log) = played log
played (Event.toggle_pause p ∷ log) = played log
played (Event.shut_down p ∷ log) = played log
played (Event.done p ∷ log) = played log
played (Event.no_player tag ∷ log) = played log

played-append :
    {Tag : Type 0} (log more : List (Event Tag)) → played (log ++ more) ≡ played log ++ played more
played-append [] more = refl
played-append (Event.play p tag ∷ log) more =
    ap (λ (rest : List _). tag ∷ rest) (played-append log more)
played-append (Event.stop p ∷ log) more = played-append log more
played-append (Event.toggle_pause p ∷ log) more = played-append log more
played-append (Event.shut_down p ∷ log) more = played-append log more
played-append (Event.done p ∷ log) more = played-append log more
played-append (Event.no_player tag ∷ log) more = played-append log more

-- A player is busy, and the played tags are these.
abbrev pub IsBusy : {Tag : Type 0} → ℕ → List Tag → AvPlayer Tag → Type 0
IsBusy p tags s = (s.current_player ≡ some p) × (played s.log ≡ tags)

module _ {Tag : Type 0} (p : ℕ) (tags : List Tag) where
  quiet :
      (log more : List (Event Tag))
      → played more ≡ []
      → played log ≡ tags
      → played (log ++ more) ≡ tags
  quiet log more h k =
      played-append log more
      ∙ ap (λ (rest : List Tag). played log ++ rest) h
      ∙ append-nil (played log)
      ∙ k

  stop_if_playing-IsBusy : (s : AvPlayer Tag) → IsBusy p tags s → IsBusy p tags (stop_if_playing s)
  unfolding stop_if_playing
  stop_if_playing-IsBusy s h = ground (arith, h, quiet s.log (Event.stop p ∷ []) refl h.1)

  clear-IsBusy :
      (interrupt : Bool) (s : AvPlayer Tag)
      → IsBusy p tags s
      → IsBusy p tags (clear_queue_and_maybe_interrupt interrupt s)
  unfolding clear_queue_and_maybe_interrupt
  clear-IsBusy true s h = stop_if_playing-IsBusy (record s { enqueued = [] }) h
  clear-IsBusy false s h = h

  played-shut_down_each : (players : List (Player Tag)) → played (shut_down_each players) ≡ []
  played-shut_down_each [] = refl
  played-shut_down_each (x ∷ xs) = played-shut_down_each xs

module _ {Tag : Type 0} (players : List (Player Tag)) where
  -- What the program may call at any time.
  pub data Call : AvPlayer Tag → AvPlayer Tag → Type 0 where
    play :
        (interrupt : Bool) (tags : List Tag) (s : AvPlayer Tag)
        → Call s (play_tags players interrupt tags s)
    insert : (tag : Tag) (s : AvPlayer Tag) → Call s (insert_file players tag s)
    clear : (s : AvPlayer Tag) → Call s (stop_and_clear_queue s)
    drop_queue :
        (interrupt : Bool) (s : AvPlayer Tag) → Call s (clear_queue_and_maybe_interrupt interrupt s)
    pause : (s : AvPlayer Tag) → Call s (toggle_paused s)
    close : (s : AvPlayer Tag) → Call s (shutdown players s)

  pub data Calls (s : AvPlayer Tag) : AvPlayer Tag → Type 0 where
    start : Calls s s
    further : {t u : AvPlayer Tag} → Calls s t → Call t u → Calls s u

  next-IsBusy :
      (p : ℕ) (tags : List Tag) (s : AvPlayer Tag)
      → IsBusy p tags s
      → IsBusy p tags (play_next_if_idle players s)
  unfolding play_next_if_idle
  next-IsBusy p tags s h = ground (arith, h)

  Call-IsBusy :
      (p : ℕ) (tags : List Tag) {s t : AvPlayer Tag} → Call s t → IsBusy p tags s → IsBusy p tags t
  unfolding play_tags insert_file stop_and_clear_queue toggle_paused shutdown
  Call-IsBusy p tags (play interrupt new s) h =
      next-IsBusy p tags (record (clear_queue_and_maybe_interrupt interrupt s) { enqueued = new })
        (clear-IsBusy p tags interrupt s h)
  Call-IsBusy p tags (insert tag s) h =
      next-IsBusy p tags (record s { enqueued = tag ∷ s.enqueued }) h
  Call-IsBusy p tags (clear s) h = stop_if_playing-IsBusy p tags (record s { enqueued = [] }) h
  Call-IsBusy p tags (drop_queue interrupt s) h = clear-IsBusy p tags interrupt s h
  Call-IsBusy p tags (pause s) h =
      ground (arith, h, quiet p tags s.log (Event.toggle_pause p ∷ []) refl h.1)
  Call-IsBusy p tags (close s) h =
      let stopped = stop_if_playing-IsBusy p tags (record s { enqueued = [] }) h in
      (
        stopped.0,
        quiet p tags (stop_if_playing (record s { enqueued = [] })).log (shut_down_each players)
            (played-shut_down_each p tags players) stopped.1,
      )

  -- While a player is busy, no sequence of calls plays another tag or changes the player: only the
  -- report of its end does.
  pub Calls-IsBusy :
      (p : ℕ) (tags : List Tag) (s t : AvPlayer Tag) → Calls s t → IsBusy p tags s → IsBusy p tags t
  Calls-IsBusy p tags s t start h = h
  Calls-IsBusy p tags s t (further {t = u} c call) h =
      Call-IsBusy p tags call (Calls-IsBusy p tags s u c h)

  -- The current player reports its end, so often.
  abbrev pub finish : ℕ → AvPlayer Tag → AvPlayer Tag
  finish zero s = s
  finish (suc n) s = elim s.current_player [
    | none ↦ s
    | some p ↦ finish n (on_play_finished players p s)
  ]

  -- All is over, and the tags were played after those of the log.
  abbrev pub HasPlayed : List (Event Tag) → List Tag → AvPlayer Tag → Type 0
  HasPlayed log tags s =
      (s.current_player ≡ none) × (s.enqueued ≡ []) × (played s.log ≡ played log ++ tags)

  -- A player ranks the tag.
  abbrev pub HasPlayer : Tag → Type 0
  HasPlayer tag = (p : ℕ) × (best_player_for_tag players tag ≡ some p)

  played-snoc :
      (log : List (Event Tag)) (q p : ℕ) (tag : Tag) (rest : List Tag)
      → played ((log ++ Event.done q ∷ []) ++ Event.play p tag ∷ []) ++ rest
        ≡ played log ++ tag ∷ rest
  played-snoc log q p tag rest =
      ap (λ (l : List Tag). l ++ rest)
        (played-append (log ++ Event.done q ∷ []) (Event.play p tag ∷ [])
          ∙ ap (λ (l : List Tag). l ++ tag ∷ [])
              (quiet p (played log) log (Event.done q ∷ []) refl refl))
      ∙ append_assoc (played log) (tag ∷ []) rest

  -- A player at rest, and one that plays.
  abbrev pub idle : List Tag → List (Event Tag) → AvPlayer Tag
  idle queue log = record { enqueued = queue; current_player = none; log = log }

  abbrev busy : ℕ → List Tag → List (Event Tag) → AvPlayer Tag
  busy p queue log = record { enqueued = queue; current_player = some p; log = log }

  next-busy :
      (tag : Tag) (tags : List Tag) (log : List (Event Tag)) (p : ℕ)
      → best_player_for_tag players tag ≡ some p
      → play_next_if_idle players (idle (tag ∷ tags) log)
        ≡ busy p tags (log ++ Event.play p tag ∷ [])
  unfolding play_next_if_idle play_tag
  next-busy tag tags log p e = ground (arith, e)

  finish-HasPlayed :
      (tags : List Tag) (q : ℕ) (log : List (Event Tag))
      → All HasPlayer tags
      → HasPlayed log tags (finish (suc (length tags)) (busy q tags log))
  unfolding on_play_finished play_next_if_idle
  finish-HasPlayed [] q log h = (
    refl,
    refl,
    quiet q (played log) log (Event.done q ∷ []) refl refl ∙ sym (append-nil (played log)),
  )
  finish-HasPlayed (tag ∷ tags) q log h =
      let (p, e) = h.0 in
      let log' = (log ++ Event.done q ∷ []) ++ Event.play p tag ∷ [] in
      let ih = finish-HasPlayed tags p log' h.1 in
      subst (λ s. HasPlayed log (tag ∷ tags) (finish (suc (length tags)) s))
        (sym (next-busy tag tags (log ++ Event.done q ∷ []) p e))
        (ih.0, ih.1, ih.2 ∙ played-snoc log q p tag tags)

  next-HasPlayed :
      (tags : List Tag) (log : List (Event Tag))
      → All HasPlayer tags
      → HasPlayed log tags (finish (length tags) (play_next_if_idle players (idle tags log)))
  unfolding play_next_if_idle
  next-HasPlayed [] log h = (refl, refl, sym (append-nil (played log)))
  next-HasPlayed (tag ∷ tags) log h =
      let (p, e) = h.0 in
      let log' = log ++ Event.play p tag ∷ [] in
      let (rest, over, all) = finish-HasPlayed tags p log' h.1 in
      let started =
        ap (λ (l : List Tag). l ++ tags) (played-append log (Event.play p tag ∷ []))
        ∙ append_assoc (played log) (tag ∷ []) tags in
      subst (λ s. HasPlayed log (tag ∷ tags) (finish (suc (length tags)) s))
        (sym (next-busy tag tags log p e)) (rest, over, all ∙ started)

  -- From rest, a batch of tags that have players is played whole and in order, and then the player
  -- rests again, if each playback reports its end: so many reports as there are tags are enough.
  pub play_tags-HasPlayed :
      (interrupt : Bool) (tags queue : List Tag) (log : List (Event Tag))
      → All HasPlayer tags
      → HasPlayed log tags
          (finish (length tags) (play_tags players interrupt tags (idle queue log)))
  unfolding play_tags clear_queue_and_maybe_interrupt stop_if_playing
  play_tags-HasPlayed interrupt tags queue log h =
      subst (λ s. HasPlayed log tags (finish (length tags) (play_next_if_idle players s)))
        (sym (cleared interrupt)) (next-HasPlayed tags log h)
    where
      cleared :
          (interrupt : Bool)
          → record (clear_queue_and_maybe_interrupt interrupt (idle queue log)) { enqueued = tags }
            ≡ idle tags log
      cleared true = refl
      cleared false = refl
