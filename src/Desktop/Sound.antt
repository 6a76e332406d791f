-- ===== src/Desktop/Sound.antt =====
-- `AVPlayer` of qt/aqt/sound.py: the queue of sounds, and the choice of a player. A player is known by
-- its number; what is done to players is written to a log, and the end of a playback is an event.
pub mod Best
pub mod Calls
mod Tests
use anki.Prelude.{
  ℕ, Bool, true, false, not, Option, none, some, List, [], ◌∷◌, ◌++◌, ◌==◌, if◌then◌else◌,
}
use anki.Prelude.Int.{ℤ, leb_ℤ}
use anki.Prelude.Text.{Text, codes, has_text, split_on}
use anki.Decks.{last_of}

-- A player and its `rank_for_tag`.
pub record Player (Tag : Type 0) : Type 0 where
  pub number : ℕ
  pub rank_for_tag : Tag → Option ℤ

-- What the outside sees: `play`, `stop`, `toggle_pause` and `shutdown` of a player, the report of a
-- player that it is done, and the message that there is no player.
pub data Event (Tag : Type 0) : Type 0 where
  play : ℕ → Tag → Event Tag
  stop toggle_pause shut_down : ℕ → Event Tag
  done : ℕ → Event Tag
  no_player : Tag → Event Tag

pub record AvPlayer (Tag : Type 0) : Type 0 where
  pub enqueued : List Tag
  pub current_player : Option ℕ
  pub log : List (Event Tag)

-- `ranked.sort(key=itemgetter(0))`, which keeps the order of equal ranks
unfoldable pub insert_ranked : ℤ × ℕ → List (ℤ × ℕ) → List (ℤ × ℕ)
insert_ranked (rank, p) [] = (rank, p) ∷ []
insert_ranked (rank, p) ((r, q) ∷ rest) =
    let later = insert_ranked (rank, p) rest in
    if leb_ℤ rank r then (rank, p) ∷ (r, q) ∷ rest else (r, q) ∷ later

unfoldable pub sort_ranked : List (ℤ × ℕ) → List (ℤ × ℕ)
sort_ranked [] = []
sort_ranked (r ∷ rs) = insert_ranked r (sort_ranked rs)

-- `ranked[-1][1]`, if there is one
unfoldable pub last_ranked : List (ℤ × ℕ) → Option ℕ
last_ranked [] = none
last_ranked ((r, p) ∷ []) = some p
last_ranked (r ∷ s ∷ rest) = last_ranked (s ∷ rest)

-- `is_audio_file`, where `lower` is `str.lower`
abbrev pub audio_extensions : List Text
audio_extensions =
    codes "3gp"
    ∷ codes "flac"
    ∷ codes "m4a"
    ∷ codes "mp3"
    ∷ codes "oga"
    ∷ codes "ogg"
    ∷ codes "opus"
    ∷ codes "spx"
    ∷ codes "wav"
    ∷ []

unfoldable pub is_audio_file : (Text → Text) → Text → Bool
is_audio_file lower fname = has_text (lower (last_of (split_on 46 fname))) audio_extensions

-- A tag is a sound or video by its file name, or a text that is spoken.
pub data AvTag : Type 0 where
  sound_or_video : Text → AvTag
  tts : Text → AvTag

module _ (lower : Text → Text) (default_rank : ℤ) where
  -- `rank_for_tag` of SoundOrVideoPlayer, SoundPlayer and VideoPlayer
  unfoldable pub sound_or_video_rank : AvTag → Option ℤ
  sound_or_video_rank (sound_or_video filename) = some default_rank
  sound_or_video_rank (tts text) = none

  unfoldable pub sound_rank : AvTag → Option ℤ
  sound_rank (sound_or_video filename) =
      if is_audio_file lower filename then some default_rank else none
  sound_rank (tts text) = none

  unfoldable pub video_rank : AvTag → Option ℤ
  video_rank (sound_or_video filename) =
      if not (is_audio_file lower filename) then some default_rank else none
  video_rank (tts text) = none

module _ {Tag : Type 0} where
  -- The loop of `_best_player_for_tag`.
  unfoldable pub ranked_for : Tag → List (Player Tag) → List (ℤ × ℕ)
  ranked_for tag [] = []
  ranked_for tag (p ∷ ps) =
      let rest = ranked_for tag ps in
      elim (p.rank_for_tag tag) [ none ↦ rest | some rank ↦ (rank, p.number) ∷ rest ]

  unfoldable pub best_player_for_tag : List (Player Tag) → Tag → Option ℕ
  best_player_for_tag players tag = last_ranked (sort_ranked (ranked_for tag players))

  unfoldable pub stop_if_playing : AvPlayer Tag → AvPlayer Tag
  stop_if_playing s = elim s.current_player [
    | none ↦ s
    | some p ↦ record s { log = s.log ++ stop p ∷ [] }
  ]

  unfoldable pub stop_and_clear_queue : AvPlayer Tag → AvPlayer Tag
  stop_and_clear_queue s = stop_if_playing (record s { enqueued = [] })

  unfoldable pub clear_queue_and_maybe_interrupt : Bool → AvPlayer Tag → AvPlayer Tag
  clear_queue_and_maybe_interrupt interrupt_current_audio s =
      let cleared = record s { enqueued = [] } in
      if interrupt_current_audio then stop_if_playing cleared else cleared

  unfoldable pub toggle_paused : AvPlayer Tag → AvPlayer Tag
  toggle_paused s = elim s.current_player [
    | none ↦ s
    | some p ↦ record s { log = s.log ++ toggle_pause p ∷ [] }
  ]

  abbrev shut_down_each : List (Player Tag) → List (Event Tag)
  shut_down_each [] = []
  shut_down_each (p ∷ ps) = shut_down p.number ∷ shut_down_each ps

  unfoldable pub shutdown : List (Player Tag) → AvPlayer Tag → AvPlayer Tag
  shutdown players s =
      let s' = stop_and_clear_queue s in record s' { log = s'.log ++ shut_down_each players }

module _ {Tag : Type 0} (players : List (Player Tag)) where
  unfoldable pub play_tag : Tag → AvPlayer Tag → AvPlayer Tag
  play_tag tag s = elim (best_player_for_tag players tag) [
    | some p ↦ record s { current_player = some p; log = s.log ++ play p tag ∷ [] }
    | none ↦ record s { log = s.log ++ no_player tag ∷ [] }
  ]

  abbrev play_first : List Tag → AvPlayer Tag → AvPlayer Tag
  play_first [] s = s
  play_first (tag ∷ tags) s = play_tag tag (record s { enqueued = tags })

  -- `_play_next_if_idle`, with `_pop_next`
  unfoldable pub play_next_if_idle : AvPlayer Tag → AvPlayer Tag
  play_next_if_idle s = elim s.current_player [ some p ↦ s | none ↦ play_first s.enqueued s ]

  unfoldable pub play_tags : Bool → List Tag → AvPlayer Tag → AvPlayer Tag
  play_tags interrupt_current_audio tags s =
      play_next_if_idle
        (record (clear_queue_and_maybe_interrupt interrupt_current_audio s) { enqueued = tags })

  -- `insert_file`, of the tag for the file
  unfoldable pub insert_file : Tag → AvPlayer Tag → AvPlayer Tag
  insert_file tag s = play_next_if_idle (record s { enqueued = tag ∷ s.enqueued })

  -- `_on_play_finished`, which the current player `p` calls
  unfoldable pub on_play_finished : ℕ → AvPlayer Tag → AvPlayer Tag
  on_play_finished p s =
      play_next_if_idle (record s { current_player = none; log = s.log ++ done p ∷ [] })
