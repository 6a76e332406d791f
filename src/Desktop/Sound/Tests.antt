-- ===== src/Desktop/Sound/Tests.antt =====
-- The sound queue at work, and each theorem at an input.
use anki.Prelude.{ℕ, ◌≡◌, ◌⊎◌, refl, true, none, some, List, [], ◌∷◌}
use anki.Prelude.Int.{ℤ, pos}
use anki.Prelude.Text.{codes, same, has_text, split_on}
use anki.Desktop.Sound.{
  Player, Event, AvPlayer, AvTag, sound_rank, sound_or_video_rank, is_audio_file, ranked_for,
  best_player_for_tag, sort_ranked, insert_ranked, last_ranked, play_tags, play_next_if_idle,
  play_tag, clear_queue_and_maybe_interrupt, stop_if_playing,
}
use anki.Desktop.Sound.Best.{IsTop, best_player-IsTop}
use anki.Desktop.Sound.Calls.{
  Call, Calls, IsBusy, Calls-IsBusy, finish, HasPlayed, idle, play_tags-HasPlayed,
}

-- The player 1 plays everything, and the player 2 is better at sounds.
abbrev players : List (Player AvTag)
players =
    record { number = 1; rank_for_tag = sound_or_video_rank (λ s. s) (pos 0) }
    ∷ record { number = 2; rank_for_tag = sound_rank (λ s. s) (pos 1) }
    ∷ []

abbrev song : AvTag
song = AvTag.sound_or_video (codes "a.mp3")

abbrev film : AvTag
film = AvTag.sound_or_video (codes "b.avi")

sound_goes_to_second : best_player_for_tag players song ≡ some 2
unfolding best_player_for_tag ranked_for sort_ranked insert_ranked last_ranked sound_rank
    sound_or_video_rank is_audio_file has_text same split_on
sound_goes_to_second = refl

film_goes_to_first : best_player_for_tag players film ≡ some 1
unfolding best_player_for_tag ranked_for sort_ranked insert_ranked last_ranked sound_rank
    sound_or_video_rank is_audio_file has_text same split_on
film_goes_to_first = refl

-- No player speaks: the rest of the batch waits.
speech_holds_up_queue :
    (play_tags players true (AvTag.tts (codes "hi") ∷ song ∷ []) (idle players [] [])).enqueued
    ≡ song ∷ []
unfolding play_tags play_next_if_idle play_tag clear_queue_and_maybe_interrupt stop_if_playing
    best_player_for_tag ranked_for sort_ranked last_ranked sound_rank sound_or_video_rank
speech_holds_up_queue = refl

best_player-IsTop_example :
    ((ranked_for song players ≡ []) × (best_player_for_tag players song ≡ none))
    ⊎ ((top : ℤ × ℕ) × (best_player_for_tag players song ≡ some top.1)
        × IsTop (ranked_for song players) top)
best_player-IsTop_example = best_player-IsTop players song

play_tags-HasPlayed_example :
    HasPlayed players []
      (song ∷ film ∷ [])
      (finish players 2 (play_tags players true (song ∷ film ∷ []) (idle players [] [])))
play_tags-HasPlayed_example =
    play_tags-HasPlayed players true (song ∷ film ∷ []) [] []
      ((2, sound_goes_to_second), ((1, film_goes_to_first), tt))

-- A song is played when a batch comes in that interrupts it.
abbrev singing : AvPlayer AvTag
singing = record { enqueued = []; current_player = some 2; log = Event.play 2 song ∷ [] }

Calls-IsBusy_example : IsBusy 2 (song ∷ []) (play_tags players true (film ∷ []) singing)
Calls-IsBusy_example =
    Calls-IsBusy players 2 (song ∷ []) singing (play_tags players true (film ∷ []) singing)
      (Calls.further Calls.start (Call.play true (film ∷ []) singing)) (refl, refl)
