-- ===== src/Scheduler/Answer/Total.antt =====
-- Which answers return: `answerCard` of pylib/anki/scheduler/v2.py for a card of a normal deck.
use anki.Prelude.{ℕ, ◌≡◌, ◌≢◌, ◌⊎◌, none, List, false}
use anki.Prelude.Int.{pos, ◌≤ℤ◌}
use anki.Scheduler.Card.{CardType, CardQueue, Card, queue_code}
use anki.Scheduler.Config.{NormalConf}
use anki.Scheduler.State.{State, Env, value_error, Result, ok, raise}
use anki.Scheduler.Tables.{find_row}
use anki.Scheduler.Flush.{is_in_range}
use anki.Scheduler.Answer.Outcome.{IsSound}

-- The card is in a learning queue, or a review card in the review queue.
abbrev IsStudied : Card → Type 0
IsStudied c =
    (c.queue ≡ CardQueue.lrn)
    ⊎ (c.queue ≡ CardQueue.day_learn_relearn)
    ⊎ ((c.queue ≡ CardQueue.rev) × (c.type ≡ CardType.rev))

-- The card is in a queue for study, other than the one of previews.
abbrev pub IsActive : Card → Type 0
IsActive c = IsSound c × (pos 0 ≤ℤ queue_code c.queue) × (c.queue ≢ CardQueue.preview)

-- The call returns and `Q` holds, or it raises since a number of the card in hand is out of the range
-- that the backend takes.
abbrev pub Settles : (State → Type 0) → Result (Unit {0}) × State → Type 0
Settles Q (ok a, s) = Q s
Settles Q (raise e, s) = (e ≡ value_error) × (is_in_range s.card ≡ false)

module _ {N : Type 0} (env : Env N) (conf : NormalConf N) where
  module _
      (bury_keeps : (ids : List ℕ) (rows : List Card) (id : ℕ)
        → find_row id rows ≢ none
        → find_row id (env.bury ids rows) ≢ none) where
    abbrev Buries : State → State → Type 0
    Buries s t = (t.card ≡ s.card) × (t.revlog ≡ s.revlog) × (find_row s.card.id t.cards ≢ none)
