-- ===== src/Import/Cards/Due.antt =====
-- When imported cards are due.
use anki.Prelude.{Bool-cases, ◌≡◌, arith, true, false, if◌then◌else◌, ◌==◌, ◌⊎◌, inl, inr}
use anki.Prelude.Int.{ℤ, pos, ◌-ℤ◌, truthy, int_laws}
use anki.Scheduler.Card.{CardType, CardQueue, queue_of_type}
use anki.Import.Cards.{CardRow, convert_card, has_due_day, is_learning}

-- The day that a card is due on: that of its home deck, where it is in a filtered one.
abbrev pub home_due : CardRow → ℤ
home_due c = if c.odid == 0 then c.due else c.odue

-- The queue of a card out of a filtered deck is the one of its type.
abbrev pub Fits : CardType → CardQueue → Type 0
Fits type queue = queue ≡ queue_of_type type

-- An imported card is in no filtered deck; and out of a filtered deck it comes with the queue of its
-- type, and not as a learning card.
pub convert_card-IsHome :
    (ahead_by : ℤ) (c : CardRow)
    → ((convert_card ahead_by c).odid ≡ 0)
      × (((c.odid ≡ 0)
            × ((convert_card ahead_by c).type ≡ c.type)
            × ((convert_card ahead_by c).queue ≡ c.queue))
          ⊎ (Fits (convert_card ahead_by c).type (convert_card ahead_by c).queue
              × ((convert_card ahead_by c).odue ≡ pos 0)
              × (is_learning (convert_card ahead_by c).type ≡ false)))
unfolding convert_card is_learning has_due_day
convert_card-IsHome ahead_by c = ground arith

shift : (due src dst : ℤ) → due -ℤ (src -ℤ dst) -ℤ dst ≡ due -ℤ src
shift due src dst = omega int_laws

-- A review card is as far from its day in the target as it was in the source, wherever the two
-- collections are in their days. In a filtered deck it is to have a day to return to.
pub convert_card-keeps_delay :
    (src dst : ℤ) (c : CardRow)
    → c.type ≡ CardType.rev
    → (c.odid ≡ 0) ⊎ (truthy c.odue ≡ true)
    → (convert_card (src -ℤ dst) c).due -ℤ dst ≡ home_due c -ℤ src
unfolding convert_card has_due_day
convert_card-keeps_delay src dst c h (inl e) = ground (arith, h, e, shift c.due src dst)
convert_card-keeps_delay src dst c h (inr e) = elim (Bool-cases (c.odid == 0)) [
  | inl f ↦ ground (arith, h, f, shift c.due src dst)
  | inr f ↦ ground (arith, h, e, f, shift c.odue src dst)
]
