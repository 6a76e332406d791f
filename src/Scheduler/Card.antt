-- ===== src/Scheduler/Card.antt =====
-- The card object of pylib/anki/cards.py and the constants of pylib/anki/consts.py.
use anki.Prelude.{ℕ, Bool, true, false, Option, ◌==◌}
use anki.Prelude.Int.{ℤ, pos, negsuc}

-- `CardType`
pub data CardType : Type 0 where
  new lrn rev relearning : CardType

-- `CardQueue`
pub data CardQueue : Type 0 where
  manually_buried sibling_buried suspended new lrn rev day_learn_relearn preview : CardQueue

pub data RevlogType : Type 0 where
  lrn rev relrn cram : RevlogType

-- The widths are those of the backend's `Card` message: only `due` and `odue` are signed.
-- `last_ivl` is the attribute `lastIvl`, which is set on the object alone.
pub record Card : Type 0 where
  pub id : ℕ
  pub nid : ℕ
  pub did : ℕ
  pub ord : ℕ
  pub mod_time : ℕ
  pub usn : ℤ
  pub type : CardType
  pub queue : CardQueue
  pub due : ℤ
  pub ivl : ℕ
  pub factor : ℕ
  pub reps : ℕ
  pub lapses : ℕ
  pub left : ℕ
  pub odue : ℤ
  pub odid : ℕ
  pub flags : ℕ
  pub last_ivl : ℕ
  pub timer_started : Option ℕ

-- The number behind a queue's name.
unfoldable pub queue_code : CardQueue → ℤ
queue_code CardQueue.manually_buried = negsuc 2
queue_code CardQueue.sibling_buried = negsuc 1
queue_code CardQueue.suspended = negsuc 0
queue_code CardQueue.new = pos 0
queue_code CardQueue.lrn = pos 1
queue_code CardQueue.rev = pos 2
queue_code CardQueue.day_learn_relearn = pos 3
queue_code CardQueue.preview = pos 4

-- `CardQueue(card.type)`
abbrev pub queue_of_type : CardType → CardQueue
queue_of_type CardType.new = CardQueue.new
queue_of_type CardType.lrn = CardQueue.lrn
queue_of_type CardType.rev = CardQueue.rev
queue_of_type CardType.relearning = CardQueue.day_learn_relearn

-- `card.type in (CARD_TYPE_REV, CARD_TYPE_RELEARNING)`
abbrev pub is_lapsed_type : CardType → Bool
is_lapsed_type CardType.rev = true
is_lapsed_type CardType.relearning = true
is_lapsed_type CardType.new = false
is_lapsed_type CardType.lrn = false

-- `Card.current_deck_id`: `self.odid or self.did`
unfoldable pub current_deck_id : Card → ℕ
current_deck_id c = elim (c.odid == 0) [ true ↦ c.did | false ↦ c.odid ]
