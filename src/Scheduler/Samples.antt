-- ===== src/Scheduler/Samples.antt =====
-- A small collection to run the scheduler on, with numbers kept in thousandths.
use anki.Prelude.{
  ℕ, contains, true, false, Option, none, some, List, [], ◌∷◌, ◌+◌, ◌*◌, ◌/◌, ◌^◌, ◌==◌,
  if◌then◌else◌,
}
use anki.Prelude.Int.{ℤ, pos, pos_part, neg_part, ◌*ℤ◌, ◌-ℤ◌, ltb_ℤ}
use anki.Scheduler.Number.{Number}
use anki.Scheduler.Card.{CardType, CardQueue, Card}
use anki.Scheduler.Config.{
  NewOrder, NewConf, LapseConf, RevConf, NormalConf, FilteredConf, DeckConf,
}
use anki.Scheduler.State.{State, NewSpread, Deck, Env}

-- Rounds towards zero.
abbrev pub quotient : ℤ → ℕ → ℤ
quotient a n = pos (pos_part a / n) -ℤ pos (neg_part a / n)

abbrev pub thousandths : Number ℤ
thousandths = record {
  of_int = λ a. a *ℤ pos 1000;
  literal = λ n k. pos (n * 1000 / 10 ^ k);
  mul = λ a b. quotient (a *ℤ b) 1000;
  div = λ a b. quotient (a *ℤ pos 1000) (pos_part b);
  sub = λ a b. a -ℤ b;
  less = ltb_ℤ;
  trunc = λ a. quotient a 1000;
}

abbrev pub new_options : NewConf ℤ
new_options = record {
  delays = pos 1_000 ∷ pos 10_000 ∷ [];
  ints = 1 ∷ 4 ∷ 0 ∷ [];
  initial_factor = 2500;
  bury = some true;
  order = NewOrder.due;
  per_day = 20;
}

abbrev pub lapse_options : LapseConf ℤ
lapse_options = record {
  delays = pos 10_000 ∷ [];
  mult = pos 500;
  min_int = 1;
  leech_fails = 8;
  leech_suspends = true;
  resched = none;
}

abbrev pub rev_options : RevConf ℤ
rev_options = record {
  hard_factor = none;
  ivl_fct = some (pos 1_000);
  ease4 = pos 1_300;
  max_ivl = 36_500;
  bury = some true;
  per_day = 200;
}

abbrev pub options : NormalConf ℤ
options = record { new = new_options; lapse = lapse_options; rev = rev_options; max_taken = 60 }

abbrev pub cram_options : FilteredConf
cram_options = record { resched = true; preview_delay = none }

-- Decks 1 and 3 are normal decks, and deck 2 is a filtered one.
abbrev deck_conf : ℕ → Option (DeckConf ℤ)
deck_conf did =
    if did == 1
    then some (DeckConf.normal options)
    else if did == 2
    then some (DeckConf.filtered cram_options)
    else if did == 3
    then some (DeckConf.normal options)
    else none

abbrev pub home_deck : Deck
home_deck = record { id = 1; dyn = false }

-- A deck below the home deck.
abbrev pub child_deck : Deck
child_deck = record { id = 3; dyn = false }

abbrev pub bury_rows : List ℕ → List Card → List Card
bury_rows ids [] = []
bury_rows ids (row ∷ rows) =
    (if contains row.id ids then record row { queue = CardQueue.sibling_buried } else row)
    ∷ bury_rows ids rows

-- Five new cards of the home deck have been studied today.
-- The clock shows the second 10,000 and goes on by a second; the day ends at the second 20,000.
abbrev pub env : Env ℤ
env = record {
  num = thousandths;
  deck_conf = deck_conf;
  time = λ n. (10_000 + n) * 1_000_000_000;
  draw = λ n. n;
  today = 100;
  day_cutoff = 20_000;
  usn = pos 7;
  collapse_time = 1_200;
  new_spread = NewSpread.distribute;
  day_learn_first = false;
  selected = 1;
  deck_and_child_ids = λ did. did ∷ [];
  deck = λ did. if did == 1 then some home_deck else if did == 3 then some child_deck else none;
  parents = λ did. if did == 3 then home_deck ∷ [] else [];
  due_counts = λ now cards did. some (record { new_count = 1; review_count = 1; learn_count = 0 });
  new_today = λ did. if did == 1 then pos 5 else pos 0;
  review_today = λ did. pos 0;
  new_limit_hook = λ lim did. lim;
  review_limit_hook = λ lim did. lim;
  bury = bury_rows;
  sql_random = λ nth id. id;
  shuffle = λ seed ids. ids;
}

abbrev pub fresh : Card
fresh = record {
  id = 11;
  nid = 21;
  did = 1;
  ord = 0;
  mod_time = 0;
  usn = pos 0;
  type = CardType.new;
  queue = CardQueue.new;
  due = pos 3;
  ivl = 0;
  factor = 0;
  reps = 0;
  lapses = 0;
  left = 0;
  odue = pos 0;
  odid = 0;
  flags = 0;
  last_ivl = 0;
  timer_started = some 9_990_000_000_000;
}

-- A review card that is due ten days ago.
abbrev pub mature : Card
mature = record fresh {
  id = 12;
  nid = 22;
  type = CardType.rev;
  queue = CardQueue.rev;
  due = pos 90;
  ivl = 20;
  factor = 2500;
  reps = 9;
  lapses = 7;
}

-- A card at the first of two learning steps.
abbrev pub learning : Card
learning = record fresh {
  id = 13;
  nid = 23;
  type = CardType.lrn;
  queue = CardQueue.lrn;
  due = pos 9_000;
  left = 2002;
  reps = 1;
}

-- Another card of the note that `mature` belongs to.
abbrev pub sibling : Card
sibling = record mature { id = 14; ord = 1 }

abbrev pub holding : Card → State
holding card = record {
  card = card;
  cards = fresh ∷ mature ∷ learning ∷ [];
  revlog = [];
  stats = [];
  leech_notes = [];
  undo = [];
  new_count = pos 1;
  rev_count = pos 1;
  lrn_count = pos 1;
  immediate_learn_count = pos 0;
  reps = 0;
  have_queues = true;
  lrn_cutoff = 11_200;
  current_deck_id = 1;
  active_decks = 1 ∷ [];
  new_queue = 11 ∷ [];
  rev_queue = 12 ∷ [];
  lrn_queue = [];
  lrn_day_queue = [];
  new_dids = 1 ∷ [];
  lrn_dids = 1 ∷ [];
  new_card_modulus = pos 2;
  reads = 0;
  draws = 0;
  queries = 0;
}
