-- ===== src/Lib.antt =====
-- Anki's Python: the V2 scheduler, imports, the names of decks, tags, hooks and helpers of pylib/anki,
-- and the sound queue, the add-ons and the closures between threads of the desktop program in qt/aqt.
--
-- The scheduler (Scheduler), pylib/anki/scheduler/v2.py. A scheduler fetches the next card to study
-- (`getCard`), says which intervals the buttons would give (`nextIvl`), and takes the answer
-- (`answerCard`). Its state is the queues and counters of the class, the card in hand, and the tables
-- `cards` and `revlog`. Each method of the class is one function on that state, in these modules:
--   * Number, Card, Config, State: the numbers of Python as a parameter, cards (pylib/anki/cards.py,
--     pylib/anki/consts.py), the options of decks, and the state with the monad of the methods. A
--     method returns a result or an exception, and what it wrote before the exception stays.
--   * Lookup: `_cardConf`, `_newConf`, `_lapseConf`, `_revConf`, `_lrnConf`, `_previewingCard`,
--     `_previewDelay`, `Card.time_limit`.
--   * Steps: `_startingLeft`, `_leftToday`, `_delayForGrade`, `_delayForRepeatingGrade`.
--   * Intervals: `_nextRevIvl`, `_fuzzIvlRange`, `_fuzzedIvl`, `_constrainedIvl`, `_daysLate`,
--     `_earlyReviewIvl`, `_lapseIvl`, `_graduatingIvl`.
--   * Revlog: `_logLrn`, `_logRev` and `saturated_i32`, as far as they share it.
--   * Learn: `_answerLrnCard` and what it calls.
--   * Review: `_answerRevCard` and what it calls, `_checkLeech`.
--   * Flush: `Card.flush` (pylib/anki/cards.py) with the message that it sends, and `update_cards` of
--     the backend (rslib/src/backend/card.rs, rslib/src/card/mod.rs), which writes the row.
--   * Answer: `answerCard`, `_answerCard`, `_answerCardPreview`, `_restorePreviewCard`,
--     `_burySiblings`.
--   * NextTimes: `nextIvl`, `_nextLrnIvl`, `counts`, `countIdx`, `answerButtons`, `_is_finished`.
--   * Tables, Limits, NewQueue, LrnQueue, RevQueue, Fetch: the queries, the limits of decks, the
--     queues, `reset`, `getCard`.
-- Logic holds how methods are reasoned about. Total in Learn, Review and Answer is about the calls that
-- return. Samples, Program and Tests run the scheduler on a small collection.
--
-- Imports (Import), pylib/anki/importing. Two importers put notes into a collection:
--   * anki2.py merges another collection: Notes has `_importNotes`, `_uniquifyNote` and `_mid`, which
--     uses the files of Media (`_mungeMedia`); Decks has `_did`; Cards has `_importCards`, which uses
--     what `_importNotes` left and calls `_did`.
--   * noteimp.py takes notes from text files: Foreign has the cleaning and the mapping of fields, and
--     Foreign/Run the loop of `importNotes` with the tables after it.
-- A row of a table is a record of the columns that the code reads or sets.
--
-- The others. Decks has the names, parents and children of `DeckManager` (pylib/anki/decks.py), Tags
-- the texts of `TagManager` (pylib/anki/tags.py), Hooks the legacy hooks (pylib/anki/hooks.py), Utils
-- the ids, digits, fields and file names of pylib/anki/utils.py, which the imports use. Desktop/Sound
-- has `AVPlayer` of qt/aqt/sound.py: its calls append to a log of what players are told and report.
-- Desktop/Addons has `AddonManager` of qt/aqt/addons.py: the folder of the add-ons is the list of their
-- directories and meta data, which switching, installing and updates change. What is found to conflict
-- is gone through in the order in which it is found; a set of Python has an order of its own.
-- Desktop/Tasks has the closures of `TaskManager` (qt/aqt/taskman.py) as steps of threads; a
-- closure may raise, and may look for closures itself.
-- Prelude has integers, lists and texts; a text is the list of its code points.
--
-- What stands for code outside of these files. `Env` holds the deck manager, the configuration of
-- the collection, the backend, the clock and the generator of random numbers of the scheduler. The
-- clock and the generator are functions from the number of the reading to its value, so that every
-- reading may differ and nothing is assumed of the order of times. `Number` holds the arithmetic on
-- Python's numbers that the intervals are computed with, ints and floats alike; only the fuzz of
-- intervals needs a hypothesis on it, which is named where it is used. The heap of the learning queue
-- is a sorted list; its smallest entry is the first of both. `Backend` holds the decks of a collection.
-- Characters in lower case, normal forms of texts, regular expressions on media and the checksum of a
-- first field are parameters of the functions that use them. Of an add-on's archive what it leaves of
-- the directory is a parameter, and of `os.path` the functions that the test of its name calls.
--
-- Bounds. Integers are unbounded, as in Python; the saturation to 32 bits of the review log is written
-- out, and so are the widths of the fields of the backend's message, out of which `Card.flush` raises.
-- The loops recurse on the list that they go through, and the retries of `_fillNew` and `_fillRev` go
-- once. Fuel bounds the search for an id by the number of ids in use, the search for a note type by the
-- number of note types, and the digits of a number by the number itself. The depth of `_did` is bounded
-- by an argument; how deep it goes depends on the names that the backend makes, so it is not claimed
-- that it returns.
--
-- What is left out of the methods. Nobody has registered for the hooks, except for the two filters
-- on the limits of decks, which are parameters. The day does not change within one call. A function on
-- a legacy hook does not change the hooks itself. A player of sounds reports its end after `play` has
-- returned. Of what makes a call of the backend raise, only what is named is modelled.
--
-- Not modelled: the V3 scheduler and the V1 scheduler, note types, exporters and the other parts of
-- pylib/anki, the windows of the desktop program in qt/aqt, and the backend in rslib, which is Rust,
-- but for `update_cards`.
pub mod Prelude
pub mod Utils
pub mod Tags
pub mod Hooks
pub mod Decks
pub mod Import
pub mod Desktop
pub mod Scheduler
