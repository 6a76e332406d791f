-- ===== src/Scheduler.antt =====
-- The V2 scheduler: pylib/anki/scheduler/v2.py, with the parts of pylib/anki/cards.py and
-- pylib/anki/consts.py that it works on.
pub mod Number
pub mod Card
pub mod Config
pub mod State
pub mod Lookup
pub mod Steps
pub mod Intervals
pub mod Learn
pub mod Revlog
pub mod Review
pub mod Flush
pub mod Answer
pub mod NextTimes
pub mod Tables
pub mod Limits
pub mod NewQueue
pub mod LrnQueue
pub mod RevQueue
pub mod Fetch
pub mod Logic
pub mod Samples
pub mod Program
mod Tests
