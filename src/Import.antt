-- ===== src/Import.antt =====
-- Importing: pylib/anki/importing/anki2.py, which merges one collection into another, and
-- pylib/anki/importing/noteimp.py, which imports notes from text files.
mod Tests
pub mod Foreign
pub mod Media
pub mod Decks
pub mod Notes
pub mod Cards
