-- ===== src/Desktop.antt =====
-- The desktop program, as far as it decides something without Qt: playing sounds (qt/aqt/sound.py)
-- the add-ons (qt/aqt/addons.py) and the closures for the main thread (qt/aqt/taskman.py).
pub mod Addons
pub mod Sound
pub mod Tasks
