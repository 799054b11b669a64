-- ===== src/Uniq.antt =====
-- The program uniq (hw1/uniq.c).
pub mod Reading
pub mod Compare
pub mod Copies
pub mod Modes
pub mod Runs
pub mod Dupes
pub mod Alike
pub mod Options
mod Tests
