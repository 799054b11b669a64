-- ===== src/Disk.antt =====
-- The programs of final_project that read and write a file by blocks.
pub mod Bits
pub mod Blocks
pub mod Sequential
pub mod Whole
pub mod Threads
pub mod Shares
pub mod Schedule
pub mod Same
pub mod Write
pub mod Letters
pub mod Main
pub mod Bench
mod Tests
