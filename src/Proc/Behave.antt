-- ===== src/Proc/Behave.antt =====
-- What the calls of hw3/proc.c give their callers.
pub mod Scans
pub mod Waits
pub mod Births
pub mod Exits
pub mod Switches
