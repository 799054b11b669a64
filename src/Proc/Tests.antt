-- ===== src/Proc/Tests.antt =====
-- Runs of hw3/proc.c on a small machine, and the theorems at those inputs.
pub mod Toy
pub mod Boot
mod Lottery
mod Behave
mod Life
mod Wakeups
