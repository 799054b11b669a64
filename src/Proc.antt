-- ===== src/Proc.antt =====
-- The process table of the kernel and the lottery scheduler (hw3/proc.c, hw3/proc.h).
pub mod State
pub mod Alloc
pub mod Sched
pub mod Exit
pub mod Dump
pub mod Lottery
pub mod Valid
pub mod Life
pub mod Wakeups
pub mod Behave
pub mod Tests
