-- ===== src/Hashtable.antt =====
-- The hash table that threads fill and read (hw4/parallel_hashtable.c, parallel_spin.c,
-- parallel_mutex.c).
pub mod Table
pub mod Threads
pub mod Safe
pub mod Atomic
pub mod Phases
pub mod Gets
pub mod Contents
pub mod Main
pub mod Race
pub mod Ends
pub mod Prints
pub mod Losing
mod Tests
