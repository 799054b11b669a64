-- ===== src/Syscall.antt =====
-- System calls: hw3/syscall.c fetches the arguments and dispatches, hw3/sysproc.c has the handlers
-- of the process calls.
pub mod Args
pub mod Bounds
pub mod Handlers
pub mod Dispatch
pub mod Handled
pub mod Keeps
pub mod Replies
pub mod Session
mod Tests
