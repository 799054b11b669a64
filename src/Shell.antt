-- ===== src/Shell.antt =====
-- The command parser of the shell (hw2/shell.c).
pub mod Token
pub mod Parser
pub mod Ends
pub mod Line
pub mod RoundTrip
pub mod Table
pub mod Run
pub mod Wiring
pub mod Items
pub mod Reading
pub mod Main
pub mod Lines
pub mod Session
mod Tests
