-- ===== src/Shell.antt =====
-- main.c: the command line.
pub mod Commands
pub mod Path
pub mod Dispatch
pub mod Reconnect
pub mod Overflow
pub mod Lines
pub mod Kept
pub mod Program
pub mod Completion
pub mod Offers
