-- ===== src/Npt.antt =====
-- npt.c
pub mod Entry
pub mod Lookup
pub mod Fault
pub mod Tables
pub mod Map
pub mod Notifier
pub mod Invalidate
pub mod Rounds
pub mod Users
pub mod Destroyed
pub mod Flags
pub mod Answered
pub mod Violation
pub mod Live
