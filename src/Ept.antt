-- ===== src/Ept.antt =====
-- ept.c
pub mod Entry
pub mod Lookup
pub mod Flush
pub mod Fault
pub mod Tables
pub mod Map
pub mod Notifier
pub mod Invalidate
pub mod Counters
pub mod Race
pub mod Stale
pub mod Rounds
