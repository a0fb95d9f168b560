-- ===== src/Svm.antt =====
-- svm.c, as far as it is not access to the hardware
pub mod Enable
pub mod Undone
pub mod Enabled
pub mod Msrpm
pub mod Direct
pub mod Events
pub mod Injected
pub mod Msr
pub mod Exit
pub mod Settled
pub mod Dispatch
pub mod Asid
pub mod Allotted
pub mod Entered
pub mod Isolated
