-- ===== src/Vmx.antt =====
-- vmx.c, as far as it is not access to the hardware
pub mod Requests
pub mod Guard
pub mod Missed
pub mod Syscall
pub mod Msr
pub mod Xsetbv
pub mod Create
pub mod Created
pub mod Shutdown
pub mod Stop
pub mod Exit
pub mod Settled
pub mod Dispatch
