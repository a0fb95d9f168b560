-- ===== src/Ept/Flush/Requested.antt =====
-- What `ept_flush_remote_tlbs` of ept.c does to each vcpu.
use slimvm.Base.{ℕ, IsIn, ◌≡◌, ◌≢◌, Bool, true, false, if◌then◌else◌, some, List, is_some, ◌&&◌}
use slimvm.State.{Vcpu, outside_guest_mode}
use slimvm.Ept.Flush.{Cpu, exiting, remote_cpu}

-- The vcpu is asked to flush, keeps its other requests, and leaves guest mode where it runs on another CPU
-- and the set of those could be allocated.
pub record Flushed (cpu : Cpu) (v v' : Vcpu) : Type 0 where
  pub asked : v'.requests.tlb_flush ≡ true
  pub other : v'.requests.nmi ≡ v.requests.nmi
  pub mode_after :
      v'.mode
      ≡ (if is_some (remote_cpu cpu.me v.cpu) && cpu.cpus_allocated then exiting v.mode else v.mode)
  pub same_cpu : v'.cpu ≡ v.cpu

-- A vcpu on another CPU that is not outside of guest mode, where the mask is there, has its CPU in the mask.
abbrev IsRemote : Cpu → Vcpu → ℕ → Type 0
IsRemote cpu v c =
    (v.cpu ≡ some c) × (c ≢ cpu.me) × (v.mode ≢ outside_guest_mode) × (cpu.cpus_allocated ≡ true)

-- The interrupts: the CPUs that get one, and what the function returns.
pub record Interrupted (cpu : Cpu) (online : List ℕ) (v : Vcpu) (ipis : List ℕ) (called : Bool)
    : Type 0 where
  pub remote :
      (c : ℕ)
      → v.cpu ≡ some c
      → c ≢ cpu.me
      → v.mode ≢ outside_guest_mode
      → cpu.cpus_allocated ≡ true
      → IsIn c ipis × (called ≡ true)
  pub everyone : cpu.cpus_allocated ≡ false → (ipis ≡ online) × (called ≡ true)
