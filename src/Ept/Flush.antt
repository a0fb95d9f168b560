-- ===== src/Ept/Flush.antt =====
-- `ept_flush_remote_tlbs` of ept.c: every vcpu of the instance is asked to flush, and a vcpu in guest mode
-- on another CPU is made to leave it by an interrupt.
pub mod Fields
pub mod Requested
use slimvm.Base.{
  ℕ, zero, suc, ◌+◌, Bool, true, false, not, if◌then◌else◌, ◌==◌, Option, none, some, List, [], ◌∷◌,
  add64, update,
}
use slimvm.State.{
  vm_max_vcpus, Instance, Vcpu, Mode, outside_guest_mode, in_guest_mode, exiting_guest_mode,
}

-- The executing CPU, and whether the CPU mask could be allocated.
pub record Cpu : Type 0 where
  pub me : ℕ
  pub cpus_allocated : Bool

unfoldable pub vmx_make_request_flush : Vcpu → Vcpu
vmx_make_request_flush v = record v { requests = record v.requests { tlb_flush = true } }

-- `cmpxchg(&vcpu->mode, IN_GUEST_MODE, EXITING_GUEST_MODE)`: the mode before, and the vcpu after.
abbrev pub exiting : Mode → Mode
exiting in_guest_mode = exiting_guest_mode
exiting m = m

abbrev pub is_outside_guest : Mode → Bool
is_outside_guest outside_guest_mode = true
is_outside_guest _ = false

unfoldable pub vmx_vcpu_exiting_guest_mode : Vcpu → Mode × Vcpu
vmx_vcpu_exiting_guest_mode v = (v.mode, record v { mode = exiting v.mode })

-- The CPU of a vcpu that is on another CPU than this one.
abbrev pub remote_cpu : ℕ → Option ℕ → Option ℕ
remote_cpu me none = none
remote_cpu me (some cpu) = if cpu == me then none else some cpu

-- What the loop does to one vcpu, and the CPU that is to be interrupted for it, if any.
unfoldable pub flush_vcpu : Cpu → Vcpu → Vcpu × Option ℕ
unfolding vmx_make_request_flush vmx_vcpu_exiting_guest_mode
flush_vcpu cpu v =
    let asked = vmx_make_request_flush v in
    elim (remote_cpu cpu.me asked.cpu) [
      | none ↦ (asked, none)
      | some c ↦
          if cpu.cpus_allocated
          then (let (before, left) = vmx_vcpu_exiting_guest_mode asked in
              (left, if is_outside_guest before then none else some c))
          else (asked, none)
    ]

abbrev pub add_ipi : Option ℕ → Instance × List ℕ → Instance × List ℕ
add_ipi none (instp, cpus) = (instp, cpus)
add_ipi (some c) (instp, cpus) =
    (record instp { ept_invl_ipi = add64 instp.ept_invl_ipi 1 }, c ∷ cpus)

-- One round: a number whose bit is set, at a vcpu that is there.
unfoldable pub flush_round : Cpu → Bool → Option Vcpu → ℕ → Instance × List ℕ → Instance × List ℕ
unfolding flush_vcpu
flush_round cpu true (some v) i (instp, cpus) =
    let (v', ipi) = flush_vcpu cpu v in
    add_ipi ipi (record instp { vcpus = update instp.vcpus i (some v') }, cpus)
flush_round cpu _ _ i st = st

-- `for_each_set_bit`: the `k` numbers from `i` on.
unfoldable pub flush_loop : Cpu → ℕ → ℕ → Instance × List ℕ → Instance × List ℕ
unfolding flush_round
flush_loop cpu zero i st = st
flush_loop cpu (suc k) i (instp, cpus) =
    flush_loop cpu k (i + 1) (flush_round cpu (instp.vcpu_bitmap i) (instp.vcpus i) i (instp, cpus))

abbrev pub is_empty : List ℕ → Bool
is_empty [] = true
is_empty (_ ∷ _) = false

-- The CPUs that `smp_call_function_many` is called with, of those that are online: all where the mask is missing.
unfoldable pub flush_ipis : Cpu → List ℕ → Instance → List ℕ
unfolding flush_loop
flush_ipis cpu online instp =
    let (instp', cpus) = flush_loop cpu vm_max_vcpus 0 (instp, []) in
    if not cpu.cpus_allocated then online else cpus

-- The instance after it, and whether it returns `called`.
unfoldable pub ept_flush_remote_tlbs : Cpu → Instance → Instance × Bool
unfolding flush_loop
ept_flush_remote_tlbs cpu instp =
    let (instp', cpus) = flush_loop cpu vm_max_vcpus 0 (instp, []) in
    (instp', if not cpu.cpus_allocated then true else not (is_empty cpus))
