-- ===== src/Vmx/Settled.antt =====
-- What `vmx_launch` (vmx.c) is to do after each exit of the guest, with the loop and with the status that user space
-- gets.
use slimvm.Base.{
  ℕ, ◌/◌, ◌%◌, ◌<◌, ◌≡◌, ◌≢◌, ◌⊎◌, Bool, true, false, if◌then◌else◌, ok, err, Errno, einval, some,
  is_some,
}
use slimvm.State.{Vcpu, vm_max_vcpus}
use slimvm.Seccomp.{do_seccomp_filter}
use slimvm.Ept.Fault.{vmx_do_ept_violation}
use slimvm.Vmx.Msr.{rcx, low32, msr_cstar, find_msr_entry}
use slimvm.Vmx.Shutdown.{leaves_loop}
use slimvm.Vmx.Exit.{
  Reason, vmcall, cpuid, ept_violation, ept_misconfig, hlt, exception_nmi, msr_write, msr_read,
  xsetbv, interrupt_window, mce_during_vmentry, external_interrupt, other, Exit, Run, Callees,
  Settled, ret_hlt, ret_fail_entry, ret_internal_error, ret_unhandled_vmexit, ret_msr_write,
}

-- The exits that are always handled.
abbrev pub is_resumed : Reason → Bool
is_resumed cpuid = true
is_resumed xsetbv = true
is_resumed interrupt_window = true
is_resumed mce_during_vmentry = true
is_resumed external_interrupt = true
is_resumed _ = false

-- The guest runs again, and nothing is reported.
abbrev pub Resumes : Run → Settled → Type 0
Resumes r s = (s.done ≡ false) × (s.ret ≡ ok tt) × (s.run.status ≡ r.status)

-- The loop is left without an error, with a status.
abbrev pub Leaves : ℕ → Settled → Type 0
Leaves status s = (s.done ≡ true) × (s.ret ≡ ok tt) × (s.run.status ≡ status)

-- How a violation ends: with the error of `vmx_do_ept_violation`, or with `-EINVAL` for an address that is too wide.
pub record IsFault (c : Callees) (x : Exit) (r : Run) (s : Settled) : Type 0 where
  pub wide : x.qualification / 64 % 2 ≡ 1 → s.ret ≡ err einval
  pub answer :
      x.qualification / 64 % 2 ≡ 0
      → s.ret ≡ (vmx_do_ept_violation c.host x.gpa x.qualification r.vm).0
  pub fixed : s.ret ≡ ok tt → Resumes r s
  pub failed : (e : Errno) → s.ret ≡ err e → (s.done ≡ true) × (s.run.status ≡ ret_internal_error)

-- How an access to a register `msr` ends.
pub record IsAccess (q : Reason) (r : Run) (msr : ℕ) (s : Settled) : Type 0 where
  pub known : is_some (find_msr_entry r.msrs msr) ≡ true → Resumes r s
  pub cstar : q ≡ msr_write → msr ≡ msr_cstar → Resumes r s
  pub unknown_read :
      q ≡ msr_read
      → is_some (find_msr_entry r.msrs msr) ≡ false
      → Leaves r.status s × (s.run.guest.regs ≡ r.guest.regs)
  pub unknown_write :
      q ≡ msr_write
      → is_some (find_msr_entry r.msrs msr) ≡ false
      → msr ≢ msr_cstar
      → Leaves ret_msr_write s × (s.run.msrs ≡ r.msrs)

-- How a hypercall ends.
pub record IsCall (c : Callees) (x : Exit) (r : Run) (s : Settled) : Type 0 where
  pub from_user : x.cpl ≢ 0 → Resumes r s × (s.run ≡ r)
  pub allowed :
      x.cpl ≡ 0 → (do_seccomp_filter c.seccomp c.filters r.guest.regs).0 ≡ ok tt → Resumes r s
  pub refused :
      (e : Errno)
      → x.cpl ≡ 0
      → (do_seccomp_filter c.seccomp c.filters r.guest.regs).0 ≡ err e
      → Leaves r.status s × (s.run.vm.instp.shutdown ≡ true)
  pub stopped :
      (e : Errno) (j : ℕ) (v : Vcpu)
      → x.cpl ≡ 0
      → (do_seccomp_filter c.seccomp c.filters r.guest.regs).0 ≡ err e
      → j < vm_max_vcpus
      → r.vm.instp.vcpu_bitmap j ≡ true
      → r.vm.instp.vcpus j ≡ some v
      → (v' : Vcpu) × (s.run.vm.instp.vcpus j ≡ some v')
        × ((done : Bool) → leaves_loop done v' ≡ true)

-- What becomes of an exit, for each reason; `r` is the vcpu that the switch finds.
pub record IsSettled (c : Callees) (x : Exit) (q : Reason) (r : Run) (s : Settled) : Type 0 where
  pub resumed : is_resumed q ≡ true → Resumes r s
  pub nmi : q ≡ exception_nmi → x.intr_info / 256 % 8 ≡ 2 → Resumes r s × (s.run ≡ r)
  pub exception :
      q ≡ exception_nmi
      → x.intr_info / 256 % 8 ≢ 2
      → (s.done ≡ false) × (s.run.status ≡ x.intr_info % 256)
  pub halted : q ≡ hlt → Leaves ret_hlt s × (s.run.interruptibility % 4 ≡ 0)
  pub misconfigured : q ≡ ept_misconfig → Leaves ret_unhandled_vmexit s
  pub unnamed :
      (b : Bool) → q ≡ other b → Leaves (if b then ret_fail_entry else ret_unhandled_vmexit) s
  pub fault : q ≡ ept_violation → IsFault c x r s
  pub access : (q ≡ msr_read) ⊎ (q ≡ msr_write) → IsAccess q r (low32 (r.guest.regs rcx)) s
  pub call : q ≡ vmcall → IsCall c x r s
