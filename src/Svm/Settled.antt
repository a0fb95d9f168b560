-- ===== src/Svm/Settled.antt =====
-- What `svm_launch` (svm.c) is to do after each exit of the guest, with the loop and with the status that user space
-- gets.
use slimvm.Base.{
  ℕ, ◌%◌, ◌<◌, ◌≡◌, ◌≢◌, Bool, true, false, if◌then◌else◌, ◌==◌, ◌||◌, ok, err, Errno, some,
}
use slimvm.State.{Vcpu, vm_max_vcpus}
use slimvm.Seccomp.{do_seccomp_filter}
use slimvm.Npt.Fault.{svm_do_npt_violation}
use slimvm.Vmx.Msr.{rcx, low32, msr_cstar}
use slimvm.Vmx.Exit.{ret_hlt, ret_fail_entry, ret_internal_error, ret_unhandled_vmexit}
use slimvm.Vmx.Shutdown.{leaves_loop}
use slimvm.Svm.Msr.{msr_star, msr_lstar, msr_syscall_mask, msr_kernel_gs_base}
use slimvm.Svm.Exit.{
  Reason, vmmcall, cpuid, npf, hlt, nmi, iret, msr, xsetbv, vintr, intr, other, Exit, SvmRun,
  Callees, Settled,
}

-- The exits that are always handled.
abbrev pub is_resumed : Reason → Bool
is_resumed cpuid = true
is_resumed nmi = true
is_resumed iret = true
is_resumed xsetbv = true
is_resumed vintr = true
is_resumed intr = true
is_resumed _ = false

-- The registers whose values the VMCB keeps: `STAR`, `LSTAR`, `CSTAR`, the mask of the flags and the kernel's `GS`.
abbrev pub is_kept_msr : ℕ → Bool
is_kept_msr n =
    n == msr_star
    || n == msr_lstar
    || n == msr_cstar
    || n == msr_syscall_mask
    || n == msr_kernel_gs_base

-- The guest runs again, and nothing is reported.
abbrev pub Resumes : SvmRun → Settled → Type 0
Resumes r s = (s.done ≡ false) × (s.ret ≡ ok tt) × (s.run.status ≡ r.status)

-- The loop is left without an error, with a status.
abbrev pub Leaves : ℕ → Settled → Type 0
Leaves status s = (s.done ≡ true) × (s.ret ≡ ok tt) × (s.run.status ≡ status)

-- How a violation ends: with the result of `svm_do_npt_violation`.
pub record IsFault (c : Callees) (x : Exit) (r : SvmRun) (s : Settled) : Type 0 where
  pub answer :
      s.ret
      ≡ (svm_do_npt_violation c.npt c.host
          (c.npt.sme_clr x.exit_info_2)
          (low32 x.exit_info_1)
          r.vm).0
  pub fixed : s.ret ≡ ok tt → Resumes r s
  pub failed : (e : Errno) → s.ret ≡ err e → (s.done ≡ true) × (s.run.status ≡ ret_internal_error)

-- How an access to a register ends.
pub record IsAccess (r : SvmRun) (n : ℕ) (s : Settled) : Type 0 where
  pub known : is_kept_msr n ≡ true → Resumes r s
  pub unknown :
      is_kept_msr n ≡ false → Leaves r.status s × (s.run.regs ≡ r.regs) × (s.run.save ≡ r.save)

-- How a hypercall ends.
pub record IsCall (c : Callees) (x : Exit) (r : SvmRun) (s : Settled) : Type 0 where
  pub from_user : x.cpl ≢ 0 → Resumes r s × (s.run ≡ r)
  pub allowed : x.cpl ≡ 0 → (do_seccomp_filter c.seccomp c.filters r.regs).0 ≡ ok tt → Resumes r s
  pub refused :
      (e : Errno)
      → x.cpl ≡ 0
      → (do_seccomp_filter c.seccomp c.filters r.regs).0 ≡ err e
      → Leaves r.status s × (s.run.vm.instp.shutdown ≡ true)
  pub stopped :
      (e : Errno) (j : ℕ) (v : Vcpu)
      → x.cpl ≡ 0
      → (do_seccomp_filter c.seccomp c.filters r.regs).0 ≡ err e
      → j < vm_max_vcpus
      → r.vm.instp.vcpu_bitmap j ≡ true
      → r.vm.instp.vcpus j ≡ some v
      → (v' : Vcpu) × (s.run.vm.instp.vcpus j ≡ some v')
        × ((done : Bool) → leaves_loop done v' ≡ true)

-- What becomes of an exit, for each reason; `r` is the vcpu that the switch finds.
pub record IsSettled (c : Callees) (x : Exit) (q : Reason) (r : SvmRun) (s : Settled) : Type 0 where
  pub resumed : is_resumed q ≡ true → Resumes r s
  pub halted : q ≡ hlt → Leaves ret_hlt s × (s.run.events.int_state % 2 ≡ 0)
  pub unnamed :
      (b : Bool) → q ≡ other b → Leaves (if b then ret_fail_entry else ret_unhandled_vmexit) s
  pub fault : q ≡ npf → IsFault c x r s
  pub access : q ≡ msr → IsAccess r (low32 (r.regs rcx)) s
  pub call : q ≡ vmmcall → IsCall c x r s
