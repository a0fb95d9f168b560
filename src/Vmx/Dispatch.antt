-- ===== src/Vmx/Dispatch.antt =====
-- What the switch over the exits in `vmx_launch` (vmx.c) does with the loop and with the status that user space
-- gets, for each reason of an exit.
use slimvm.Base.{
  ℕ, ◌/◌, ◌%◌, ◌<◌, ◌≡◌, inl, inr, refl, Bool, true, arith, ◌==◌, Ret, ok, err, Errno, Bool-cases,
  Option-cases, some, ◌∙◌, [],
}
use slimvm.State.{Vcpu, vm_max_vcpus}
use slimvm.Seccomp.{do_seccomp_filter}
use slimvm.Vmx.Msr.{rcx, low32, find_msr_entry, vmx_handle_msr_read, vmx_handle_msr_write}
use slimvm.Vmx.Shutdown.{leaves_loop, vmx_shutdown_all_vcpus}
use slimvm.Vmx.Stop.{vmx_shutdown_all_vcpus-Shut}
use slimvm.Vmx.Exit.{
  Reason, vmcall, cpuid, ept_violation, ept_misconfig, hlt, exception_nmi, msr_write, msr_read,
  xsetbv, interrupt_window, mce_during_vmentry, external_interrupt, other, Exit, Run, Callees,
  ret_internal_error, violation_status, set_guest, after_filter, after_violation, vmx_handle_exit,
  handle_reason, vmx_process_step_instructions, vmx_handle_ept_violation, vmx_handle_nmi_exception,
  emulate_vcpu_halt, vmx_inject_bounce,
}
use slimvm.Vmx.Settled.{is_resumed, Resumes, Leaves, IsFault, IsAccess, IsCall, IsSettled}

handle_reason-resumed :
    (c : Callees) (x : Exit) (r : Run) (q : Reason)
    → is_resumed q ≡ true
    → Resumes r (handle_reason c x r q)
unfolding handle_reason vmx_inject_bounce
handle_reason-resumed c x r cpuid h = (refl, refl, refl)
handle_reason-resumed c x r xsetbv h = (refl, refl, refl)
handle_reason-resumed c x r interrupt_window h = ground arith
handle_reason-resumed c x r mce_during_vmentry h = (refl, refl, refl)
handle_reason-resumed c x r external_interrupt h = (refl, refl, refl)
handle_reason-resumed c x r vmcall h = absurd (cc h)
handle_reason-resumed c x r ept_violation h = absurd (cc h)
handle_reason-resumed c x r ept_misconfig h = absurd (cc h)
handle_reason-resumed c x r hlt h = absurd (cc h)
handle_reason-resumed c x r exception_nmi h = absurd (cc h)
handle_reason-resumed c x r msr_write h = absurd (cc h)
handle_reason-resumed c x r msr_read h = absurd (cc h)
handle_reason-resumed c x r (other b) h = absurd (cc h)

pub ok_status : (o : Ret (Unit {0})) (s : ℕ) → o ≡ ok tt → violation_status o s ≡ s
ok_status o s h = rw h

after_violation-fixed :
    (r : Run) (o : Ret (Unit {0}) × Run)
    → (o.0 ≡ ok tt → o.1.status ≡ r.status)
    → (after_violation o).ret ≡ ok tt
    → Resumes r (after_violation o)
after_violation-fixed r (ok tt, r') s h = (refl, refl, s refl)
after_violation-fixed r (err e, r') s h = absurd (cc h)

after_violation-failed :
    (o : Ret (Unit {0}) × Run) (e : Errno)
    → (after_violation o).ret ≡ err e
    → ((after_violation o).done ≡ true) × ((after_violation o).run.status ≡ ret_internal_error)
after_violation-failed (ok tt, r) e h = absurd (cc h)
after_violation-failed (err e', r) e h = (refl, refl)

after_violation-ret : (o : Ret (Unit {0}) × Run) → (after_violation o).ret ≡ o.0
after_violation-ret (ok tt, r) = refl
after_violation-ret (err e, r) = refl

after_filter-allowed :
    (c : Callees) (r : Run) (o : Ret (Unit {0}) × (ℕ → ℕ))
    → o.0 ≡ ok tt
    → Resumes r (after_filter c r o)
after_filter-allowed c r (ok _, regs) h = (refl, refl, refl)
after_filter-allowed c r (err e, regs) h = absurd (cc h)

after_filter-refused :
    (c : Callees) (r : Run) (o : Ret (Unit {0}) × (ℕ → ℕ)) (e : Errno)
    → o.0 ≡ err e
    → Leaves r.status (after_filter c r o) × ((after_filter c r o).run.vm.instp.shutdown ≡ true)
unfolding vmx_shutdown_all_vcpus
after_filter-refused c r (ok _, regs) e h = absurd (cc h)
after_filter-refused c r (err e', regs) e h = ((refl, refl, refl), refl)

after_filter-stopped :
    (c : Callees) (r : Run) (o : Ret (Unit {0}) × (ℕ → ℕ)) (e : Errno)
    → o.0 ≡ err e
    → (j : ℕ) (v : Vcpu) → j < vm_max_vcpus
    → r.vm.instp.vcpu_bitmap j ≡ true
    → r.vm.instp.vcpus j ≡ some v
    → (v' : Vcpu) × ((after_filter c r o).run.vm.instp.vcpus j ≡ some v')
      × ((done : Bool) → leaves_loop done v' ≡ true)
after_filter-stopped c r (ok _, regs) e h j v lt b w = absurd (cc h)
after_filter-stopped c r (err e', regs) e h j v lt b w =
    let shut = vmx_shutdown_all_vcpus-Shut c.cpu c.online r.vm.instp j v v [] 0 lt b w in
    shut.1.marked

module _ (c : Callees) (x : Exit) (r : Run) where
  handle_violation-status :
      (vmx_handle_ept_violation c.host x r).0 ≡ ok tt
      → (vmx_handle_ept_violation c.host x r).1.status ≡ r.status
  unfolding vmx_handle_ept_violation
  handle_violation-status h = elim (Bool-cases (x.qualification / 64 % 2 == 1)) [
    | inl e ↦ absurd (cc (rw e at h))
    | inr e ↦ rw e (ok_status _ r.status (rw e at h))
  ]

  handle_reason-IsFault : IsFault c x r (handle_reason c x r ept_violation)
  unfolding handle_reason
  handle_reason-IsFault =
      let o = vmx_handle_ept_violation c.host x r in
      record {
        wide = λ h. after_violation-ret o ∙ (unfold vmx_handle_ept_violation in rw h refl);
        answer = λ h. after_violation-ret o ∙ (unfold vmx_handle_ept_violation in rw h refl);
        fixed = after_violation-fixed r o handle_violation-status;
        failed = after_violation-failed o;
      }

  handle_reason-IsRead :
      IsAccess msr_read r (low32 (r.guest.regs rcx)) (handle_reason c x r msr_read)
  unfolding handle_reason vmx_handle_msr_read
  handle_reason-IsRead =
      let o = find_msr_entry r.msrs (low32 (r.guest.regs rcx)) in
      record {
        known = λ h. elim (Option-cases o) [
          | inl n ↦ absurd (cc (rw n at h))
          | inr (e, s) ↦ rw s (refl, refl, refl)
        ];
        cstar = λ q. absurd (cc q);
        unknown_read = λ q h. elim (Option-cases o) [
          | inl n ↦ rw n ((refl, refl, refl), refl)
          | inr (e, s) ↦ absurd (cc (rw s at h))
        ];
        unknown_write = λ q. absurd (cc q);
      }

  handle_reason-IsWrite :
      IsAccess msr_write r (low32 (r.guest.regs rcx)) (handle_reason c x r msr_write)
  unfolding handle_reason vmx_handle_msr_write
  handle_reason-IsWrite = record {
    known = λ h. rw h (refl, refl, refl);
    cstar = λ q h. ground (arith, h);
    unknown_read = λ q. absurd (cc q);
    unknown_write = λ q h n. ground (arith, h, n);
  }

  handle_reason-IsCall : IsCall c x r (handle_reason c x r vmcall)
  unfolding handle_reason
  handle_reason-IsCall =
      let o = do_seccomp_filter c.seccomp c.filters r.guest.regs in
      record {
        from_user = λ h. ground (arith, h);
        allowed = λ z h. rw z (after_filter-allowed c r o h);
        refused = λ e z h. rw z (after_filter-refused c r o e h);
        stopped = λ e j v z h lt b w. rw z (after_filter-stopped c r o e h j v lt b w);
      }

  handle_reason-IsSettled : (q : Reason) → IsSettled c x q r (handle_reason c x r q)
  unfolding handle_reason vmx_handle_nmi_exception emulate_vcpu_halt
  handle_reason-IsSettled q = record {
    resumed = handle_reason-resumed c x r q;
    nmi = λ e h. rw e (ground (arith, h));
    exception = λ e h. rw e (ground (arith, h));
    halted = λ e. rw e ((refl, refl, refl), omega arith);
    misconfigured = λ e. rw e (refl, refl, refl);
    unnamed = λ b e. rw e (refl, refl, refl);
    fault = λ e. rw e handle_reason-IsFault;
    access = λ e. elim e [ inl h ↦ rw h handle_reason-IsRead | inr h ↦ rw h handle_reason-IsWrite ];
    call = λ e. rw e handle_reason-IsCall;
  }

-- The vcpu when `vmx_launch` comes to the switch.
abbrev pub at_switch : Exit → Run → Run
at_switch x r = set_guest r (vmx_process_step_instructions x r.guest)

-- What `vmx_launch` does after an exit, for every reason of one. After `CPUID`, `XSETBV`, an interrupt window, a machine
-- check and an external interrupt the guest runs again with its status as it was, and so it does after an NMI; another
-- exception sets the status to its vector first. A halt and a misconfigured EPT leave the loop without an error,
-- with their own status, and so does a reason that the switch does not name. A violation gives the result of
-- `vmx_do_ept_violation` and goes on if it is fixed; every error leaves the loop with the status of an internal error,
-- whatever the handler set. An access to a register that the vcpu keeps goes on, as a write of `CSTAR` does; to any
-- other register it leaves. A hypercall from user mode and one that the filters allow go on; one that they refuse
-- leaves with the status as it was, with the instance shut down and each of its vcpus marked to leave its loop.
pub vmx_handle_exit-IsSettled :
    (c : Callees) (x : Exit) (r : Run)
    → IsSettled c x x.reason (at_switch x r) (vmx_handle_exit c x r)
unfolding vmx_handle_exit
vmx_handle_exit-IsSettled c x r = handle_reason-IsSettled c x (at_switch x r) x.reason
