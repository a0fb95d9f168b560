-- ===== src/Svm/Dispatch.antt =====
-- What the switch over the exits in `svm_launch` (svm.c) does with the loop and with the status that user space gets, for
-- each reason of an exit.
use slimvm.Base.{ℕ, ◌<◌, ◌≡◌, refl, Bool, true, false, arith, Ret, ok, err, Errno, some, []}
use slimvm.State.{Vcpu, vm_max_vcpus}
use slimvm.Seccomp.{do_seccomp_filter}
use slimvm.Vmx.Msr.{rcx, low32}
use slimvm.Vmx.Exit.{ret_internal_error}
use slimvm.Vmx.Dispatch.{ok_status}
use slimvm.Vmx.Shutdown.{leaves_loop, vmx_shutdown_all_vcpus}
use slimvm.Vmx.Stop.{vmx_shutdown_all_vcpus-Shut}
use slimvm.Svm.Events.{svm_handle_interrupt_events}
use slimvm.Svm.Msr.{read_save, write_save, svm_handle_msr_read, svm_handle_msr_write}
use slimvm.Svm.Exit.{
  Reason, vmmcall, cpuid, npf, hlt, nmi, iret, msr, xsetbv, vintr, intr, other, Exit, SvmRun,
  Callees, set_events, after_filter, after_violation, after_msr, handle_msr,
  svm_handle_npt_violation, svm_handle_exit, handle_reason, emulate_vcpu_halt,
  svm_process_step_instructions, svm_step_instruction, svm_shutdown_all_vcpus,
}
use slimvm.Svm.Settled.{is_resumed, Resumes, Leaves, IsFault, IsCall, IsSettled, is_kept_msr}

handle_reason-resumed :
    (c : Callees) (x : Exit) (r : SvmRun) (q : Reason)
    → is_resumed q ≡ true
    → Resumes r (handle_reason c x r q)
unfolding handle_reason
handle_reason-resumed c x r cpuid h = (refl, refl, refl)
handle_reason-resumed c x r nmi h = (refl, refl, refl)
handle_reason-resumed c x r iret h = (refl, refl, refl)
handle_reason-resumed c x r xsetbv h = (refl, refl, refl)
handle_reason-resumed c x r vintr h = (refl, refl, refl)
handle_reason-resumed c x r intr h = (refl, refl, refl)
handle_reason-resumed c x r vmmcall h = absurd (cc h)
handle_reason-resumed c x r npf h = absurd (cc h)
handle_reason-resumed c x r hlt h = absurd (cc h)
handle_reason-resumed c x r msr h = absurd (cc h)
handle_reason-resumed c x r (other b) h = absurd (cc h)

after_violation-fixed :
    (r : SvmRun) (o : Ret (Unit {0}) × SvmRun)
    → (o.0 ≡ ok tt → o.1.status ≡ r.status)
    → (after_violation o).ret ≡ ok tt
    → Resumes r (after_violation o)
after_violation-fixed r (ok tt, r') s h = (refl, refl, s refl)
after_violation-fixed r (err e, r') s h = absurd (cc h)

after_violation-failed :
    (o : Ret (Unit {0}) × SvmRun) (e : Errno)
    → (after_violation o).ret ≡ err e
    → ((after_violation o).done ≡ true) × ((after_violation o).run.status ≡ ret_internal_error)
after_violation-failed (ok tt, r) e h = absurd (cc h)
after_violation-failed (err e', r) e h = (refl, refl)

after_violation-ret : (o : Ret (Unit {0}) × SvmRun) → (after_violation o).ret ≡ o.0
after_violation-ret (ok tt, r) = refl
after_violation-ret (err e, r) = refl

after_filter-allowed :
    (c : Callees) (r : SvmRun) (o : Ret (Unit {0}) × (ℕ → ℕ))
    → o.0 ≡ ok tt
    → Resumes r (after_filter c r o)
after_filter-allowed c r (ok _, regs) h = (refl, refl, refl)
after_filter-allowed c r (err e, regs) h = absurd (cc h)

after_filter-refused :
    (c : Callees) (r : SvmRun) (o : Ret (Unit {0}) × (ℕ → ℕ)) (e : Errno)
    → o.0 ≡ err e
    → Leaves r.status (after_filter c r o) × ((after_filter c r o).run.vm.instp.shutdown ≡ true)
unfolding svm_shutdown_all_vcpus vmx_shutdown_all_vcpus
after_filter-refused c r (ok _, regs) e h = absurd (cc h)
after_filter-refused c r (err e', regs) e h = ((refl, refl, refl), refl)

after_filter-stopped :
    (c : Callees) (r : SvmRun) (o : Ret (Unit {0}) × (ℕ → ℕ)) (e : Errno)
    → o.0 ≡ err e
    → (j : ℕ) (v : Vcpu) → j < vm_max_vcpus
    → r.vm.instp.vcpu_bitmap j ≡ true
    → r.vm.instp.vcpus j ≡ some v
    → (v' : Vcpu) × ((after_filter c r o).run.vm.instp.vcpus j ≡ some v')
      × ((done : Bool) → leaves_loop done v' ≡ true)
unfolding svm_shutdown_all_vcpus
after_filter-stopped c r (ok _, regs) e h j v lt b w = absurd (cc h)
after_filter-stopped c r (err e', regs) e h j v lt b w =
    let shut = vmx_shutdown_all_vcpus-Shut c.cpu c.online r.vm.instp j v v [] 0 lt b w in
    shut.1.marked

module _ (c : Callees) (x : Exit) (r : SvmRun) where
  handle_violation-status :
      (svm_handle_npt_violation c x r).0 ≡ ok tt
      → (svm_handle_npt_violation c x r).1.status ≡ r.status
  unfolding svm_handle_npt_violation
  handle_violation-status h = ok_status _ r.status h

  handle_reason-IsFault : IsFault c x r (handle_reason c x r npf)
  unfolding handle_reason
  handle_reason-IsFault =
      let o = svm_handle_npt_violation c x r in
      record {
        answer =
            unfold svm_handle_npt_violation in after_violation-ret (svm_handle_npt_violation c x r);
        fixed = after_violation-fixed r o handle_violation-status;
        failed = after_violation-failed o;
      }

  handle_msr-known :
      is_kept_msr (low32 (r.regs rcx)) ≡ true → Resumes r (after_msr (handle_msr x r))
  unfolding handle_msr svm_handle_msr_read svm_handle_msr_write read_save write_save
  handle_msr-known h = ground (arith, h)

  handle_msr-unknown :
      is_kept_msr (low32 (r.regs rcx)) ≡ false
      → Leaves r.status (after_msr (handle_msr x r))
        × ((after_msr (handle_msr x r)).run.regs ≡ r.regs)
        × ((after_msr (handle_msr x r)).run.save ≡ r.save)
  unfolding handle_msr svm_handle_msr_read svm_handle_msr_write read_save write_save
  handle_msr-unknown h = ground (arith, h)

  handle_reason-IsCall : IsCall c x r (handle_reason c x r vmmcall)
  unfolding handle_reason
  handle_reason-IsCall =
      let o = do_seccomp_filter c.seccomp c.filters r.regs in
      record {
        from_user = λ h. ground (arith, h);
        allowed = λ z h. rw z (after_filter-allowed c r o h);
        refused = λ e z h. rw z (after_filter-refused c r o e h);
        stopped = λ e j v z h lt b w. rw z (after_filter-stopped c r o e h j v lt b w);
      }

  handle_reason-IsSettled : (q : Reason) → IsSettled c x q r (handle_reason c x r q)
  unfolding handle_reason emulate_vcpu_halt
  handle_reason-IsSettled q = record {
    resumed = handle_reason-resumed c x r q;
    halted = λ e. rw e ((refl, refl, refl), omega arith);
    unnamed = λ b e. rw e (refl, refl, refl);
    fault = λ e. rw e handle_reason-IsFault;
    access = λ e. rw e (record { known = handle_msr-known; unknown = handle_msr-unknown });
    call = λ e. rw e handle_reason-IsCall;
  }

step_status : (q : Reason) (r : SvmRun) → (svm_process_step_instructions q r).status ≡ r.status
unfolding svm_process_step_instructions svm_step_instruction
step_status vmmcall r = refl
step_status cpuid r = refl
step_status npf r = refl
step_status hlt r = refl
step_status nmi r = refl
step_status iret r = refl
step_status msr r = refl
step_status xsetbv r = refl
step_status vintr r = refl
step_status intr r = refl
step_status (other b) r = refl

-- The vcpu when `svm_launch` comes to the switch.
abbrev pub at_switch : Exit → SvmRun → SvmRun
at_switch x r =
    svm_process_step_instructions x.reason
      (set_events r (svm_handle_interrupt_events r.events x.exit_int_info x.exit_int_info_err))

-- What `svm_launch` does after an exit, for every reason of one; up to the switch the status is as it was. After
-- `CPUID`, an NMI, `IRET`, `XSETBV`, an interrupt window and an interrupt the guest runs again with its status as it
-- was. A halt leaves the loop without an error and without an interrupt shadow, with its own status, and a reason
-- that the switch does not name leaves it with the status of a failed entry or of an unhandled exit. A violation
-- gives the result of `svm_do_npt_violation` and goes on if it is fixed; every error leaves the loop with the status
-- of an internal error, whatever the handler set. An access to one of the five registers that the VMCB keeps goes
-- on, and to any other register it leaves with nothing changed. A hypercall from user mode and one that the filters
-- allow go on; one that they refuse leaves with the status as it was, with the instance shut down and each of its
-- vcpus marked to leave its loop.
pub svm_handle_exit-IsSettled :
    (c : Callees) (x : Exit) (r : SvmRun)
    → IsSettled c x x.reason (at_switch x r) (svm_handle_exit c x r)
      × ((at_switch x r).status ≡ r.status)
unfolding svm_handle_exit
svm_handle_exit-IsSettled c x r =
    (handle_reason-IsSettled c x (at_switch x r) x.reason, step_status x.reason _)
