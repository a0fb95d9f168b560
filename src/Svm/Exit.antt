-- ===== src/Svm/Exit.antt =====
-- What `svm_launch` does with an exit of the guest (svm.c): the handlers that are not access to the hardware, and the
-- switch over the exit's reason, with what ends the loop. Where svm.c repeats a function of vmx.c the definition
-- of Vmx is used.
use slimvm.Base.{
  ℕ, ◌*◌, ◌/◌, Bool, true, false, not, if◌then◌else◌, ◌==◌, List, update, Ret, ok, err, leb,
}
use slimvm.Seccomp.{rax, rdx, rip, SeccompData, do_seccomp_filter}
use slimvm.Vm.{Vm, Host}
use slimvm.State.{Instance}
use slimvm.Ept.Flush.{Cpu}
use slimvm.Npt.Fault.{svm_do_npt_violation}
use slimvm.Vmx.Syscall.{Guest, set_rax, neg, enosys, after_signal, without_signal}
use slimvm.Vmx.Msr.{rcx, low32}
use slimvm.Vmx.Xsetbv.{handle_xsetbv}
use slimvm.Vmx.Shutdown.{vmx_shutdown_all_vcpus}
use slimvm.Vmx.Exit.{
  rbx, ret_hlt, ret_fail_entry, ret_internal_error, ret_unhandled_vmexit, violation_status,
}
use slimvm.Svm.Events.{Events, svm_handle_interrupt_events, iret_interception, svm_clear_vintr}
use slimvm.Svm.Msr.{Save, svm_handle_msr_read, svm_handle_msr_write}

-- `SVM_EXIT_*`; `other` is any number that the switch does not name, with whether it is `SVM_EXIT_SHUTDOWN` or
-- `SVM_EXIT_ERR`.
pub data Reason : Type 0 where
  vmmcall cpuid npf hlt nmi iret msr xsetbv vintr intr : Reason
  other : Bool → Reason

-- The exit, as the VMCB tells it.
pub record Exit : Type 0 where
  pub reason : Reason
  pub exit_info_1 : ℕ
  pub exit_info_2 : ℕ
  pub exit_int_info : ℕ
  pub exit_int_info_err : ℕ
  pub cpl : ℕ

-- The vcpu and what it works on. The instruction pointer of the VMCB is `events.rip`.
pub record SvmRun : Type 0 where
  pub regs : ℕ → ℕ
  pub events : Events
  pub save : Save
  pub xcr0 : ℕ
  pub status : ℕ
  pub vm : Vm

-- The code that the handlers call.
pub record Callees : Type 0 where
  pub host : Host
  pub npt : slimvm.Npt.Entry.Kernel
  pub cpu : Cpu
  pub online : List ℕ
  pub syscalls : slimvm.Vmx.Syscall.Kernel
  pub seccomp : slimvm.Seccomp.Kernel
  pub filters : List (SeccompData → ℕ)
  pub native_cpuid : ℕ → ℕ → ℕ × ℕ × ℕ × ℕ

unfoldable pub svm_step_instruction : SvmRun → SvmRun
svm_step_instruction r = record r {
  regs = update r.regs rip r.events.next_rip;
  events = record r.events { rip = r.events.next_rip };
}

unfoldable pub svm_process_step_instructions : Reason → SvmRun → SvmRun
unfolding svm_step_instruction
svm_process_step_instructions reason r = elim reason [
  | vmmcall ↦ svm_step_instruction r
  | cpuid ↦ svm_step_instruction r
  | msr ↦ svm_step_instruction r
  | hlt ↦ svm_step_instruction r
  | xsetbv ↦ svm_step_instruction r
  | _ ↦ r
]

-- With `vmcb->save.rip` as the guest's instruction pointer; the two switches are those of `vmx_handle_syscall`.
unfoldable pub svm_handle_syscall : slimvm.Vmx.Syscall.Kernel → Guest → Guest
unfolding after_signal without_signal
svm_handle_syscall k g =
    let orig_rax = g.regs rax in
    let called = set_rax (k.syscall_table orig_rax g.regs) g in
    if leb k.nr_syscalls orig_rax
    then set_rax (neg enosys) g
    else if k.signal_pending
    then after_signal orig_rax called
    else without_signal orig_rax called

-- The handler of a violation; `SLIMVM_RET_NPT_VIOLATION` is `SLIMVM_RET_EPT_VIOLATION`.
unfoldable pub svm_handle_npt_violation : Callees → Exit → SvmRun → Ret (Unit {0}) × SvmRun
svm_handle_npt_violation c x r =
    let (ret, vm) =
      svm_do_npt_violation c.npt c.host (c.npt.sme_clr x.exit_info_2) (low32 x.exit_info_1) r.vm in
    (ret, record r { vm = vm; status = violation_status ret r.status })

unfoldable pub svm_handle_cpuid : Callees → (ℕ → ℕ) → ℕ → ℕ
svm_handle_cpuid c regs =
    let (eax, ebx, ecx, edx) = c.native_cpuid (low32 (regs rax)) (low32 (regs rcx)) in
    update (update (update (update regs rax eax) rbx ebx) rcx ecx) rdx edx

-- With `skip_emulated_instruction`: the bit of an interrupt shadow is the lowest.
unfoldable pub emulate_vcpu_halt : SvmRun → SvmRun
emulate_vcpu_halt r = record r {
  events = record r.events { int_state = r.events.int_state / 2 * 2 };
  status = ret_hlt;
}

-- As `vmx_shutdown_all_vcpus`, line by line.
unfoldable pub svm_shutdown_all_vcpus : Cpu → List ℕ → Instance → Instance × List ℕ
svm_shutdown_all_vcpus cpu online instp = vmx_shutdown_all_vcpus cpu online instp

-- How the switch ends: with `done`, `r` and the vcpu.
pub record Settled : Type 0 where
  pub done : Bool
  pub ret : Ret (Unit {0})
  pub run : SvmRun

abbrev pub go_on : SvmRun → Settled
go_on r = record { done = false; ret = ok tt; run = r }

abbrev pub leave : SvmRun → Settled
leave r = record { done = true; ret = ok tt; run = r }

abbrev pub set_status : ℕ → SvmRun → SvmRun
set_status s r = record r { status = s }

abbrev pub set_events : SvmRun → Events → SvmRun
set_events r e = record r { events = e }

abbrev pub set_guest : SvmRun → Guest → SvmRun
set_guest r g = record r { regs = g.regs; events = record r.events { rip = g.rip } }

-- The case of a hypercall at privilege level 0, after the filters.
abbrev pub after_filter : Callees → SvmRun → Ret (Unit {0}) × (ℕ → ℕ) → Settled
after_filter c r (ok _, regs) =
    let g = svm_handle_syscall c.syscalls (record { regs = regs; rip = r.events.rip }) in
    go_on (set_guest r g)
after_filter c r (err e, regs) =
    let instp = (svm_shutdown_all_vcpus c.cpu c.online r.vm.instp).0 in
    leave (record r { regs = regs; vm = record r.vm { instp = instp } })

abbrev pub after_violation : Ret (Unit {0}) × SvmRun → Settled
after_violation (ok _, r) = go_on r
after_violation (err e, r) = record {
  done = true;
  ret = err e;
  run = set_status ret_internal_error r;
}

-- `handle_msr`: whether it returns 0, and the vcpu.
unfoldable pub handle_msr : Exit → SvmRun → Bool × SvmRun
handle_msr x r =
    if not (x.exit_info_1 == 0)
    then (let (fine, save) = svm_handle_msr_write r.save r.regs in (fine, record r { save = save }))
    else (let (fine, regs) = svm_handle_msr_read r.save r.regs in (fine, record r { regs = regs }))

abbrev pub after_msr : Bool × SvmRun → Settled
after_msr (true, r) = go_on r
after_msr (false, r) = leave r

-- The switch `switch (reason)` in each of its cases.
unfoldable pub handle_reason : Callees → Exit → SvmRun → Reason → Settled
unfolding svm_handle_npt_violation svm_handle_cpuid emulate_vcpu_halt handle_msr
handle_reason c x r vmmcall =
    if x.cpl == 0 then after_filter c r (do_seccomp_filter c.seccomp c.filters r.regs) else go_on r
handle_reason c x r cpuid = go_on (record r { regs = svm_handle_cpuid c r.regs })
handle_reason c x r npf = after_violation (svm_handle_npt_violation c x r)
handle_reason c x r hlt = leave (emulate_vcpu_halt r)
handle_reason c x r nmi = go_on r
handle_reason c x r iret = go_on (set_events r (iret_interception r.events))
handle_reason c x r msr = after_msr (handle_msr x r)
handle_reason c x r xsetbv = go_on (record r { xcr0 = (handle_xsetbv r.regs r.xcr0).1 })
handle_reason c x r vintr = go_on (set_events r (svm_clear_vintr r.events))
handle_reason c x r intr = go_on r
handle_reason c x r (other fail) =
    leave (set_status (if fail then ret_fail_entry else ret_unhandled_vmexit) r)

-- What follows a run of the guest: the event that the exit interrupted is put back, the instruction stepped over, and
-- the switch.
unfoldable pub svm_handle_exit : Callees → Exit → SvmRun → Settled
unfolding svm_process_step_instructions handle_reason
svm_handle_exit c x r =
    let r' =
      set_events r (svm_handle_interrupt_events r.events x.exit_int_info x.exit_int_info_err) in
    handle_reason c x (svm_process_step_instructions x.reason r') x.reason
