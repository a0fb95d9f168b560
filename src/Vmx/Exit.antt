-- ===== src/Vmx/Exit.antt =====
-- What `vmx_launch` does with an exit of the guest (vmx.c): the handlers that are not access to the hardware, and the
-- switch over the exit's reason, with what ends the loop.
use slimvm.Base.{
  ℕ, ◌*◌, ◌/◌, ◌%◌, Bool, true, false, not, if◌then◌else◌, ◌==◌, List, update, add64, Ret, ok, err,
  enomem, einval, erestartsys,
}
use slimvm.Seccomp.{rax, rdx, rip, SeccompData, do_seccomp_filter}
use slimvm.Vm.{Vm, Host}
use slimvm.Ept.Flush.{Cpu}
use slimvm.Ept.Fault.{vmx_do_ept_violation}
use slimvm.Vmx.Syscall.{Guest, vmx_handle_syscall}
use slimvm.Vmx.Msr.{MsrEntry, rcx, low32, vmx_handle_msr_read, vmx_handle_msr_write}
use slimvm.Vmx.Xsetbv.{handle_xsetbv}
use slimvm.Vmx.Shutdown.{vmx_shutdown_all_vcpus}

abbrev pub rbx : ℕ
rbx = 3

-- `EXIT_REASON_*`; `other` is any number that the switch does not name, with whether it has the bit of a failed
-- entry.
pub data Reason : Type 0 where
  vmcall cpuid ept_violation ept_misconfig hlt exception_nmi msr_write msr_read xsetbv : Reason
  interrupt_window mce_during_vmentry external_interrupt : Reason
  other : Bool → Reason

-- The exit, as the VMCS tells it.
pub record Exit : Type 0 where
  pub reason : Reason
  pub qualification : ℕ
  pub gpa : ℕ
  pub intr_info : ℕ
  pub instruction_len : ℕ
  pub cpl : ℕ

-- The vcpu and what it works on. `interruptibility` and `window_exiting` are in the VMCS.
pub record Run : Type 0 where
  pub guest : Guest
  pub msrs : List MsrEntry
  pub xcr0 : ℕ
  pub status : ℕ
  pub bounce_pending : Bool
  pub interruptibility : ℕ
  pub window_exiting : Bool
  pub vm : Vm

-- The code that the handlers call: the host kernel, and exception.c with its effects on the guest.
pub record Callees : Type 0 where
  pub host : Host
  pub cpu : Cpu
  pub online : List ℕ
  pub syscalls : slimvm.Vmx.Syscall.Kernel
  pub seccomp : slimvm.Seccomp.Kernel
  pub filters : List (SeccompData → ℕ)
  pub native_cpuid : ℕ → ℕ → ℕ × ℕ × ℕ × ℕ
  pub slimvm_exception_handler : ℕ → Guest → Guest
  pub slimvm_inject_vector : Guest → Guest
  pub interrupt_allowed : Bool

abbrev pub set_guest : Run → Guest → Run
set_guest r g = record r { guest = g }

abbrev pub set_status : ℕ → Run → Run
set_status s r = record r { status = s }

abbrev pub set_regs : Run → (ℕ → ℕ) → Run
set_regs r regs = set_guest r (record r.guest { regs = regs })

-- `SLIMVM_RET_*`
abbrev pub ret_hlt : ℕ
ret_hlt = 0x5

abbrev pub ret_fail_entry : ℕ
ret_fail_entry = 0x9

abbrev pub ret_internal_error : ℕ
ret_internal_error = 0x11

abbrev pub ret_msr_write : ℕ
ret_msr_write = 0x20

abbrev pub ret_ept_violation : ℕ
ret_ept_violation = 0x81

abbrev pub ret_unhandled_vmexit : ℕ
ret_unhandled_vmexit = 0x82

unfoldable pub vmx_step_instruction : ℕ → Guest → Guest
vmx_step_instruction len g =
    let next = add64 g.rip len in record g { regs = update g.regs rip next; rip = next }

unfoldable pub vmx_process_step_instructions : Exit → Guest → Guest
unfolding vmx_step_instruction
vmx_process_step_instructions x g = elim x.reason [
  | vmcall ↦ vmx_step_instruction x.instruction_len g
  | cpuid ↦ vmx_step_instruction x.instruction_len g
  | msr_write ↦ vmx_step_instruction x.instruction_len g
  | msr_read ↦ vmx_step_instruction x.instruction_len g
  | hlt ↦ vmx_step_instruction x.instruction_len g
  | xsetbv ↦ vmx_step_instruction x.instruction_len g
  | _ ↦ g
]

-- The switch over the result of a violation, for the status.
abbrev pub violation_status : Ret (Unit {0}) → ℕ → ℕ
violation_status (ok _) status = status
violation_status (err erestartsys) status = status
violation_status (err enomem) status = status
violation_status (err _) status = ret_ept_violation

-- `exit_qual & (1 << 6)` is an address that is too wide.
unfoldable pub vmx_handle_ept_violation : Host → Exit → Run → Ret (Unit {0}) × Run
vmx_handle_ept_violation host x r =
    if x.qualification / 64 % 2 == 1
    then (err einval, r)
    else (let (ret, vm) = vmx_do_ept_violation host x.gpa x.qualification r.vm in
        (ret, record r { vm = vm; status = violation_status ret r.status }))

unfoldable pub vmx_handle_cpuid : Callees → Guest → Guest
vmx_handle_cpuid c g =
    let (eax, ebx, ecx, edx) = c.native_cpuid (low32 (g.regs rax)) (low32 (g.regs rcx)) in
    record g { regs = update (update (update (update g.regs rax eax) rbx ebx) rcx ecx) rdx edx }

-- The type of an interruption is in the bits 8 to 10, and 2 is an NMI. It always returns 0.
unfoldable pub vmx_handle_nmi_exception : Callees → Exit → Run → Run
vmx_handle_nmi_exception c x r = if x.intr_info / 256 % 8 == 2 then r else record r {
  guest = c.slimvm_exception_handler x.intr_info r.guest;
  status = x.intr_info % 256;
}

-- The bits of an interrupt shadow are the two lowest.
unfoldable pub emulate_vcpu_halt : Run → Run
emulate_vcpu_halt r = record r { interruptibility = r.interruptibility / 4 * 4; status = ret_hlt }

unfoldable pub vmx_inject_bounce : Callees → Run → Run
vmx_inject_bounce c r =
    if not c.interrupt_allowed then record r { window_exiting = true } else record r {
      window_exiting = false;
      guest = c.slimvm_inject_vector r.guest;
      bounce_pending = false;
    }

-- How the switch ends: with `done`, `r` and the vcpu.
pub record Settled : Type 0 where
  pub done : Bool
  pub ret : Ret (Unit {0})
  pub run : Run

abbrev pub go_on : Run → Settled
go_on r = record { done = false; ret = ok tt; run = r }

abbrev pub leave : Run → Settled
leave r = record { done = true; ret = ok tt; run = r }

-- The case of a hypercall at privilege level 0, after the filters.
abbrev pub after_filter : Callees → Run → Ret (Unit {0}) × (ℕ → ℕ) → Settled
after_filter c r (ok _, regs) =
    let g = vmx_handle_syscall c.syscalls (record r.guest { regs = regs }) in go_on (set_guest r g)
after_filter c r (err e, regs) =
    let instp = (vmx_shutdown_all_vcpus c.cpu c.online r.vm.instp).0 in
    leave (record (set_regs r regs) { vm = record r.vm { instp = instp } })

abbrev pub after_violation : Ret (Unit {0}) × Run → Settled
after_violation (ok _, r) = go_on r
after_violation (err e, r) = record {
  done = true;
  ret = err e;
  run = set_status ret_internal_error r;
}

-- The switch `switch (reason)` in each of its cases.
unfoldable pub handle_reason : Callees → Exit → Run → Reason → Settled
unfolding vmx_handle_ept_violation vmx_handle_cpuid vmx_handle_nmi_exception emulate_vcpu_halt
    vmx_inject_bounce
handle_reason c x r vmcall =
    if x.cpl == 0
    then after_filter c r (do_seccomp_filter c.seccomp c.filters r.guest.regs)
    else go_on r
handle_reason c x r cpuid = go_on (set_guest r (vmx_handle_cpuid c r.guest))
handle_reason c x r ept_violation = after_violation (vmx_handle_ept_violation c.host x r)
handle_reason c x r ept_misconfig = leave (set_status ret_unhandled_vmexit r)
handle_reason c x r hlt = leave (emulate_vcpu_halt r)
handle_reason c x r exception_nmi = go_on (vmx_handle_nmi_exception c x r)
handle_reason c x r msr_write =
    let (fine, msrs) = vmx_handle_msr_write r.msrs r.guest.regs in
    if fine then go_on (record r { msrs = msrs }) else leave (set_status ret_msr_write r)
handle_reason c x r msr_read =
    let (fine, regs) = vmx_handle_msr_read r.msrs r.guest.regs in
    if fine then go_on (set_regs r regs) else leave r
handle_reason c x r xsetbv = go_on (record r { xcr0 = (handle_xsetbv r.guest.regs r.xcr0).1 })
handle_reason c x r interrupt_window =
    if r.bounce_pending
    then go_on (vmx_inject_bounce c r)
    else go_on (record r { window_exiting = false })
handle_reason c x r mce_during_vmentry = go_on r
handle_reason c x r external_interrupt = go_on r
handle_reason c x r (other failed_vmentry) =
    leave (set_status (if failed_vmentry then ret_fail_entry else ret_unhandled_vmexit) r)

-- An exit after the guest has run: the instruction is stepped over, and the switch. It is for a loop that comes to it
-- with `done` and `r` 0.
unfoldable pub vmx_handle_exit : Callees → Exit → Run → Settled
unfolding vmx_process_step_instructions handle_reason
vmx_handle_exit c x r =
    handle_reason c x (set_guest r (vmx_process_step_instructions x r.guest)) x.reason
