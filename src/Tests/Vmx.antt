-- ===== src/Tests/Vmx.antt =====
-- Runs of the VMX engine.
use slimvm.Base.{
  ℕ, ◌+◌, ◌*◌, ◌≡◌, ◌↔◌, refl, Bool, true, false, none, some, List, [], ◌∷◌, arith, if◌then◌else◌,
  ◌==◌, ◌^◌,
}
use slimvm.State.{Vcpu, Instance, in_guest_mode, outside_guest_mode}
use slimvm.Seccomp.{rax, rdx}
use slimvm.Vmx.Guard.{System, Steps, outside}
use slimvm.Vmx.Missed.{IsQuiet, IsMissed, Steps-IsMissed_iff}
use slimvm.Vmx.Syscall.{Guest, Handled, neg, vmx_handle_syscall, vmx_handle_syscall-Handled}
use slimvm.Vmx.Msr.{
  MsrEntry, ReadsBack, rcx, low32, find_msr_entry, vmx_handle_msr_write,
  vmx_handle_msr_read-vmx_handle_msr_write,
}
use slimvm.Vmx.Xsetbv.{IsXcr0, handle_xsetbv, handle_xsetbv_iff}
use slimvm.Vmx.Create.{Machine, vmx_create_vcpu}
use slimvm.Vmx.Created.{Created, vmx_create_vcpu-Created}
use slimvm.Vmx.Shutdown.{Look, vmx_shutdown_all_vcpus, prepare_enter_guestmode}
use slimvm.Vmx.Stop.{Shut, vmx_shutdown_all_vcpus-Shut}
use slimvm.Vmx.Exit.{Exit, Run, Callees, hlt, vmx_handle_exit}
use slimvm.Vmx.Settled.{IsSettled}
use slimvm.Vmx.Dispatch.{at_switch, vmx_handle_exit-IsSettled}
use slimvm.Vm.{pinned}
use slimvm.Tests.Data.{vcpu, guest, vm_of, empty_mem, page, cpu}
use slimvm.Tests.Tables.{find, find-IsFindFirstZero}

-- A vcpu before it enters the guest.
abbrev before : System
before = record {
  vcpu = record vcpu { cpu = some 3; mode = outside_guest_mode };
  stores = [];
  place = outside;
  remote = false;
  ipi = false;
  stale = false;
}

before-IsQuiet : IsQuiet before
before-IsQuiet = record {
  at = refl;
  mode = refl;
  no_flush = refl;
  no_nmi = refl;
  no_stores = refl;
  not_remote = refl;
  no_ipi = refl;
  fresh = refl;
}

Steps-IsMissed_iff_example :
    ((t : System) → Steps true before t → ¬ IsMissed t) ↔ ◌≡◌ {A = Bool} true true
Steps-IsMissed_iff_example = Steps-IsMissed_iff true before before-IsQuiet

-- A call that a signal interrupted: the host's table answers every call with `-ERESTARTSYS`.
abbrev restarting : slimvm.Vmx.Syscall.Kernel
restarting = record { nr_syscalls = 450; syscall_table = λ nr regs. neg 512; signal_pending = true }

abbrev reading : Guest
reading = record { regs = λ r. 0; rip = 0x1003 }

vmx_handle_syscall-Handled_example : Handled reading (vmx_handle_syscall restarting reading)
vmx_handle_syscall-Handled_example = vmx_handle_syscall-Handled restarting reading (ground arith)

abbrev lstar : MsrEntry
lstar = record { index = 0xc0000082; data_ = 0 }

abbrev writing_lstar : ℕ → ℕ
writing_lstar r = if r == rcx then 0xc0000082 else if r == rdx then 0xffffffff else 0x81000000

lstar-found : find_msr_entry (lstar ∷ []) (low32 (writing_lstar rcx)) ≡ some lstar
unfolding find_msr_entry
lstar-found = refl

vmx_handle_msr_read-vmx_handle_msr_write_example :
    ((vmx_handle_msr_write (lstar ∷ []) writing_lstar).0 ≡ true)
    × ReadsBack (lstar ∷ []) (vmx_handle_msr_write (lstar ∷ []) writing_lstar).1 writing_lstar
vmx_handle_msr_read-vmx_handle_msr_write_example =
    vmx_handle_msr_read-vmx_handle_msr_write (lstar ∷ []) writing_lstar lstar lstar-found

-- The guest asks for x87, SSE and AVX.
abbrev with_avx : ℕ → ℕ
with_avx r = if r == rax then 7 else 0

handle_xsetbv_iff_example :
    (((handle_xsetbv with_avx 1).0 ≡ true) ↔ (
      (low32 (with_avx rcx) ≡ 0) × IsXcr0 (low32 (with_avx rax) + low32 (with_avx rdx) * 2 ^ 32)))
    × ((handle_xsetbv with_avx 1).1 ≡ (
        if (handle_xsetbv with_avx 1).0
        then low32 (with_avx rax) + low32 (with_avx rdx) * 2 ^ 32
        else 1))
handle_xsetbv_iff_example = handle_xsetbv_iff with_avx 1

-- A machine whose vpid 0 is reserved, and a kernel that has memory but refuses the initial state.
abbrev machine : Machine
machine = record {
  vmx_vpid_bitmap = λ i. i == 0;
  vcpus = 0;
  vmcs = 0;
  guest_msrs = 0;
  host_msrs = 0;
  vmx_local_vcpu = none;
}

abbrev refusing : slimvm.Vmx.Create.Kernel
refusing = record {
  vcpu = true;
  vmcs = true;
  guest_msrs = true;
  host_msrs = true;
  initial_guest_state = false;
  find_first_zero_bit = find;
}

vmx_create_vcpu-Created_example : Created machine (vmx_create_vcpu refusing 64 0 machine)
vmx_create_vcpu-Created_example =
    vmx_create_vcpu-Created refusing 64 0 machine find-IsFindFirstZero refl

-- An instance with one vcpu, in guest mode on another CPU.
abbrev running : Vcpu
running = record vcpu { cpu = some 3; mode = in_guest_mode }

abbrev with_vcpu : Instance
with_vcpu = record guest {
  vcpu_bitmap = λ i. i == 1;
  vcpus = λ i. if i == 1 then some running else none;
}

abbrev looks : List Look
looks = record { sigpending = false; fatal = false; handler = false } ∷ []

vmx_shutdown_all_vcpus-Shut_example :
    ((vmx_shutdown_all_vcpus cpu (0 ∷ 3 ∷ []) with_vcpu).0.shutdown ≡ true)
    × Shut cpu
        (0 ∷ 3 ∷ [])
        1
        running
        (vmx_shutdown_all_vcpus cpu (0 ∷ 3 ∷ []) with_vcpu).0.vcpus
        (vmx_shutdown_all_vcpus cpu (0 ∷ 3 ∷ []) with_vcpu).1
    × (prepare_enter_guestmode running (vmx_shutdown_all_vcpus cpu (0 ∷ 3 ∷ []) with_vcpu).0 looks 5
        ≡ (false, 5))
vmx_shutdown_all_vcpus-Shut_example =
    vmx_shutdown_all_vcpus-Shut cpu (0 ∷ 3 ∷ []) with_vcpu 1 running running looks 5 (ground arith)
      refl refl

abbrev callees : Callees
callees = record {
  host = record {
    get_user_pages_fast = λ hva. some page;
    get_user_pages = λ w hva. pinned page;
    find_vma = λ hva. none;
    ad_bits = true;
  };
  cpu = cpu;
  online = 0 ∷ 3 ∷ [];
  syscalls = restarting;
  seccomp = record { nr_syscalls = 450; nr_restart_syscall = 219; arch = 0 };
  filters = [];
  native_cpuid = λ a c. (0, 0, 0, 0);
  slimvm_exception_handler = λ i g. g;
  slimvm_inject_vector = λ g. g;
  interrupt_allowed = true;
}

abbrev halting : Exit
halting = record {
  reason = hlt;
  qualification = 0;
  gpa = 0;
  intr_info = 0;
  instruction_len = 1;
  cpl = 0;
}

abbrev first_run : Run
first_run = record {
  guest = reading;
  msrs = lstar ∷ [];
  xcr0 = 1;
  status = 0;
  bounce_pending = false;
  interruptibility = 0;
  window_exiting = false;
  vm = vm_of empty_mem;
}

vmx_handle_exit-IsSettled_example :
    IsSettled callees halting hlt
      (at_switch halting first_run)
      (vmx_handle_exit callees halting first_run)
vmx_handle_exit-IsSettled_example = vmx_handle_exit-IsSettled callees halting first_run
