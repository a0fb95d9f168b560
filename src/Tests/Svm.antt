-- ===== src/Tests/Svm.antt =====
-- Runs of the SVM engine.
use slimvm.Svm.Events.{Events}
use slimvm.Svm.Exit.{Callees, Exit, SvmRun, vmmcall, svm_handle_exit}
use slimvm.Svm.Settled.{IsSettled}
use slimvm.Svm.Dispatch.{at_switch, svm_handle_exit-IsSettled}
use slimvm.Svm.Enable.{OneCpu, Machine, svm_hardware_enable_all}
use slimvm.Svm.Undone.{IsIdle}
use slimvm.Svm.Enabled.{Settled, svm_hardware_enable_all-Settled}
use slimvm.Vm.{pinned}
use slimvm.Tests.Data.{vm_of, empty_mem, page, cpu}
use slimvm.Tests.Npt.{kernel}
use slimvm.Base.{none, ◌∷◌, [], ◌*◌, ◌^◌, ℕ, ◌+◌, ◌≡◌, refl, false, true, some, update, arith}
use slimvm.Svm.Asid.{
  CpuData, SvmVcpu, System, do_nothing, flush_asid, svm_update_asid, start, also, load, run,
  request, svm_cpu_init, svm_create_vcpu, load_vcpu, svm_vcpu_flush_tlb, before_entry, after_exit,
}
use slimvm.Svm.Isolated.{IsFresh, IsIsolated, Steps-IsIsolated}

-- A machine with 8 identifiers, of which 2 are reserved.
abbrev fresh : System
fresh = record {
  cpus = λ c. svm_cpu_init 8 2;
  vcpus = λ i. svm_create_vcpu;
  caches = λ c a j. false;
}

fresh-IsFresh : IsFresh fresh
unfolding svm_cpu_init
fresh-IsFresh = record {
  nasid = 8;
  max_sev_asid = 2;
  narrow = omega arith;
  room = omega arith;
  cpus = λ c. refl;
  vcpus = λ i. refl;
  caches = λ c a j h. absurd (cc h);
}

-- Vcpu 1 has run on CPU 0, and vcpu 2 has been loaded there and asked to flush.
abbrev ran : SvmVcpu
ran = record { cpu = some 0; asid_generation = 2; asid = 3; control_asid = 3; tlb_ctl = do_nothing }

abbrev asked : SvmVcpu
asked = record svm_create_vcpu { cpu = some 0; tlb_ctl = flush_asid }

abbrev used : CpuData
used = record { asid_generation = 2; max_asid = 7; next_asid = 4; min_asid = 3 }

abbrev after_run : System
after_run = record {
  cpus = update fresh.cpus 0 used;
  vcpus =
      update
        (update
          (update
            (update fresh.vcpus 1 (record ran { asid_generation = 0; asid = 0; control_asid = 0 }))
            1 ran)
          2 (record asked { tlb_ctl = do_nothing }))
        2 asked;
  caches = update fresh.caches 0 (update (λ a j. false) 3 (update (λ j. false) 1 true));
}

Steps-IsIsolated_example :
    IsIsolated used asked 2 (update (λ a j. false) 3 (update (λ j. false) 1 true))
unfolding svm_cpu_init load_vcpu svm_vcpu_flush_tlb before_entry svm_update_asid after_exit
Steps-IsIsolated_example =
    Steps-IsIsolated 4 fresh after_run 2 0 fresh-IsFresh
      (also
        (also (also (also (start refl refl) (load 1 0) refl) (run 1 0 refl) refl) (load 2 0) refl)
        (request 2) refl)
      (omega arith) refl

-- A guest with interrupts enabled, and an exit that interrupted a page fault's delivery.
abbrev quiet : Events
quiet = record {
  event_inj = 0;
  event_inj_err = 0;
  rip = 0x1000;
  next_rip = 0x1003;
  rflags = 2 ^ 9;
  int_state = 0;
  bounce_pending = false;
  nmi_pending = false;
  nmi_masked = false;
  intercept_iret = false;
  intercept_vintr = false;
  int_vector = 0;
  v_irq = false;
  v_intr_prio = 0;
}

abbrev page_fault : ℕ
page_fault = 2 ^ 31 + 2 ^ 11 + 3 * 2 ^ 8 + 14

abbrev bounced : Events
bounced = record quiet { bounce_pending = true }

abbrev svm_callees : Callees
svm_callees = record {
  host = record {
    get_user_pages_fast = λ hva. some page;
    get_user_pages = λ w hva. pinned page;
    find_vma = λ hva. none;
    ad_bits = true;
  };
  npt = kernel;
  cpu = cpu;
  online = 0 ∷ 3 ∷ [];
  syscalls = record { nr_syscalls = 450; syscall_table = λ n regs. 0; signal_pending = false };
  seccomp = record { nr_syscalls = 450; nr_restart_syscall = 219; arch = 0 };
  filters = [];
  native_cpuid = λ a c. (0, 0, 0, 0);
}

-- A hypercall that the guest makes at privilege level 0.
abbrev calling : Exit
calling = record {
  reason = vmmcall;
  exit_info_1 = 0;
  exit_info_2 = 0;
  exit_int_info = 0;
  exit_int_info_err = 0;
  cpl = 0;
}

abbrev first_run : SvmRun
first_run = record {
  regs = λ r. 0;
  events = quiet;
  save = record { star = 0; lstar = 0; cstar = 0; sfmask = 0; kernel_gs_base = 0 };
  xcr0 = 1;
  status = 0;
  vm = vm_of empty_mem;
}

svm_handle_exit-IsSettled_example :
    IsSettled svm_callees calling vmmcall
      (at_switch calling first_run)
      (svm_handle_exit svm_callees calling first_run)
    × ((at_switch calling first_run).status ≡ 0)
svm_handle_exit-IsSettled_example = svm_handle_exit-IsSettled svm_callees calling first_run

-- Two CPUs, of which the second has SVM in use by someone else.
abbrev one_cpu : OneCpu
one_cpu = record {
  online = true;
  gives_data = true;
  gives_page = true;
  cpu_data = false;
  svme = false;
  hsave = false;
  svm_enabled = false;
}

abbrev two_cpus : Machine
two_cpus = record {
  cpus = one_cpu ∷ record one_cpu { svme = true; hsave = true } ∷ [];
  msr_bitmaps = 0;
  io_bitmaps = 0;
}

abbrev willing : slimvm.Svm.Enable.Kernel
willing = record {
  cpu_has_svm = true;
  has_npt = true;
  exc_nmi = true;
  svm_init_syscall = true;
  exceptions_init = true;
  setup_vmcb_config = true;
  gives_msr_bitmap = true;
  gives_io_bitmap = true;
}

one_cpu-IsIdle : IsIdle one_cpu
one_cpu-IsIdle = record { no_data = refl; no_hsave = λ h. refl; not_enabled = refl }

used_cpu-IsIdle : IsIdle (record one_cpu { svme = true; hsave = true })
used_cpu-IsIdle = record { no_data = refl; no_hsave = λ h. absurd (cc h); not_enabled = refl }

svm_hardware_enable_all-Settled_example :
    Settled two_cpus (svm_hardware_enable_all willing two_cpus)
svm_hardware_enable_all-Settled_example =
    svm_hardware_enable_all-Settled willing two_cpus (one_cpu-IsIdle, (used_cpu-IsIdle, tt))
