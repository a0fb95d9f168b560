-- ===== src/Svm/Enable.antt =====
-- SVM is switched on on all CPUs, and off again (svm.c): `svm_hardware_enable_all` with its error paths.
use slimvm.Base.{
  ℕ, ◌+◌, ◌-◌, Bool, true, false, not, ◌||◌, if◌then◌else◌, List, [], ◌∷◌, Ret, ok, err, eio,
  einval, enomem, ebusy,
}

-- A possible CPU: whether it is online, and whether the allocations for it succeed; then its state, with whether
-- `svm_cpu_data` holds the CPU's data and save area, `EFER_SVME`, whether `MSR_VM_HSAVE_PA` is set, and `svm_enabled`.
pub record OneCpu : Type 0 where
  pub online : Bool
  pub gives_data : Bool
  pub gives_page : Bool
  pub cpu_data : Bool
  pub svme : Bool
  pub hsave : Bool
  pub svm_enabled : Bool

-- The allocations of `svm_cpu_init`; what it writes into the data is in Asid.
unfoldable pub allocate_cpu_data : OneCpu → Bool × OneCpu
allocate_cpu_data c =
    if not c.gives_data
    then (false, c)
    else if not c.gives_page
    then (false, c)
    else (true, record c { cpu_data = true })

unfoldable pub svm_cpu_uninit : OneCpu → OneCpu
svm_cpu_uninit c = if not c.cpu_data then c else record c { cpu_data = false }

-- With `__svm_hardware_enable`. The result says whether it failed.
unfoldable pub svm_hardware_enable : OneCpu → Bool × OneCpu
svm_hardware_enable c =
    if not c.cpu_data
    then (true, c)
    else if c.svme
    then (true, c)
    else (false, record c { svme = true; hsave = true; svm_enabled = true })

unfoldable pub svm_hardware_disable : OneCpu → OneCpu
svm_hardware_disable c =
    if c.svm_enabled then record c { svme = false; hsave = false; svm_enabled = false } else c

-- `for_each_possible_cpu` until one fails
unfoldable pub allocate_all : List OneCpu → Bool × List OneCpu
unfolding allocate_cpu_data
allocate_all [] = (true, [])
allocate_all (c ∷ cs) =
    let (fine, c') = allocate_cpu_data c in
    let (rest, cs') = allocate_all cs in if not fine then (false, c' ∷ cs) else (rest, c' ∷ cs')

-- `on_each_cpu(svm_hardware_enable, NULL, 1)`, with whether one failed
unfoldable pub enable_all : List OneCpu → Bool × List OneCpu
unfolding svm_hardware_enable
enable_all [] = (false, [])
enable_all (c ∷ cs) =
    let (failed, c') = svm_hardware_enable c in
    let (rest, cs') = enable_all cs in
    if c.online then (failed || rest, c' ∷ cs') else (rest, c ∷ cs')

unfoldable pub disable_all : List OneCpu → List OneCpu
unfolding svm_hardware_disable
disable_all [] = []
disable_all (c ∷ cs) = (if c.online then svm_hardware_disable c else c) ∷ disable_all cs

unfoldable pub uninit_all : List OneCpu → List OneCpu
unfolding svm_cpu_uninit
uninit_all [] = []
uninit_all (c ∷ cs) = svm_cpu_uninit c ∷ uninit_all cs

-- The answers of the kernel: whether each step before the CPUs succeeds.
pub record Kernel : Type 0 where
  pub cpu_has_svm : Bool
  pub has_npt : Bool
  pub exc_nmi : Bool
  pub svm_init_syscall : Bool
  pub exceptions_init : Bool
  pub setup_vmcb_config : Bool
  pub gives_msr_bitmap : Bool
  pub gives_io_bitmap : Bool

-- The CPUs, and the numbers of live allocations of the two bitmaps.
pub record Machine : Type 0 where
  pub cpus : List OneCpu
  pub msr_bitmaps : ℕ
  pub io_bitmaps : ℕ

-- The label `failed`
unfoldable pub fail_all : Machine → Machine
unfolding disable_all uninit_all
fail_all m = record {
  cpus = uninit_all (disable_all m.cpus);
  msr_bitmaps = m.msr_bitmaps - 1;
  io_bitmaps = m.io_bitmaps - 1;
}

abbrev pub after_enable : Machine → Bool × List OneCpu → Ret (Unit {0}) × Machine
after_enable m (true, cs) = (err ebusy, fail_all (record m { cpus = cs }))
after_enable m (false, cs) = (ok tt, record m { cpus = cs })

abbrev pub after_allocate : Machine → Bool × List OneCpu → Ret (Unit {0}) × Machine
after_allocate m (true, cs) = after_enable m (enable_all cs)
after_allocate m (false, cs) = (err enomem, fail_all (record m { cpus = cs }))

unfoldable pub svm_hardware_enable_all : Kernel → Machine → Ret (Unit {0}) × Machine
unfolding fail_all allocate_all enable_all
svm_hardware_enable_all k m =
    let m₁ = record m { msr_bitmaps = m.msr_bitmaps + 1 } in
    let m₂ = record m₁ { io_bitmaps = m.io_bitmaps + 1 } in
    if not k.cpu_has_svm
    then (err eio, m)
    else if not k.has_npt
    then (err eio, m)
    else if not k.exc_nmi
    then (err einval, m)
    else if not k.svm_init_syscall
    then (err einval, m)
    else if not k.exceptions_init
    then (err einval, m)
    else if not k.setup_vmcb_config
    then (err eio, m)
    else if not k.gives_msr_bitmap
    then (err enomem, m)
    else if not k.gives_io_bitmap
    then (err enomem, record m₁ { msr_bitmaps = m₁.msr_bitmaps - 1 })
    else after_allocate m₂ (allocate_all m.cpus)

unfoldable pub svm_hardware_disable_all : Machine → Machine
unfolding disable_all uninit_all
svm_hardware_disable_all m = record {
  cpus = uninit_all (disable_all m.cpus);
  msr_bitmaps = m.msr_bitmaps - 1;
  io_bitmaps = m.io_bitmaps - 1;
}
