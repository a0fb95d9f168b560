-- ===== src/Svm/Asid.antt =====
-- The address space identifiers of the vcpus (svm.c). A processor tags the translations that it caches by the
-- identifier of the vcpu that runs; each CPU gives out its own identifiers, and starts again with a flush of all
-- of them when they are used up. Steps has what the CPUs do with the vcpus, in any order; a vcpu runs on the CPU
-- that it was last loaded on. The clean bits of the VMCB are not modelled.
use slimvm.Base.{
  ℕ, ◌+◌, ◌-◌, ◌%◌, ◌^◌, ◌≡◌, Bool, true, false, Option, none, some, ltb, if◌then◌else◌, ◌==◌,
  update, add64, inc32,
}

-- `struct svm_cpu_data`, without the pages of the host
pub record CpuData : Type 0 where
  pub asid_generation : ℕ
  pub max_asid : ℕ
  pub next_asid : ℕ
  pub min_asid : ℕ

-- `control->tlb_ctl`, by the values of it that the code writes
pub data TlbCtl : Type 0 where
  do_nothing flush_asid flush_all_asid : TlbCtl

-- Of `struct svm_vcpu` and its VMCB what the identifiers need; a `cpu` of -1 is `none`.
pub record SvmVcpu : Type 0 where
  pub cpu : Option ℕ
  pub asid_generation : ℕ
  pub asid : ℕ
  pub control_asid : ℕ
  pub tlb_ctl : TlbCtl

-- `svm_cpu_init`, from the two answers of `cpuid`
unfoldable pub svm_cpu_init : ℕ → ℕ → CpuData
svm_cpu_init nasid max_sev_asid =
    let max_asid = (nasid + 2 ^ 32 - 1) % 2 ^ 32 in
    record {
      asid_generation = 1;
      max_asid = max_asid;
      next_asid = inc32 max_asid;
      min_asid = inc32 max_sev_asid;
    }

-- `svm_create_vcpu`; the VMCB is a cleared page.
abbrev pub svm_create_vcpu : SvmVcpu
svm_create_vcpu = record {
  cpu = none;
  asid_generation = 0;
  asid = 0;
  control_asid = 0;
  tlb_ctl = do_nothing;
}

abbrev pub is_on : Option ℕ → ℕ → Bool
is_on none cpu = false
is_on (some c) cpu = c == cpu

unfoldable pub load_vcpu : SvmVcpu → ℕ → SvmVcpu
load_vcpu svm cpu =
    if is_on svm.cpu cpu then svm else record svm { asid_generation = 0; cpu = some cpu }

unfoldable pub svm_vcpu_flush_tlb : SvmVcpu → SvmVcpu
svm_vcpu_flush_tlb svm = record svm { tlb_ctl = flush_asid }

-- The last two lines of `svm_update_asid`
abbrev pub take_asid : CpuData → SvmVcpu → CpuData × SvmVcpu
take_asid sd svm = (
  record sd { next_asid = inc32 sd.next_asid },
  record svm { asid_generation = sd.asid_generation; asid = sd.next_asid },
)

-- The branch of `svm_update_asid` in which the identifiers are used up
abbrev pub bump : CpuData → CpuData
bump sd = record sd { asid_generation = add64 sd.asid_generation 1; next_asid = sd.min_asid }

unfoldable pub svm_update_asid : CpuData → SvmVcpu → CpuData × SvmVcpu
svm_update_asid sd svm =
    if svm.asid_generation == sd.asid_generation
    then (sd, svm)
    else if ltb sd.max_asid sd.next_asid
    then take_asid (bump sd) (record svm { tlb_ctl = flush_all_asid })
    else take_asid sd svm

-- `svm_run_vcpu` up to the entry into the guest
unfoldable pub before_entry : CpuData → SvmVcpu → CpuData × SvmVcpu
unfolding svm_update_asid
before_entry sd svm =
    let (sd', svm') = svm_update_asid sd svm in (sd', record svm' { control_asid = svm'.asid })

-- `svm_run_vcpu` after the exit
unfoldable pub after_exit : SvmVcpu → SvmVcpu
after_exit svm = record svm { tlb_ctl = do_nothing }

-- The cached translations of a CPU, for each identifier by the vcpus whose translations they are; and what the
-- entry into the guest leaves of them.
abbrev pub Cache : Type 0
Cache = ℕ → ℕ → Bool

abbrev pub flush : TlbCtl → ℕ → Cache → Cache
flush do_nothing asid cached = cached
flush flush_asid asid cached = update cached asid (λ owner. false)
flush flush_all_asid asid cached = λ a owner. false

-- What vcpu `i` finds when it enters the guest, and what it leaves.
abbrev pub seen : SvmVcpu → Cache → Cache
seen svm cached = flush svm.tlb_ctl svm.control_asid cached

abbrev pub filled : SvmVcpu → ℕ → Cache → Cache
filled svm i cached =
    let left = seen svm cached in
    update left svm.control_asid (update (left svm.control_asid) i true)

-- The CPUs, the vcpus (each under a number of its own for good), and what the CPUs have cached.
pub record System : Type 0 where
  pub cpus : ℕ → CpuData
  pub vcpus : ℕ → SvmVcpu
  pub caches : ℕ → Cache

-- `load` is `svm_load_vcpu` or `svm_sched_in` on CPU `c`, `request` a flush that is asked for, and `run` an entry into
-- the guest with its exit.
pub data Step (s : System) : System → Type 0 where
  load : (i c : ℕ) → Step s (record s { vcpus = update s.vcpus i (load_vcpu (s.vcpus i) c) })
  request :
      (i : ℕ) → Step s (record s { vcpus = update s.vcpus i (svm_vcpu_flush_tlb (s.vcpus i)) })
  run :
      (i c : ℕ)
      → (s.vcpus i).cpu ≡ some c
      → Step s (record {
        cpus = update s.cpus c (before_entry (s.cpus c) (s.vcpus i)).0;
        vcpus = update s.vcpus i (after_exit (before_entry (s.cpus c) (s.vcpus i)).1);
        caches = update s.caches c (filled (before_entry (s.cpus c) (s.vcpus i)).1 i (s.caches c));
      })

-- With the number of steps.
pub data Steps (s : System) : ℕ → System → Type 0 where
  start : {n : ℕ} {t : System} → n ≡ 0 → t ≡ s → Steps s n t
  also : {n m : ℕ} {t u : System} → Steps s n t → Step t u → m ≡ n + 1 → Steps s m u
