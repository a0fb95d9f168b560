-- ===== src/State.antt =====
-- The state that the components share: `struct instance` of instance.h with the memory regions of
-- mm.h, and of a vcpu (vmx.h, svm.h) the fields that other components read or write.
use slimvm.Base.{ℕ, Bool, Option, List}

-- `VM_MAX_VCPUS` and `MAX_MEM_REGION_NUM`.
abbrev pub vm_max_vcpus : ℕ
vm_max_vcpus = 0x800

abbrev pub max_mem_region_num : ℕ
max_mem_region_num = 50

-- `struct mem_region`
pub record MemRegion : Type 0 where
  pub hva : ℕ
  pub gpa : ℕ
  pub size : ℕ

-- The states of `vcpu->mode` in engine.h.
pub data Mode : Type 0 where
  outside_root_mode in_root_mode outside_guest_mode in_guest_mode exiting_guest_mode : Mode

-- The request bits of engine.h that are raised in this development's components.
pub record Requests : Type 0 where
  pub tlb_flush : Bool
  pub nmi : Bool

-- `cpu` is `none` for the source's -1.
pub record Vcpu : Type 0 where
  pub cpu : Option ℕ
  pub mode : Mode
  pub requests : Requests
  pub is_shutdown : Bool
  pub nmi_pending : Bool

-- `id` is `none` for the source's -1. `mmu_notifier` says whether `mmu_notifier.ops` is set.
pub record Instance : Type 0 where
  pub id : Option ℕ
  pub sid : ℕ
  pub mmu_notifier : Bool
  pub ept_root : ℕ
  pub eptp : ℕ
  pub npt_mmu_users : ℕ
  pub memp : List MemRegion
  pub mm : Option ℕ
  pub mem_region_num : ℕ
  pub ept_4k_pages : ℕ
  pub ept_2m_pages : ℕ
  pub ept_invl_count : ℕ
  pub ept_invl_range : ℕ
  pub ept_invl_ipi : ℕ
  pub mmu_notifier_seq : ℕ
  pub mmu_notifier_count : ℕ
  pub shutdown : Bool
  pub force_release : Bool
  pub running_vcpus : ℕ
  pub sandbox_tsk : Option ℕ
  pub sandbox_pid : ℕ
  pub vcpu_bitmap : ℕ → Bool
  pub vcpus : ℕ → Option Vcpu
