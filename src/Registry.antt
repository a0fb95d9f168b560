-- ===== src/Registry.antt =====
-- instance.c: the table of all instances. An instance is named by its address; `heap` holds the instances
-- that have been allocated and not freed, and a pointer to any other address dangles.
pub mod Users
pub mod Create
pub mod Release
pub mod Emptied
pub mod Reclaim
pub mod Marked
pub mod Reclaimed
use slimvm.Base.{
  ℕ, zero, suc, ◌+◌, ◌-◌, Bool, true, false, not, if◌then◌else◌, ltb, leb, ◌==◌, Option, none, some,
  List, [], ◌∷◌, is_some, update, Ret, ok, err, enomem,
}
use slimvm.State.{MemRegion, Instance, Vcpu, vm_max_vcpus, max_mem_region_num}
use slimvm.Engine.{Engine}
use slimvm.VcpuTable.{vcpu_release}

-- `INSTANCES_MAX_NUM`
abbrev pub instances_max_num : ℕ
instances_max_num = 8192

-- The globals of instance.c, the reference counts of address spaces, and how often
-- `preempt_notifier_inc` has been called more than `preempt_notifier_dec`.
pub record Registry : Type 0 where
  pub instances_bitmap : ℕ → Bool
  pub instances_list : List ℕ
  pub heap : ℕ → Option Instance
  pub mm_count : ℕ → ℕ
  pub preempt_notifiers : ℕ

abbrev pub zero_regions : ℕ → List MemRegion
zero_regions zero = []
zero_regions (suc n) = record { hva = 0; gpa = 0; size = 0 } ∷ zero_regions n

-- What `vzalloc` gives. The id is then 0.
abbrev pub zero_instance : Instance
zero_instance = record {
  id = some 0;
  sid = 0;
  mmu_notifier = false;
  ept_root = 0;
  eptp = 0;
  npt_mmu_users = 0;
  memp = [];
  mm = none;
  mem_region_num = 0;
  ept_4k_pages = 0;
  ept_2m_pages = 0;
  ept_invl_count = 0;
  ept_invl_range = 0;
  ept_invl_ipi = 0;
  mmu_notifier_seq = 0;
  mmu_notifier_count = 0;
  shutdown = false;
  force_release = false;
  running_vcpus = 0;
  sandbox_tsk = none;
  sandbox_pid = 0;
  vcpu_bitmap = λ i. false;
  vcpus = λ i. none;
}

abbrev pub store : ℕ → Instance → Registry → Registry
store p instp st = record st { heap = update st.heap p (some instp) }

abbrev pub vfree : ℕ → Registry → Registry
vfree p st = record st { heap = update st.heap p none }

-- `find` is `find_first_zero_bit`.
unfoldable pub alloc_inst_id :
    ((ℕ → Bool) → ℕ → ℕ) → ℕ → Instance → Registry → Bool × Instance × Registry
alloc_inst_id find p instp st =
    let i = find st.instances_bitmap instances_max_num in
    if ltb i instances_max_num
    then (
      true,
      record instp { id = some i },
      record st {
        instances_bitmap = update st.instances_bitmap i true;
        instances_list = p ∷ st.instances_list;
      },
    )
    else (false, instp, st)

abbrev pub list_del : ℕ → List ℕ → List ℕ
list_del p [] = []
list_del p (q ∷ qs) = let rest = list_del p qs in if q == p then qs else q ∷ rest

-- `none` is an id below 0.
unfoldable pub free_inst_id : ℕ → Option ℕ → Registry → Registry
free_inst_id p none st = st
free_inst_id p (some i) st = if leb instances_max_num i then st else record st {
  instances_bitmap = update st.instances_bitmap i false;
  instances_list = list_del p st.instances_list;
}

-- `instance_create` from the call of the engine on: the labels `id_err` and after it free the instance.
unfoldable pub create_ptp :
    {Config : Type 0} → Engine Config → ℕ → Instance → Registry → Ret ℕ × Registry
create_ptp ops p instp st =
    let (failed, made) =
      ops.instance_alloc_ptp (record instp { mmu_notifier_seq = 0; mmu_notifier_count = 0 }) in
    if failed
    then (err enomem, vfree p (store p made st))
    else (ok p, record (store p made st) { preempt_notifiers = st.preempt_notifiers + 1 })

-- The part with an id or without.
unfoldable pub create_id :
    {Config : Type 0} → Engine Config → ℕ → Bool × Instance × Registry → Ret ℕ × Registry
unfolding create_ptp
create_id ops p (given, instp, st) =
    if given then create_ptp ops p instp (store p instp st) else (err enomem, vfree p st)

-- `address` is what `vzalloc` answers and `memp_given` whether `kzalloc` gives the regions.
unfoldable pub instance_create :
    {Config : Type 0}
    → ((ℕ → Bool) → ℕ → ℕ)
    → Engine Config
    → Option ℕ
    → Bool
    → Registry
    → Ret ℕ × Registry
unfolding alloc_inst_id create_id
instance_create find ops none memp_given st = (err enomem, st)
instance_create find ops (some p) memp_given st =
    let instp = record zero_instance { memp = zero_regions max_mem_region_num; id = none } in
    if memp_given
    then create_id ops p (alloc_inst_id find p instp (store p instp st))
    else (err enomem, vfree p (store p zero_instance st))

-- `for_each_set_bit` over the `k` numbers from `i` on, with the vcpus destroyed.
unfoldable pub release_round : ℕ → Instance × List Vcpu → Instance × List Vcpu
unfolding vcpu_release
release_round i (instp, destroyed) =
    if instp.vcpu_bitmap i
    then (let (released, vcpu) = vcpu_release instp i in
        (released, (elim vcpu [ none ↦ destroyed | some v ↦ v ∷ destroyed ])))
    else (instp, destroyed)

unfoldable pub release_vcpus : ℕ → ℕ → Instance × List Vcpu → Instance × List Vcpu
unfolding release_round
release_vcpus zero i st = st
release_vcpus (suc k) i st = release_vcpus k (i + 1) (release_round i st)

abbrev pub mmdrop : Option ℕ → Registry → Registry
mmdrop none st = st
mmdrop (some mm) st = record st { mm_count = update st.mm_count mm (st.mm_count mm - 1) }

-- What becomes of the instance itself, before it is taken off the table.
unfoldable pub wind_down : {Config : Type 0} → Engine Config → Instance → Instance × List Vcpu
unfolding release_vcpus
wind_down ops instp =
    let stopped = ops.shutdown_all_vcpus instp in
    let synced = if stopped.force_release then stopped else ops.sync_all_vcpus stopped in
    let (emptied, destroyed) = release_vcpus vm_max_vcpus 0 (synced, []) in
    (ops.instance_destroy_pt emptied, destroyed)

-- The table after it, and the vcpus destroyed, the last first. `instp` is the instance at `p`.
unfoldable pub instance_release :
    {Config : Type 0} → Engine Config → ℕ → Instance → Registry → Registry × List Vcpu
unfolding wind_down free_inst_id
instance_release ops p instp st =
    let (wound, destroyed) = wind_down ops instp in
    let freed = vfree p (free_inst_id p wound.id (mmdrop wound.mm st)) in
    (record freed { preempt_notifiers = freed.preempt_notifiers - 1 }, destroyed)
