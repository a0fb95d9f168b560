-- ===== src/Tests/Tables.antt =====
-- Runs of the tables of vcpus and of instances.
use slimvm.Base.{
  Option, ℕ, zero, suc, ◌+◌, ◌%◌, ◌^◌, ◌≤◌, ◌<◌, ◌≡◌, ◌↔◌, ◌⊎◌, inl, inr, refl, Bool, true, false,
  none, some, [], ◌∷◌, arith, Bool-cases, if◌then◌else◌, ◌==◌, update, ok, err, enomem,
}
use slimvm.State.{Instance, vm_max_vcpus}
use slimvm.Engine.{IsFindFirstZero}
use slimvm.VcpuTable.{
  vcpu_alloc, vcpu_allocate_vcpu_no, vcpu_alloc_with, vcpu_alloc_at, adopt_mm, install_vcpu,
}
use slimvm.VcpuTable.Alloc.{Added, Kept, taken, vcpu_alloc-Added, vcpu_alloc-Kept}
use slimvm.VcpuTable.Interleaving.{World, reserve, Steps, start, continued, IsTable, Steps-IsTable}
use slimvm.Registry.{
  Registry, instance_create, instance_release, alloc_inst_id, create_id, create_ptp,
}
use slimvm.Registry.Users.{IsRegistry}
use slimvm.Registry.Create.{Created, instance_create-Created, instance_create-dangling}
use slimvm.Registry.Release.{Released, instance_release-Released}
use slimvm.Registry.Reclaim.{slimvm_reclaim_leaked_instances}
use slimvm.Registry.Users.{IsIn}
use slimvm.Registry.Reclaimed.{IsPut, HasExited, slimvm_reclaim_leaked_instances-HasExited}
use slimvm.Init.{Answers, Module, intel, slimvm_init}
use slimvm.Init.Unwinding.{Leaves, slimvm_init-Leaves}
use slimvm.Tests.Data.{engine, failing_engine, vcpu, guest}

-- The search written out.
abbrev first_zero : (ℕ → Bool) → ℕ → ℕ → ℕ
first_zero bits zero i = i
first_zero bits (suc k) i = let rest = first_zero bits k (i + 1) in if bits i then rest else i

first_zero-clear :
    (bits : ℕ → Bool) (k i : ℕ) → first_zero bits k i < i + k → bits (first_zero bits k i) ≡ false
first_zero-clear bits zero i h = absurd (omega arith)
first_zero-clear bits (suc k) i h = elim (Bool-cases (bits i)) [
  | inl e ↦ rw e (first_zero-clear bits k (i + 1) (omega (arith, rw e at h)))
  | inr e ↦ rw e e
]

first_zero-below : (bits : ℕ → Bool) (k i j : ℕ) → i ≤ j → j < first_zero bits k i → bits j ≡ true
first_zero-below bits zero i j l h = absurd (omega arith)
first_zero-below bits (suc k) i j l h = elim (Bool-cases (bits i)) [
  | inl e ↦ elim (Bool-cases (i == j)) [
    | inl s ↦ ground arith
    | inr s ↦ first_zero-below bits k (i + 1) j (ground arith) (rw e at h)
  ]
  | inr e ↦ absurd (omega (arith, rw e at h))
]

abbrev pub find : (ℕ → Bool) → ℕ → ℕ
find bits size = first_zero bits size 0

pub find-IsFindFirstZero : IsFindFirstZero find
find-IsFindFirstZero = record {
  clear = λ bits size h. first_zero-clear bits size 0 (omega arith);
  below = λ bits size i h l. first_zero-below bits size 0 i (omega arith) h;
}

added : (vcpu_alloc find engine tt 7 (guest, λ m. 1)).0 ≡ ok 0
unfolding vcpu_alloc vcpu_allocate_vcpu_no vcpu_alloc_with vcpu_alloc_at adopt_mm install_vcpu
added = refl

vcpu_alloc-Added_example : Added guest (vcpu_alloc find engine tt 7 (guest, λ m. 1)).1 0 (some vcpu)
vcpu_alloc-Added_example =
    vcpu_alloc-Added find find-IsFindFirstZero engine tt 7 guest (λ m. 1) 0 added

failed : (vcpu_alloc find failing_engine tt 7 (guest, λ m. 1)).0 ≡ err enomem
unfolding vcpu_alloc vcpu_allocate_vcpu_no vcpu_alloc_with vcpu_alloc_at adopt_mm install_vcpu
failed = refl

vcpu_alloc-Kept_example :
    (enomem ≡ enomem)
    × Kept guest (vcpu_alloc find failing_engine tt 7 (guest, λ m. 1)).1
    × ((vcpu_alloc find failing_engine tt 7 (guest, λ m. 1)).2 ≡ (λ m. 1))
    × (((i : ℕ) → i < vm_max_vcpus → guest.vcpu_bitmap i ≡ true)
        ⊎ ((n : ℕ) × (guest.vcpu_bitmap n ≡ false)
            × (failing_engine.create_vcpu tt (taken guest n) n ≡ none)))
vcpu_alloc-Kept_example =
    vcpu_alloc-Kept find find-IsFindFirstZero failing_engine tt 7 guest (λ m. 1) enomem failed

-- A thread that has taken number 0 and not yet installed its vcpu.
abbrev first_world : World
first_world = record { instp = guest; holders = λ i. 0 }

first-IsTable : IsTable first_world
first-IsTable = record { accounts = λ i. refl; in_range = λ i h. absurd (cc h) }

abbrev held_world : World
held_world = record {
  instp = (vcpu_allocate_vcpu_no find guest).1;
  holders = update first_world.holders 0 (first_world.holders 0 + 1);
}

took : (vcpu_allocate_vcpu_no find first_world.instp).0 ≡ some 0
unfolding vcpu_allocate_vcpu_no
took = refl

held : Steps (Unit {0}) find engine first_world held_world
held = continued first_world first_world held_world (start first_world) (reserve first_world 0 took)

Steps-IsTable_example : IsTable held_world
Steps-IsTable_example =
    Steps-IsTable find find-IsFindFirstZero (engine {C = Unit {0}}) first_world held_world held
      first-IsTable

abbrev address : ℕ
address = 100

-- A table with one instance, and one being made.
abbrev empty_registry : Registry
empty_registry = record {
  instances_bitmap = λ i. false;
  instances_list = [];
  heap = λ p. none;
  mm_count = λ m. 0;
  preempt_notifiers = 0;
}

empty-IsRegistry : IsRegistry empty_registry
empty-IsRegistry = record {
  live = tt;
  unique = tt;
  accounts = λ i. refl;
  in_range = λ i h. absurd (cc h);
}

created : (instance_create find (engine {C = Unit {0}}) (some 100) true empty_registry).0 ≡ ok 100
unfolding instance_create alloc_inst_id create_id create_ptp
created = refl

instance_create-Created_example :
    (address ≡ address)
    × Created empty_registry
        (instance_create find (engine {C = Unit {0}}) (some 100) true empty_registry).1
        100
instance_create-Created_example =
    instance_create-Created find find-IsFindFirstZero (engine {C = Unit {0}}) (λ i. refl) 100
      empty_registry refl empty-IsRegistry 100 true created

instance_create-dangling_example :
    ((instance_create find (failing_engine {C = Unit {0}}) (some 100) true empty_registry).0
      ≡ err enomem)
    × ((instance_create find
          (failing_engine {C = Unit {0}})
          (some 100)
          true
          empty_registry).1.instances_list
        ≡ 100 ∷ [])
    × ((instance_create find (failing_engine {C = Unit {0}}) (some 100) true empty_registry).1.heap
          100
        ≡ none)
instance_create-dangling_example =
    instance_create-dangling find find-IsFindFirstZero (failing_engine {C = Unit {0}}) (λ i. refl)
      100 empty_registry refl empty-IsRegistry 0 (ground arith) refl (λ i. refl)

abbrev one : Instance
one = record guest { id = some 5 }

abbrev one_registry : Registry
one_registry = record empty_registry {
  instances_bitmap = λ i. i == 5;
  instances_list = 100 ∷ [];
  heap = λ p. if p == 100 then some one else none;
}

one-IsRegistry : IsRegistry one_registry
one-IsRegistry = record {
  live = ((one, refl, refl), tt);
  unique = (tt, tt);
  accounts = λ i. ground arith;
  in_range = λ i h. ground arith;
}

instance_release-Released_example :
    Released one_registry (instance_release (engine {C = Unit {0}}) 100 one one_registry).0 100 5
instance_release-Released_example =
    instance_release-Released (engine {C = Unit {0}}) one_registry 100 5 one
      (record { shutdown = λ i. refl; sync = λ i. refl; destroy = λ i. refl }) (inl refl) refl refl
      one-IsRegistry

-- The sandbox of this instance had the task 9 under the process id 8, which has exited.
abbrev leaked : Instance
leaked = record one { sandbox_tsk = some 9; sandbox_pid = 8; running_vcpus = 2 }

abbrev leaked_registry : Registry
leaked_registry = record one_registry { heap = λ p. if p == 100 then some leaked else none }

abbrev no_task : ℕ → Option ℕ
no_task pid = none

slimvm_reclaim_leaked_instances-HasExited_example :
    IsPut (slimvm_reclaim_leaked_instances no_task leaked_registry).1 address 2 ↔ (
      IsIn address leaked_registry.instances_list
      × ((instp : Instance) × (leaked_registry.heap address ≡ some instp)
          × HasExited no_task instp
          × (2 ≡ instp.running_vcpus % 2 ^ 32)))
slimvm_reclaim_leaked_instances-HasExited_example =
    slimvm_reclaim_leaked_instances-HasExited no_task leaked_registry address 2

-- The device cannot be registered.
abbrev no_device : Answers
no_device = record {
  vendor = intel;
  have_svm = false;
  sysctl_init = true;
  hardware_enable_all = λ k. none;
  misc_register = some enomem;
}

abbrev unloaded : Module
unloaded = record { ops = none; sysctl = false; hardware = false; device = false }

slimvm_init-Leaves_example : Leaves (slimvm_init no_device unloaded)
slimvm_init-Leaves_example =
    slimvm_init-Leaves no_device unloaded
      (record { no_sysctl = refl; no_hardware = refl; no_device = refl })

-- An instance with the vcpu of number 2.
abbrev one_vcpu : Instance
one_vcpu = record guest {
  vcpu_bitmap = λ i. i == 2;
  vcpus = λ i. if i == 2 then some vcpu else none;
}
