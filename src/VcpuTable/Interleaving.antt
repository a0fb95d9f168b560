-- ===== src/VcpuTable/Interleaving.antt =====
-- Several threads at the table of vcpu.c at once: each section under `vcpu_lock` is one step.
use slimvm.Base.{ℕ, ◌+◌, ◌-◌, ◌<◌, ◌≡◌, Bool, true, false, none, some, arith, update, is_some, bit}
use slimvm.State.{Instance, Vcpu, vm_max_vcpus}
use slimvm.VcpuTable.Alloc.{taken, allocate-some}
use slimvm.Engine.{Engine, IsFindFirstZero}
use slimvm.VcpuTable.{
  vcpu_allocate_vcpu_no, vcpu_free_vcpu_no, adopt_mm, install_vcpu, vcpu_release, vcpu_inject_nmi,
}

-- The instance, and for each number how many threads hold it: have taken it in `vcpu_alloc` and not yet
-- installed a vcpu under it or given it back.
pub record World : Type 0 where
  pub instp : Instance
  pub holders : ℕ → ℕ

-- The sections of `vcpu_alloc`, `vcpu_release` and `vcpu_inject_nmi`.
pub data Step (Config : Type 0) (find : (ℕ → Bool) → ℕ → ℕ) (ops : Engine Config)
    : World → World → Type 0 where
  reserve :
      (w : World) (n : ℕ)
      → (vcpu_allocate_vcpu_no find w.instp).0 ≡ some n
      → Step Config find ops w (record {
        instp = (vcpu_allocate_vcpu_no find w.instp).1;
        holders = update w.holders n (w.holders n + 1);
      })
  abandon :
      (w : World) (n : ℕ)
      → 0 < w.holders n
      → Step Config find ops w (record {
        instp = vcpu_free_vcpu_no w.instp n;
        holders = update w.holders n (w.holders n - 1);
      })
  adopt :
      (w : World) (mm : ℕ) (mm_count : ℕ → ℕ)
      → Step Config find ops w (record w { instp = (adopt_mm mm (w.instp, mm_count)).0 })
  install :
      (w : World) (n : ℕ) (vcpu : Vcpu)
      → 0 < w.holders n
      → Step Config find ops w (record {
        instp = install_vcpu w.instp n vcpu;
        holders = update w.holders n (w.holders n - 1);
      })
  release :
      (w : World) (n : ℕ) → Step Config find ops w (record w { instp = (vcpu_release w.instp n).0 })
  inject :
      (w : World) (n : ℕ)
      → Step Config find ops w (record w { instp = vcpu_inject_nmi ops w.instp n })

-- What is reachable from a world.
pub data Steps (Config : Type 0) (find : (ℕ → Bool) → ℕ → ℕ) (ops : Engine Config)
    : World → World → Type 0 where
  start : (w : World) → Steps Config find ops w w
  continued :
      (w v u : World)
      → Steps Config find ops w v
      → Step Config find ops v u
      → Steps Config find ops w u

-- Each bit accounts for one holder or one vcpu, and numbers are below `VM_MAX_VCPUS`.
pub record IsTable (w : World) : Type 0 where
  pub accounts :
      (i : ℕ) → w.holders i + bit (is_some (w.instp.vcpus i)) ≡ bit (w.instp.vcpu_bitmap i)
  pub in_range : (i : ℕ) → w.instp.vcpu_bitmap i ≡ true → i < vm_max_vcpus

module _ {Config : Type 0} (find : (ℕ → Bool) → ℕ → ℕ) (law : IsFindFirstZero find)
    (ops : Engine Config) where
  step-IsTable : (w v : World) → Step Config find ops w v → IsTable w → IsTable v
  unfolding vcpu_allocate_vcpu_no vcpu_free_vcpu_no adopt_mm install_vcpu vcpu_release
      vcpu_inject_nmi
  step-IsTable w v (reserve _ n e) t =
      let a = allocate-some find w.instp n law e in
      let bound : n < vm_max_vcpus = a.0 in
      let clear : w.instp.vcpu_bitmap n ≡ false = a.1 in
      let next : IsTable
          (record { instp = taken w.instp n; holders = update w.holders n (w.holders n + 1) }) =
        record {
          accounts = λ i. ground (arith, t.accounts i, clear);
          in_range = λ i. ground (arith, t.in_range i, bound);
        } in
      rw a.2 next
  step-IsTable w v (abandon _ n p) t = record {
    accounts = λ i. ground (arith, t.accounts i);
    in_range = λ i. ground (arith, t.in_range i);
  }
  step-IsTable w v (adopt _ mm c) t = ground (arith, t)
  step-IsTable w v (install _ n x p) t = record {
    accounts = λ i. ground (arith, t.accounts i);
    in_range = λ i. ground (arith, t.in_range i);
  }
  step-IsTable w v (release _ n) t = record {
    accounts = λ i. ground (arith, t.accounts i);
    in_range = λ i. ground (arith, t.in_range i);
  }
  step-IsTable w v (inject _ n) t = record {
    accounts = λ i. ground (arith, t.accounts i);
    in_range = λ i. ground (arith, t.in_range i);
  }

  -- Whatever threads create, release and interrupt vcpus of an instance, in whatever order their sections
  -- run: from a table that accounts for its bits, only such tables are reached, so that each number below
  -- `VM_MAX_VCPUS` is free, held by one thread, or the number of one vcpu.
  pub Steps-IsTable : (w v : World) → Steps Config find ops w v → IsTable w → IsTable v
  Steps-IsTable w _ (start _) t = t
  Steps-IsTable w u (continued _ v _ s r) t = step-IsTable v u r (Steps-IsTable w v s t)

  -- In every table reached from one that accounts for its bits, a number that a thread holds is held by no
  -- other thread, no vcpu stands under it, so that installing one overwrites none, and it is below
  -- `VM_MAX_VCPUS`.
  pub holder_alone :
      (w v : World) (n : ℕ)
      → Steps Config find ops w v
      → IsTable w
      → 0 < v.holders n
      → (v.holders n ≡ 1) × (v.instp.vcpus n ≡ none) × (n < vm_max_vcpus)
  holder_alone w v n steps t p =
      let u = Steps-IsTable w v steps t in ground (arith, u.accounts n, u.in_range n)
