-- ===== src/Npt/Tables.antt =====
-- The tables of an instance as npt.c keeps them, and what a fault under the lock chooses.
use slimvm.Base.{ℕ, ◌<◌, ◌≤◌, ◌≡◌, ◌⊎◌, refl, Bool, true, Option, none, some, arith, page_size}
use slimvm.State.{Instance}
use slimvm.Paging.{Mem}
use slimvm.Paging.Tree.{Places, IsTree}
use slimvm.Paging.Hardware.{leaf}
use slimvm.Paging.Update.{IsLeafValue}
use slimvm.Vm.{Vm, Page}
use slimvm.Npt.Entry.{Kernel, IsKernel, npt_format, npte_frame, npte_present, is_npte_huge}
use slimvm.Npt.Fault.{Target, Choice, choose, plain, npte_of, release_npte_page}

abbrev pub root_of : Kernel → Vm → ℕ
root_of k vm = npte_frame (k.sme_clr vm.instp.ept_root)

-- The instance's tables are a tree, and what they map.
abbrev pub IsNpt : Kernel → Vm → Places → Type 0
IsNpt k vm own = IsTree (npt_format k) (root_of k vm) own vm.mem

abbrev pub npt_leaf : Kernel → Vm → ℕ → Option ℕ
npt_leaf k vm gpa = leaf (npt_format k) vm.mem (root_of k vm) gpa

-- The flags of a target, as `npt_flags` makes them.
pub record HasFlags (t : Target) : Type 0 where
  pub small : t.flags < page_size
  pub present : npte_present t.flags ≡ true

-- What a choice writes is present, and a 2M choice has a 2M entry.
pub record IsChoice (k : Kernel) (c : Choice) : Type 0 where
  pub size : (c.level ≡ 0) ⊎ ((c.level ≡ 1) × (is_npte_huge (npte_of k c) ≡ true))
  pub present : npte_present (npte_of k c) ≡ true

plain-choose :
    (k : Kernel) (instp : Instance) (gpa : ℕ) (t : Target) (m : Mem)
    → HasFlags t
    → ((choose k instp gpa t m).level ≡ 0)
      ⊎ (((choose k instp gpa t m).level ≡ 1)
          × (is_npte_huge (plain (choose k instp gpa t m)) ≡ true))
unfolding choose
plain-choose k instp gpa t m h = ground (arith, h.small)

plain-present :
    (k : Kernel) (instp : Instance) (gpa : ℕ) (t : Target) (m : Mem)
    → HasFlags t
    → npte_present (plain (choose k instp gpa t m)) ≡ true
unfolding choose
plain-present k instp gpa t m h = ground (arith, h.present)

pub choose-IsChoice :
    (k : Kernel) (instp : Instance) (gpa : ℕ) (t : Target) (m : Mem)
    → IsKernel k
    → HasFlags t
    → IsChoice k (choose k instp gpa t m)
choose-IsChoice k instp gpa t m law h =
    let low = law.set_low (plain (choose k instp gpa t m)) in
    record {
      size = ground (arith, plain-choose k instp gpa t m h, low);
      present = ground (arith, plain-present k instp gpa t m h, low);
    }

pub IsChoice-level : {k : Kernel} {c : Choice} → IsChoice k c → c.level ≤ 1
IsChoice-level ok = ground (arith, ok.size)

-- What a choice writes may stand at its level.
pub IsChoice-leaf :
    {k : Kernel} {c : Choice} → IsChoice k c → IsLeafValue (npt_format k) c.level (npte_of k c)
IsChoice-leaf ok = ground (arith, ok.size)

-- A release leaves the instance and the tables alone.
pub release-tables :
    (p : Option Page) (w : Bool) (vm : Vm)
    → ((release_npte_page p w vm).mem ≡ vm.mem) × ((release_npte_page p w vm).instp ≡ vm.instp)
unfolding release_npte_page
release-tables none w vm = (refl, refl)
release-tables (some p) w vm = (refl, refl)
