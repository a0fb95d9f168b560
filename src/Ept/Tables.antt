-- ===== src/Ept/Tables.antt =====
-- The tables of an instance as ept.c keeps them, and what a fault under the lock does to them.
use slimvm.Base.{ℕ, ◌<◌, ◌≡◌, ◌⊎◌, refl, Bool, true, false, Option, none, some, arith, page_size}
use slimvm.State.{Instance}
use slimvm.Paging.{Mem}
use slimvm.Paging.Tree.{Places, IsTree}
use slimvm.Paging.Hardware.{leaf}
use slimvm.Paging.Update.{IsLeafValue}
use slimvm.Vm.{Vm, Page}
use slimvm.Ept.Entry.{ept_format, epte_frame, epte_present, is_epte_huge}
use slimvm.Ept.Fault.{Target, Choice, choose, addr_of, release_epte_page}

abbrev pub root_of : Vm → ℕ
root_of vm = epte_frame vm.instp.ept_root

-- The instance's tables are a tree, and what they map.
abbrev pub IsEpt : Vm → Places → Type 0
IsEpt vm own = IsTree ept_format (root_of vm) own vm.mem

abbrev pub ept_leaf : Vm → ℕ → Option ℕ
ept_leaf vm gpa = leaf ept_format vm.mem (root_of vm) gpa

-- The flags of a target, as `ept_flags` makes them.
pub record HasFlags (t : Target) : Type 0 where
  pub small : t.flags < page_size
  pub present : epte_present t.flags ≡ true
  pub not_huge : is_epte_huge t.flags ≡ false

-- A choice is a small page with a small entry or a 2M block with a 2M entry.
pub record IsChoice (c : Choice) : Type 0 where
  pub size : (c.level ≡ 0) ⊎ ((c.level ≡ 1) × (is_epte_huge (addr_of c) ≡ true))
  pub present : epte_present (addr_of c) ≡ true

pub choose-IsChoice :
    (instp : Instance) (gpa : ℕ) (t : Target) (m : Mem)
    → HasFlags t
    → IsChoice (choose instp gpa t m)
unfolding choose
choose-IsChoice instp gpa t m h = ground arith

-- A release leaves the instance and the tables alone.
pub release-mem : (p : Option Page) (w : Bool) (vm : Vm) → (release_epte_page p w vm).mem ≡ vm.mem
unfolding release_epte_page
release-mem none w vm = refl
release-mem (some p) w vm = refl

pub release-instp :
    (p : Option Page) (w : Bool) (vm : Vm) → (release_epte_page p w vm).instp ≡ vm.instp
unfolding release_epte_page
release-instp none w vm = refl
release-instp (some p) w vm = refl

-- What a choice writes may stand at its level.
pub IsChoice-leaf : {c : Choice} → IsChoice c → IsLeafValue ept_format c.level (addr_of c)
IsChoice-leaf ok = ground (arith, ok.size)
