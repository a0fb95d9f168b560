-- ===== src/Ept/Map.antt =====
-- What `ept_set_epte` does under the lock (ept.c), on every branch: the tables stay a tree, and the fault's
-- block gets the new entry or nothing changes.
use slimvm.Base.{
  subst, sym, ℕ, ◌≤◌, ◌≡◌, inl, inr, refl, ap, ◌∙◌, Bool, true, false, not, ◌&&◌, some, arith, ◌==◌,
  Bool-cases, if◌then◌else◌,
}
use slimvm.State.{Instance}
use slimvm.Paging.{Mem, Slot, Outcome, done, fail, mem_of, read, write}
use slimvm.Paging.Tree.{Places, IsTree, root_placed}
use slimvm.Paging.Hardware.{leaf}
use slimvm.Paging.Lookup.{Walked, Reached, walk-Walked, walk-mem}
use slimvm.Paging.Block.{Mapping, unchanged, Mapping-after, write_block-IsTree, write_block-Mapping}
use slimvm.Vm.{Vm}
use slimvm.Ept.Entry.{ept_format, epte_present, is_epte_huge, ept_format-IsFormat}
use slimvm.Ept.Lookup.{page_directory, ept_lookup_gpa, ept_trace_mm_stat_map, mmu_notifier_retry}
use slimvm.Ept.Fault.{Target, Choice, choose, addr_of, unlock, ept_install, install_at, ept_commit}
use slimvm.Ept.Tables.{
  root_of, IsEpt, ept_leaf, HasFlags, IsChoice, IsChoice-leaf, choose-IsChoice, release-mem,
  release-instp,
}

-- The outcome for an instance: its tables are a tree again, at the same root, and `Mapping` holds.
pub record Committed (vm : Vm) (c : Choice) (gpa : ℕ) (vm' : Vm) : Type 0 where
  pub places : Places
  pub tree : IsEpt vm' places
  pub maps : Mapping (ept_leaf vm) (ept_leaf vm') c.level gpa (some (addr_of c))
  pub same_root : vm'.instp.ept_root ≡ vm.instp.ept_root

trace_map-root :
    (instp : Instance) (e : ℕ) → (ept_trace_mm_stat_map instp e).ept_root ≡ instp.ept_root
unfolding ept_trace_mm_stat_map
trace_map-root instp e = ground arith

accounted-root :
    (b : Bool) (instp : Instance) (e : ℕ)
    → (if b then instp else ept_trace_mm_stat_map instp e).ept_root ≡ instp.ept_root
accounted-root true instp e = refl
accounted-root false instp e = trace_map-root instp e

-- A lookup from the root, to a level that a choice has.
pub lookup_gpa-Walked :
    (vm : Vm) (gpa level : ℕ) (create : Bool) {own : Places}
    → IsEpt vm own
    → level ≤ 1
    → Walked ept_format
        (root_of vm)
        own
        vm.mem
        gpa
        level
        (ept_lookup_gpa vm.instp gpa level create vm.mem)
        3
        (root_of vm)
unfolding ept_lookup_gpa
lookup_gpa-Walked vm gpa level create tree h =
    walk-Walked ept_format-IsFormat 3 gpa level create (omega arith) (omega arith) tree
      (root_placed gpa tree)

IsChoice-level : {c : Choice} → IsChoice c → c.level ≤ 1
IsChoice-level ok = ground (arith, ok.size)

-- A lookup without leave to create that finds a slot finds it in the instance's own tables.
pub lookup_gpa-Found :
    (vm : Vm) (gpa level : ℕ) (s : Slot) (m : Mem) {own : Places}
    → IsEpt vm own
    → level ≤ 1
    → ept_lookup_gpa vm.instp gpa level false vm.mem ≡ done s m
    → (own' : Places) × IsEpt vm own' × Reached ept_format own' gpa level s vm.mem 3 (root_of vm)
lookup_gpa-Found vm gpa level s m {own} tree h eq =
    let walked : Walked ept_format (root_of vm) own vm.mem gpa level (done s m) 3 (root_of vm) =
      subst (λ r. Walked ept_format (root_of vm) own vm.mem gpa level r 3 (root_of vm)) eq
        (lookup_gpa-Walked vm gpa level false tree h) in
    let same : m ≡ vm.mem =
      ap mem_of (sym eq)
      ∙ (unfold ept_lookup_gpa in walk-mem ept_format 3 (root_of vm) gpa level vm.mem) in
    (
      walked.places,
      subst (λ x. IsTree ept_format (root_of vm) walked.places x) same walked.grows.tree,
      subst (λ x. Reached ept_format walked.places gpa level s x 3 (root_of vm)) same
          walked.reached,
    )

module _ (vm : Vm) (c : Choice) (gpa : ℕ) where
  -- From what is known of the memory that the operation leaves.
  Committed-of :
      (vm' : Vm) (m' : Mem) (own : Places)
      → vm'.mem ≡ m'
      → vm'.instp.ept_root ≡ vm.instp.ept_root
      → IsTree ept_format (root_of vm) own m'
      → Mapping (ept_leaf vm) (leaf ept_format m' (root_of vm)) c.level gpa (some (addr_of c))
      → Committed vm c gpa vm'
  Committed-of vm' m' own e r t maps = record {
    places = own;
    tree = rw (e, r) t;
    maps = rw (e, r) maps;
    same_root = r;
  }

  unlock-Committed :
      (t : Target) (m' : Mem) (own : Places)
      → IsTree ept_format (root_of vm) own m'
      → ((g : ℕ) → leaf ept_format m' (root_of vm) g ≡ ept_leaf vm g)
      → Committed vm c gpa (unlock t m' vm)
  unlock-Committed t m' own tree same =
      Committed-of (unlock t m' vm) m' own (release-mem t.page false _)
        (ap (λ (i : Instance). i.ept_root) (release-instp t.page false _)) tree (unchanged same)

  install-Committed :
      (w : Bool) (t : Target) {own : Places} (r : Outcome Slot)
      → IsChoice c
      → Walked ept_format (root_of vm) own vm.mem gpa c.level r 3 (root_of vm)
      → Committed vm c gpa (install_at w t c vm r)
  unfolding ept_install
  install-Committed w t (fail e m') ok walked =
      unlock-Committed t m' walked.places walked.grows.tree walked.grows.same
  install-Committed w t (done s m') ok walked =
      elim (Bool-cases
        (epte_present (read s m') && is_epte_huge (read s m') && not (c.level == page_directory))) [
          | inl e ↦ rw e (unlock-Committed t m' walked.places walked.grows.tree walked.grows.same)
          | inr e ↦ rw e (
              let level : walked.reached.level' ≡ c.level =
                ground (arith, walked.reached.level_eq) in
              Committed-of _ (write s (addr_of c) m') walked.places (release-mem t.page w _)
                (ap (λ (i : Instance). i.ept_root) (release-instp t.page w _)
                  ∙ accounted-root (epte_present (read s m')) vm.instp (addr_of c))
                (write_block-IsTree walked.grows.tree (IsChoice-leaf ok) walked.reached level)
                (Mapping-after walked.grows.same (
                  rw ok.present at (
                    write_block-Mapping walked.grows.tree (IsChoice-leaf ok) walked.reached
                      level))))
        ]

-- Under the lock `ept_set_epte` keeps the tables of the instance a tree. Either no guest address is mapped
-- differently, or the 4K page (the 2M block, where the choice is a huge page) of `gpa` is mapped by the
-- chosen entry and every guest address outside of it as before.
pub ept_commit-Committed :
    (seq : ℕ) (make_write : Bool) (gpa : ℕ) (t : Target) (vm : Vm) {own : Places}
    → IsEpt vm own
    → HasFlags t
    → Committed vm (choose vm.instp gpa t vm.mem) gpa (ept_commit seq make_write gpa t vm)
unfolding ept_commit
ept_commit-Committed seq make_write gpa t vm {own} tree h =
    elim (Bool-cases (mmu_notifier_retry vm.instp seq)) [
      | inl e ↦ rw e (unlock-Committed vm _ gpa t vm.mem own tree (λ g. refl))
      | inr e ↦ rw e (
          let c = choose vm.instp gpa t vm.mem in
          let ok = choose-IsChoice vm.instp gpa t vm.mem h in
          install-Committed vm c gpa make_write t _ ok
            (lookup_gpa-Walked vm gpa c.level true tree (IsChoice-level ok)))
    ]
