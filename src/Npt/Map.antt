-- ===== src/Npt/Map.antt =====
-- What `npt_set_npte` does under the lock (npt.c), on every branch: the tables stay a tree, and the fault's
-- block gets the new entry or nothing changes.
use slimvm.Base.{
  ℕ, ◌≡◌, inl, inr, refl, ap, ◌∙◌, Bool, true, false, not, ◌&&◌, arith, ◌==◌, Bool-cases,
  if◌then◌else◌,
}
use slimvm.State.{Instance}
use slimvm.Paging.{Mem, Slot, Outcome, done, fail, read}
use slimvm.Paging.Tree.{Places, root_placed}
use slimvm.Paging.Lookup.{Walked, walk-Walked}
use slimvm.Paging.Store.{Stored, same-Stored, Walked-Stored, write-Stored}
use slimvm.Vm.{Vm}
use slimvm.Npt.Entry.{Kernel, IsKernel, npt_format, npt_format-IsFormat, npte_present, is_npte_huge}
use slimvm.Npt.Lookup.{
  npte_page_directory, npt_lookup_gpa, npt_trace_mm_stat_map, mmu_notifier_retry,
}
use slimvm.Npt.Fault.{
  Target, Choice, choose, plain, npte_of, unlock, npt_install, install_at, npt_commit,
}
use slimvm.Npt.Tables.{
  root_of, IsNpt, HasFlags, IsChoice, IsChoice-leaf, IsChoice-level, choose-IsChoice,
  release-tables,
}

-- The outcome for an instance: `Stored` for its tables, at the same root.
pub record Committed (k : Kernel) (vm : Vm) (c : Choice) (gpa : ℕ) (vm' : Vm) : Type 0 where
  pub stored : Stored (npt_format k) (root_of k vm) vm.mem c.level gpa (npte_of k c) vm'.mem
  pub same_root : vm'.instp.ept_root ≡ vm.instp.ept_root

accounted-root :
    (b : Bool) (instp : Instance) (e : ℕ)
    → (if b then instp else npt_trace_mm_stat_map instp e).ept_root ≡ instp.ept_root
unfolding npt_trace_mm_stat_map
accounted-root true instp e = refl
accounted-root false instp e = ground arith

module _ (k : Kernel) (law : IsKernel k) (vm : Vm) (c : Choice) (gpa : ℕ) (w : Bool)
    (t : Target) where
  unlock-Committed :
      (m : Mem)
      → Stored (npt_format k) (root_of k vm) vm.mem c.level gpa (npte_of k c) m
      → Committed k vm c gpa (unlock w t m vm)
  unlock-Committed m st =
      let r = release-tables t.page w (record vm { mem = m }) in
      record { stored = rw r.0 st; same_root = ap (λ (i : Instance). i.ept_root) r.1 }

  install-Committed :
      {own : Places} (o : Outcome Slot)
      → IsChoice k c
      → Walked (npt_format k) (root_of k vm) own vm.mem gpa c.level o 3 (root_of k vm)
      → Committed k vm c gpa (install_at k w t c vm o)
  unfolding npt_install
  install-Committed (fail e m) ok walked = unlock-Committed m (Walked-Stored _ _ walked)
  install-Committed (done s m) ok walked =
      elim (Bool-cases (
        npte_present (read s m)
        && is_npte_huge (read s m)
        && not (c.level == npte_page_directory))) [
          | inl e ↦ rw e (unlock-Committed m (Walked-Stored _ _ walked))
          | inr e ↦ rw e (
              let r = release-tables t.page w _ in
              record {
                stored = rw r.0 (
                    write-Stored (npte_of k c) walked (ground (arith, walked.reached.level_eq))
                      (IsChoice-leaf ok) ok.present);
                same_root =
                    ap (λ (i : Instance). i.ept_root) r.1
                    ∙ accounted-root (npte_present (read s m)) vm.instp (plain c);
              })
        ]

-- Under the lock `npt_set_npte` keeps the tables of the instance a tree. Either no guest address is mapped
-- differently, or the 4K page (the 2M block, where the choice is a huge page) of `gpa` is mapped by the
-- chosen entry, with the encryption mask set, and every guest address outside of it as before.
pub npt_commit-Committed :
    (k : Kernel) (seq : ℕ) (make_write : Bool) (gpa : ℕ) (t : Target) (vm : Vm) {own : Places}
    → IsKernel k
    → IsNpt k vm own
    → HasFlags t
    → Committed k vm (choose k vm.instp gpa t vm.mem) gpa (npt_commit k seq make_write gpa t vm)
unfolding npt_commit npt_lookup_gpa
npt_commit-Committed k seq make_write gpa t vm law tree h =
    let c = choose k vm.instp gpa t vm.mem in
    let ok = choose-IsChoice k vm.instp gpa t vm.mem law h in
    elim (Bool-cases (mmu_notifier_retry vm.instp seq)) [
      | inl e ↦ rw e (unlock-Committed k law vm c gpa make_write t vm.mem (same-Stored _ _ _ tree))
      | inr e ↦ rw e (
          install-Committed k law vm c gpa make_write t _ ok (
            walk-Walked (npt_format-IsFormat k law) 3 gpa c.level true
              (omega (arith, IsChoice-level ok)) (omega arith) tree (root_placed gpa tree)))
    ]
