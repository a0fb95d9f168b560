-- ===== src/Npt/Live.antt =====
-- A fault of npt.c that nothing holds up does map the page.
use slimvm.Base.{
  ℕ, ◌≤◌, ◌≡◌, inl, inr, ◌∙◌, Bool, true, false, not, ◌&&◌, some, arith, ◌==◌, Bool-cases, sym,
  subst, length,
}
use slimvm.Paging.{Mem, Slot, done, read, write}
use slimvm.Paging.Tree.{Places, root_placed}
use slimvm.Paging.Hardware.{leaf}
use slimvm.Paging.Lookup.{Walked, walk-Walked}
use slimvm.Paging.Block.{block, write-block_self, leaf-huge}
use slimvm.Paging.Live.{walk-done, leaf-last}
use slimvm.Vm.{Vm}
use slimvm.Npt.Entry.{Kernel, IsKernel, npt_format, npt_format-IsFormat, npte_present, is_npte_huge}
use slimvm.Npt.Lookup.{npte_page_directory, npt_lookup_gpa, mmu_notifier_retry}
use slimvm.Npt.Fault.{Target, Choice, choose, npte_of, npt_install, install_at, npt_commit}
use slimvm.Npt.Tables.{
  root_of, IsNpt, npt_leaf, HasFlags, IsChoice, IsChoice-leaf, IsChoice-level, choose-IsChoice,
  release-tables,
}

module _ (k : Kernel) (law : IsKernel k) (vm : Vm) (c : Choice) (gpa : ℕ) {own : Places}
    (ok : IsChoice k c)
    (no_huge : (e : ℕ) → npt_leaf k vm gpa ≡ some e → is_npte_huge e ≡ false) where
  -- The entry that the lookup comes to is not a 2M entry in the way of a small one.
  not_in_the_way :
      (s : Slot) (m : Mem)
      → Walked (npt_format k) (root_of k vm) own vm.mem gpa c.level (done s m) 3 (root_of k vm)
      → (npte_present (read s m) && is_npte_huge (read s m) && not (c.level == npte_page_directory))
        ≡ false
  not_in_the_way s m w = elim (Bool-cases (npte_present (read s m))) [
    | inr e ↦ ground arith
    | inl e ↦ elim w.reached.level_eq [
      | inr (l, z, p, h) ↦
          ground (arith, no_huge (read s m) (sym (w.grows.same gpa) ∙ leaf-huge w.reached l p h))
      | inl l ↦ elim ok.size [
        | inr d ↦ ground arith
        | inl z ↦
            ground
              (arith, no_huge (read s m) (sym (w.grows.same gpa) ∙ leaf-last w.reached (l ∙ z) e))
      ]
    ]
  ]

  install-maps :
      (w : Bool) (t : Target) (s : Slot) (m : Mem)
      → Walked (npt_format k) (root_of k vm) own vm.mem gpa c.level (done s m) 3 (root_of k vm)
      → (g : ℕ) → block c.level g ≡ block c.level gpa
      → leaf (npt_format k) (install_at k w t c vm (done s m)).mem (root_of k vm) g
        ≡ some (npte_of k c)
  unfolding npt_install
  install-maps w t s m walked g b =
      let way = not_in_the_way s m walked in
      let level : walked.reached.level' ≡ c.level = ground (arith, walked.reached.level_eq, way) in
      let v = npte_of k c in
      let written : leaf (npt_format k) (write s v m) (root_of k vm) g ≡ some v =
        rw ok.present at
          (write-block_self walked.grows.tree (IsChoice-leaf ok) walked.reached level g b) in
      rw way (
        subst (λ m'. leaf (npt_format k) m' (root_of k vm) g ≡ some v)
          (sym (release-tables t.page w _).0) written)

-- A fault under the lock that no invalidation holds up, with three free frames for tables, and with no 2M
-- entry at `gpa`, maps it: the page (the 2M block, where the choice is a huge page) has the chosen entry.
pub npt_commit-maps :
    (k : Kernel) (seq : ℕ) (make_write : Bool) (gpa : ℕ) (t : Target) (vm : Vm) {own : Places}
    → IsKernel k
    → IsNpt k vm own
    → HasFlags t
    → mmu_notifier_retry vm.instp seq ≡ false
    → 3 ≤ length vm.mem.free_pages
    → ((e : ℕ) → npt_leaf k vm gpa ≡ some e → is_npte_huge e ≡ false)
    → (g : ℕ)
    → block (choose k vm.instp gpa t vm.mem).level g
      ≡ block (choose k vm.instp gpa t vm.mem).level gpa
    → leaf (npt_format k) (npt_commit k seq make_write gpa t vm).mem (root_of k vm) g
      ≡ some (npte_of k (choose k vm.instp gpa t vm.mem))
unfolding npt_commit npt_lookup_gpa
npt_commit-maps k seq make_write gpa t vm {own} law tree h retry free no_huge g b =
    let c = choose k vm.instp gpa t vm.mem in
    let ok = choose-IsChoice k vm.instp gpa t vm.mem law h in
    let (s, m, found) = walk-done (npt_format k) 3 (root_of k vm) gpa c.level vm.mem free in
    let walked : Walked (npt_format k) (root_of k vm) own vm.mem gpa c.level (done s m) 3
        (root_of k vm) =
      subst (λ r. Walked (npt_format k) (root_of k vm) own vm.mem gpa c.level r 3 (root_of k vm))
        found
        (walk-Walked (npt_format-IsFormat k law) 3 gpa c.level true
          (omega (arith, IsChoice-level ok)) (omega arith) tree (root_placed gpa tree)) in
    rw (retry, found) (install-maps k law vm c gpa ok no_huge make_write t s m walked g b)
