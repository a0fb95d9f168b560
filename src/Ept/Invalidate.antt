-- ===== src/Ept/Invalidate.antt =====
-- `ept_invalidate_page` of ept.c: afterwards the page is not mapped, and no page outside of the entry that
-- mapped it is mapped differently.
use slimvm.Base.{
  ℕ, ◌≡◌, ◌≢◌, ◌⊎◌, inl, inr, refl, ap, ◌∙◌, Bool, true, false, some, none, arith, ◌==◌, Bool-cases,
  addr_inval, fun_ext, ==→eq,
}
use slimvm.Mm.{hva_to_gpa}
use slimvm.Paging.{Mem, Slot, Outcome, done, fail, read, write}
use slimvm.Paging.Tree.{Places}
use slimvm.Paging.Lookup.{Reached, walk-fail}
use slimvm.Paging.Update.{IsLeafValue}
use slimvm.Paging.Block.{
  block, write_block-IsTree, write-block_self, write-block-other, leaf-page, leaf-huge,
}
use slimvm.Vm.{Vm}
use slimvm.Ept.Entry.{ept_format, is_epte_huge}
use slimvm.Ept.Flush.{Cpu}
use slimvm.Ept.Flush.Fields.{flush-tables}
use slimvm.Ept.Lookup.{
  page_table, ept_lookup_gpa, ept_lookup_hva, ept_clear_epte, ept_trace_mm_stat_unmap,
}
use slimvm.Ept.Notifier.{flush, unmap, flush_if, bump_seq, invalidate_at, ept_invalidate_page}
use slimvm.Ept.Tables.{root_of, IsEpt, ept_leaf}
use slimvm.Ept.Map.{lookup_gpa-Found}

-- One entry gone: the page of `gpa` is not mapped, nor anything else that its entry mapped, and all other
-- addresses are mapped as before. The entry is of level 1 only where a 2M entry mapped the page.
pub record Invalidated (vm : Vm) (gpa : ℕ) (vm' : Vm) : Type 0 where
  pub level : ℕ
  pub level_ok :
      (level ≡ 0) ⊎ ((level ≡ 1) × ((e : ℕ) × (ept_leaf vm gpa ≡ some e) × (is_epte_huge e ≡ true)))
  pub places : Places
  pub tree : IsEpt vm' places
  pub same_root : vm'.instp.ept_root ≡ vm.instp.ept_root
  pub gone : (g : ℕ) → block level g ≡ block level gpa → ept_leaf vm' g ≡ none
  pub kept : (g : ℕ) → block level g ≢ block level gpa → ept_leaf vm' g ≡ ept_leaf vm g

write-zero : (s : Slot) (m : Mem) → read s m ≡ 0 → m ≡ write s 0 m
unfolding write
write-zero s m e =
    ap (λ (f : ℕ → ℕ → ℕ). record m { entry = f }) (fun_ext λ g. fun_ext λ k. ground arith)

clear_epte-mem : (s : Slot) (m : Mem) → (ept_clear_epte s m).1 ≡ write s 0 m
unfolding ept_clear_epte
clear_epte-mem s m = elim (Bool-cases (read s m == 0)) [
  | inl e ↦ rw e (write-zero s m (==→eq _ _ e))
  | inr e ↦ rw e
]

pub unmap-mem : (s : Slot) (vm : Vm) → (unmap s vm).1.mem ≡ write s 0 vm.mem
unfolding unmap
unmap-mem s vm = clear_epte-mem s vm.mem

pub unmap-root : (s : Slot) (vm : Vm) → (unmap s vm).1.instp.ept_root ≡ vm.instp.ept_root
unfolding unmap ept_trace_mm_stat_unmap
unmap-root s vm = ground arith

flush_if-mem : (cpu : Cpu) (r : Bool × Vm) → (flush_if cpu r).1.mem ≡ r.1.mem
unfolding flush
flush_if-mem cpu (true, vm) = refl
flush_if-mem cpu (false, vm) = refl

flush_if-root : (cpu : Cpu) (r : Bool × Vm) → (flush_if cpu r).1.instp.ept_root ≡ r.1.instp.ept_root
unfolding flush
flush_if-root cpu (true, vm) = ap (λ (t : ℕ × ℕ × ℕ). t.0) (flush-tables cpu vm.instp)
flush_if-root cpu (false, vm) = refl

module _ (vm : Vm) (gpa : ℕ) {own : Places} (tree : IsEpt vm own) where
  -- The write of an absent entry at the slot of a lookup.
  pub write-Invalidated :
      (s : Slot) (vm' : Vm)
      → Reached ept_format own gpa 0 s vm.mem 3 (root_of vm)
      → vm'.mem ≡ write s 0 vm.mem
      → vm'.instp.ept_root ≡ vm.instp.ept_root
      → Invalidated vm gpa vm'
  write-Invalidated s vm' r e re = record {
    level = r.level';
    level_ok = elim r.level_eq [
      | inl z ↦ inl z
      | inr (o, z, p, h) ↦ inr (o, (read s vm.mem, leaf-huge r o p h, h))
    ];
    places = own;
    tree = rw (e, re) (write_block-IsTree tree value r refl);
    same_root = re;
    gone = λ g b. rw (e, re) (write-block_self tree value r refl g b);
    kept = λ g b. rw (e, re) (write-block-other tree value r refl g b);
  }
    where
      value : IsLeafValue ept_format r.level' 0
      value = ground (arith, r.level_eq)

  pub fail-Invalidated :
      (vm' : Vm)
      → ept_leaf vm gpa ≡ none
      → vm'.mem ≡ vm.mem
      → vm'.instp.ept_root ≡ vm.instp.ept_root
      → Invalidated vm gpa vm'
  fail-Invalidated vm' n e re = record {
    level = 0;
    level_ok = inl refl;
    places = own;
    tree = rw (e, re) tree;
    same_root = re;
    gone = λ g b. rw (e, re) (leaf-page ept_format vm.mem (root_of vm) g gpa b ∙ n);
    kept = λ g b. rw (e, re) refl;
  }

invalidate_at-Invalidated :
    (cpu : Cpu) (gpa : ℕ) (vm : Vm) {own : Places} (o : Outcome Slot)
    → IsEpt vm own
    → ept_lookup_gpa vm.instp gpa page_table false vm.mem ≡ o
    → Invalidated vm gpa (invalidate_at cpu vm o).1
invalidate_at-Invalidated cpu gpa vm (fail e m) tree eq =
    fail-Invalidated vm gpa tree vm (unfold ept_lookup_gpa in walk-fail _ _ _ _ _ _ _ _ eq) refl
      refl
invalidate_at-Invalidated cpu gpa vm (done s m) tree eq =
    let found = lookup_gpa-Found vm gpa page_table s m tree (omega arith) eq in
    write-Invalidated vm gpa found.1 s _ found.2
      (flush_if-mem cpu (unmap s (bump_seq vm)) ∙ unmap-mem s (bump_seq vm))
      (flush_if-root cpu (unmap s (bump_seq vm)) ∙ unmap-root s (bump_seq vm))

-- `ept_invalidate_page` at a host address that is in a memory region: the page of its guest address is not
-- mapped afterwards, nor what else the same entry mapped (a whole 2M block only where a 2M entry mapped the
-- page); every other guest address is mapped as before, and the tables are still a tree at the same root.
pub ept_invalidate_page-Invalidated :
    (cpu : Cpu) (addr : ℕ) (vm : Vm) {own : Places}
    → IsEpt vm own
    → hva_to_gpa vm.instp addr ≢ addr_inval
    → Invalidated vm (hva_to_gpa vm.instp addr) (ept_invalidate_page cpu addr vm).1
unfolding ept_invalidate_page ept_lookup_hva
ept_invalidate_page-Invalidated cpu addr vm tree n =
    elim (Bool-cases (hva_to_gpa vm.instp addr == addr_inval)) [
      | inl e ↦ absurd (n (==→eq _ _ e))
      | inr e ↦ rw e (invalidate_at-Invalidated cpu (hva_to_gpa vm.instp addr) vm _ tree refl)
    ]
