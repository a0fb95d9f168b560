-- ===== src/Npt/Invalidate.antt =====
-- `npt_invalidate_page` of npt.c: afterwards the page is not mapped, and no page outside of the entry that
-- mapped it is mapped differently.
use slimvm.Base.{
  ℕ, ◌≡◌, ◌≢◌, inl, inr, refl, ap, ◌∙◌, Bool, true, false, arith, ◌==◌, Bool-cases, addr_inval,
  fun_ext, ==→eq, [],
}
use slimvm.State.{vm_max_vcpus}
use slimvm.Mm.{hva_to_gpa}
use slimvm.Paging.{Mem, Slot, Outcome, done, fail, read, write}
use slimvm.Paging.Tree.{Places}
use slimvm.Paging.Lookup.{walk-fail}
use slimvm.Paging.Store.{Cleared, write-Cleared, none-Cleared, walk-Reached}
use slimvm.Vm.{Vm}
use slimvm.Ept.Flush.{Cpu}
use slimvm.Ept.Flush.Fields.{flush_loop-tables}
use slimvm.Npt.Entry.{Kernel, IsKernel, npt_format, npt_format-IsFormat}
use slimvm.Npt.Lookup.{
  npte_page_table, npt_lookup_gpa, npt_lookup_hva, npt_clear_npte, npt_trace_mm_stat_unmap,
}
use slimvm.Npt.Notifier.{
  npt_flush_remote_tlbs, flush, flush_if, bump_seq, invalidate_at, npt_invalidate_page,
}
use slimvm.Npt.Tables.{root_of, IsNpt}

-- The outcome for an instance: `Cleared` for its tables, at the same root.
pub record Invalidated (k : Kernel) (vm : Vm) (gpa : ℕ) (vm' : Vm) : Type 0 where
  pub cleared : Cleared (npt_format k) (root_of k vm) vm.mem gpa vm'.mem
  pub same_root : vm'.instp.ept_root ≡ vm.instp.ept_root

write-zero : (s : Slot) (m : Mem) → read s m ≡ 0 → m ≡ write s 0 m
unfolding write
write-zero s m e =
    ap (λ (f : ℕ → ℕ → ℕ). record m { entry = f }) (fun_ext λ g. fun_ext λ k. ground arith)

pub clear_npte-mem : (s : Slot) (vm : Vm) → (npt_clear_npte s vm).1.mem ≡ write s 0 vm.mem
unfolding npt_clear_npte
clear_npte-mem s vm = elim (Bool-cases (read s vm.mem == 0)) [
  | inl e ↦ rw e (write-zero s vm.mem (==→eq _ _ e))
  | inr e ↦ rw e
]

pub clear_npte-root :
    (s : Slot) (vm : Vm) → (npt_clear_npte s vm).1.instp.ept_root ≡ vm.instp.ept_root
unfolding npt_clear_npte npt_trace_mm_stat_unmap
clear_npte-root s vm = ground arith

pub flush-root : (cpu : Cpu) (vm : Vm) → (flush cpu vm).instp.ept_root ≡ vm.instp.ept_root
unfolding flush npt_flush_remote_tlbs
flush-root cpu vm = ap (λ (t : ℕ × ℕ × ℕ). t.0) (flush_loop-tables cpu vm_max_vcpus 0 vm.instp [])

flush_if-tables :
    (cpu : Cpu) (r : Bool × Vm)
    → ((flush_if cpu r).1.mem ≡ r.1.mem) × ((flush_if cpu r).1.instp.ept_root ≡ r.1.instp.ept_root)
flush_if-tables cpu (true, vm) = (unfold flush in refl, flush-root cpu vm)
flush_if-tables cpu (false, vm) = (refl, refl)

invalidate_at-Invalidated :
    (k : Kernel) (cpu : Cpu) (gpa : ℕ) (vm : Vm) {own : Places} (o : Outcome Slot)
    → IsKernel k
    → IsNpt k vm own
    → npt_lookup_gpa k vm.instp gpa npte_page_table false vm.mem ≡ o
    → Invalidated k vm gpa (invalidate_at cpu vm o).1
unfolding npt_lookup_gpa
invalidate_at-Invalidated k cpu gpa vm (fail e m) law tree eq = record {
  cleared = none-Cleared tree (walk-fail _ _ _ _ _ _ _ _ eq);
  same_root = refl;
}
invalidate_at-Invalidated k cpu gpa vm (done s m) law tree eq =
    let found = walk-Reached gpa s m (npt_format-IsFormat k law) tree eq in
    let flushed = flush_if-tables cpu (npt_clear_npte s (bump_seq vm)) in
    record {
      cleared = rw (flushed.0, clear_npte-mem s (bump_seq vm)) (write-Cleared found.1 refl found.2);
      same_root = flushed.1 ∙ clear_npte-root s (bump_seq vm);
    }

-- `npt_invalidate_page` at a host address that is in a memory region: the page of its guest address is not
-- mapped afterwards, nor what else the same entry mapped (a whole 2M block only where a 2M entry mapped the
-- page); every other guest address is mapped as before, and the tables are still a tree at the same root.
pub npt_invalidate_page-Invalidated :
    (k : Kernel) (cpu : Cpu) (addr : ℕ) (vm : Vm) {own : Places}
    → IsKernel k
    → IsNpt k vm own
    → hva_to_gpa vm.instp addr ≢ addr_inval
    → Invalidated k vm (hva_to_gpa vm.instp addr) (npt_invalidate_page k cpu addr vm).1
unfolding npt_invalidate_page npt_lookup_hva
npt_invalidate_page-Invalidated k cpu addr vm law tree n =
    elim (Bool-cases (hva_to_gpa vm.instp addr == addr_inval)) [
      | inl e ↦ absurd (n (==→eq _ _ e))
      | inr e ↦ rw e (invalidate_at-Invalidated k cpu (hva_to_gpa vm.instp addr) vm _ law tree refl)
    ]
