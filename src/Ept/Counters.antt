-- ===== src/Ept/Counters.antt =====
-- What each operation of ept.c does to the root of the tables and to the two counters by which a fault
-- notices an invalidation.
use slimvm.Base.{
  not, ◌&&◌, align_down, ℕ, zero, suc, ◌-◌, ◌≡◌, ◌⊎◌, inl, inr, refl, ◌∙◌, Bool, true, false,
  Option, some, none, arith, ◌==◌, ltb, if◌then◌else◌, Bool-cases, add64, sub64, hpage_size,
  page_size,
}
use slimvm.State.{Instance}
use slimvm.Paging.{Mem, Slot, Outcome, done, fail, read}
use slimvm.Vm.{Vm, Page}
use slimvm.Ept.Flush.{Cpu}
use slimvm.Ept.Flush.Fields.{tables_of, flush-tables}
use slimvm.Ept.Lookup.{
  page_table, page_directory, ept_lookup_hva, ept_lookup_gpa, ept_trace_mm_stat_map,
  ept_trace_mm_stat_unmap, ept_clear_dir, mmu_notifier_retry,
}
use slimvm.Ept.Entry.{epte_addr, epte_present, is_epte_huge}
use slimvm.Ept.Fault.{
  addr_of, unlock, Target, Choice, choose, release_epte_page, ept_install, install_at, ept_commit,
}
use slimvm.Ept.Notifier.{
  rounds, align_up, begin_invalidation, flush, unmap, flush_if, bump_seq, invalidate_at,
  ept_invalidate_page, clear_round, clear_page_table_loop, ept_clear_page_table, clear_dir_round,
  clear_page_directory_loop, ept_clear_page_directory, count_invalidation, invalidate_range_start,
  invalidate_range_end,
}

abbrev pub counters : Vm → ℕ × ℕ × ℕ
counters vm = tables_of vm.instp

unmap_stat-tables :
    (instp : Instance) (e : ℕ) → tables_of (ept_trace_mm_stat_unmap instp e) ≡ tables_of instp
unfolding ept_trace_mm_stat_unmap
unmap_stat-tables instp e = ground arith

map_stat-tables :
    (instp : Instance) (e : ℕ) → tables_of (ept_trace_mm_stat_map instp e) ≡ tables_of instp
unfolding ept_trace_mm_stat_map
map_stat-tables instp e = ground arith

unmap-counters : (s : Slot) (vm : Vm) → counters (unmap s vm).1 ≡ counters vm
unfolding unmap
unmap-counters s vm = unmap_stat-tables vm.instp (read s vm.mem)

flush_if-counters : (cpu : Cpu) (r : Bool × Vm) → counters (flush_if cpu r).1 ≡ counters r.1
unfolding flush
flush_if-counters cpu (true, vm) = flush-tables cpu vm.instp
flush_if-counters cpu (false, vm) = refl

clear_round-counters :
    (s e : ℕ) (vm : Vm) (o : Outcome Slot) → counters (clear_round s e vm o).1 ≡ counters vm
clear_round-counters s e vm (fail _ m) = refl
clear_round-counters s e vm (done p m) = ground (arith, unmap-counters p vm)

clear_page_table_loop-counters :
    (fuel s e : ℕ) (vm : Vm) → counters (clear_page_table_loop fuel s e vm) ≡ counters vm
unfolding clear_page_table_loop
clear_page_table_loop-counters zero s e vm = refl
clear_page_table_loop-counters (suc fuel) s e vm = elim (Bool-cases (ltb s e)) [
  | inl t ↦
      let o = ept_lookup_hva vm.instp s page_table false vm.mem in
      rw (t, clear_page_table_loop)
        (clear_page_table_loop-counters fuel (clear_round s e vm o).0 e (clear_round s e vm o).1
          ∙ clear_round-counters s e vm o)
  | inr f ↦ rw (f, clear_page_table_loop)
]

clear_dir_round-counters :
    (vm : Vm) (o : Outcome Slot) → counters (clear_dir_round vm o) ≡ counters vm
unfolding ept_clear_dir
clear_dir_round-counters vm (fail _ m) = refl
clear_dir_round-counters vm (done p m) = ground (arith, unmap_stat-tables vm.instp (read p vm.mem))

clear_page_directory_loop-counters :
    (fuel s e : ℕ) (vm : Vm) → counters (clear_page_directory_loop fuel s e vm) ≡ counters vm
unfolding clear_page_directory_loop
clear_page_directory_loop-counters zero s e vm = refl
clear_page_directory_loop-counters (suc fuel) s e vm = elim (Bool-cases (ltb s e)) [
  | inl t ↦
      let o = ept_lookup_hva vm.instp s page_directory false vm.mem in
      rw (t, clear_page_directory_loop)
        (clear_page_directory_loop-counters fuel (add64 s hpage_size) e (clear_dir_round vm o)
          ∙ clear_dir_round-counters vm o)
  | inr f ↦ rw (f, clear_page_directory_loop)
]

pub clear_page_table-counters :
    (start end : ℕ) (vm : Vm) → counters (ept_clear_page_table start end vm) ≡ counters vm
unfolding ept_clear_page_table
clear_page_table-counters start end vm =
    let s = epte_addr start in
    let e = epte_addr (add64 end (page_size - 1)) in
    clear_page_table_loop-counters (rounds s e) s e vm

pub clear_page_directory-counters :
    (start end : ℕ) (vm : Vm) → counters (ept_clear_page_directory start end vm) ≡ counters vm
unfolding ept_clear_page_directory
clear_page_directory-counters start end vm =
    let s = align_up start hpage_size in
    let e = align_down end hpage_size in clear_page_directory_loop-counters (rounds s e) s e vm

pub flush-counters : (cpu : Cpu) (vm : Vm) → counters (flush cpu vm) ≡ counters vm
unfolding flush
flush-counters cpu vm = flush-tables cpu vm.instp

-- The beginning of an invalidation raises the count by one.
pub invalidate_range_start-counters :
    (cpu : Cpu) (start end : ℕ) (vm : Vm)
    → counters (invalidate_range_start cpu start end vm)
      ≡ (vm.instp.ept_root, vm.instp.mmu_notifier_seq, add64 vm.instp.mmu_notifier_count 1)
unfolding invalidate_range_start
invalidate_range_start-counters cpu start end vm =
    let tabled = ept_clear_page_table start end (begin_invalidation vm) in
    let cleared = ept_clear_page_directory start end tabled in
    flush-counters cpu (count_invalidation start end cleared)
    ∙ clear_page_directory-counters start end tabled
    ∙ clear_page_table-counters start end (begin_invalidation vm)

-- Its end raises the sequence and lowers the count.
pub invalidate_range_end-counters :
    (vm : Vm)
    → counters (invalidate_range_end vm)
      ≡ (vm.instp.ept_root, add64 vm.instp.mmu_notifier_seq 1, sub64 vm.instp.mmu_notifier_count 1)
unfolding invalidate_range_end
invalidate_range_end-counters vm = refl

-- The invalidation of one page raises the sequence by one, or not at all.
pub ept_invalidate_page-counters :
    (cpu : Cpu) (addr : ℕ) (vm : Vm)
    → (counters (ept_invalidate_page cpu addr vm).1 ≡ counters vm)
      ⊎ (counters (ept_invalidate_page cpu addr vm).1 ≡ counters (bump_seq vm))
unfolding ept_invalidate_page
ept_invalidate_page-counters cpu addr vm = go (ept_lookup_hva vm.instp addr page_table false vm.mem)
  where
    go :
        (o : Outcome Slot)
        → (counters (invalidate_at cpu vm o).1 ≡ counters vm)
          ⊎ (counters (invalidate_at cpu vm o).1 ≡ counters (bump_seq vm))
    go (fail e m) = inl refl
    go (done s m) =
        inr (flush_if-counters cpu (unmap s (bump_seq vm)) ∙ unmap-counters s (bump_seq vm))

release-counters :
    (p : Option Page) (w : Bool) (vm : Vm) → counters (release_epte_page p w vm) ≡ counters vm
unfolding release_epte_page
release-counters none w vm = refl
release-counters (some p) w vm = refl

unlock-counters : (t : Target) (m : Mem) (vm : Vm) → counters (unlock t m vm) ≡ counters vm
unlock-counters t m vm = release-counters t.page false (record vm { mem = m })

accounted-tables :
    (b : Bool) (instp : Instance) (e : ℕ)
    → tables_of (if b then instp else ept_trace_mm_stat_map instp e) ≡ tables_of instp
accounted-tables true instp e = refl
accounted-tables false instp e = map_stat-tables instp e

install_at-counters :
    (w : Bool) (t : Target) (c : Choice) (vm : Vm) (o : Outcome Slot)
    → counters (install_at w t c vm o) ≡ counters vm
unfolding ept_install
install_at-counters w t c vm (fail e m) = unlock-counters t m vm
install_at-counters w t c vm (done s m) =
    elim (Bool-cases
      (epte_present (read s m) && is_epte_huge (read s m) && not (c.level == page_directory))) [
        | inl e ↦ rw e (unlock-counters t m vm)
        | inr e ↦ rw e (
            release-counters t.page w _
            ∙ accounted-tables (epte_present (read s m)) vm.instp (addr_of c))
      ]

-- A fault under the lock leaves the counters alone.
pub ept_commit-counters :
    (seq : ℕ) (w : Bool) (gpa : ℕ) (t : Target) (vm : Vm)
    → counters (ept_commit seq w gpa t vm) ≡ counters vm
unfolding ept_commit
ept_commit-counters seq w gpa t vm = elim (Bool-cases (mmu_notifier_retry vm.instp seq)) [
  | inl e ↦ rw e (unlock-counters t vm.mem vm)
  | inr e ↦
      let c = choose vm.instp gpa t vm.mem in
      rw e (install_at-counters w t c vm (ept_lookup_gpa vm.instp gpa c.level true vm.mem))
]
