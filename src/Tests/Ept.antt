-- ===== src/Tests/Ept.antt =====
-- Runs of the EPT engine.
use slimvm.Base.{◌≡◌, ◌≢◌, refl, true, none, some, [], ◌∷◌, arith, if◌then◌else◌, ◌==◌, addr_inval}
use slimvm.Mm.{hva_to_gpa}
use slimvm.Paging.Hardware.{leaf_from}
use slimvm.Paging.{walk, ensure, new_table, zero_page, write}
use slimvm.Ept.Lookup.{
  ept_lookup_gpa, mmu_notifier_retry, slimvm_is_transparent_hugepage, mapping_level,
  ept_trace_mm_stat_map,
}
use slimvm.Paging.Tree.{Places, at}
use slimvm.Vm.{Vm}
use slimvm.Ept.Fault.{choose, ept_install, release_epte_page, unlock, ept_commit}
use slimvm.Ept.Tables.{IsEpt, HasFlags, ept_leaf}
use slimvm.Ept.Map.{Committed, ept_commit-Committed}
use slimvm.Ept.Race.{run, range_start, range_end, ept_commit-run}
use slimvm.Ept.Invalidate.{Invalidated, ept_invalidate_page-Invalidated}
use slimvm.Ept.Notifier.{ept_invalidate_page, invalidate_range_start}
use slimvm.Ept.Stale.{invalidate_range_start-stale}
use slimvm.State.{Vcpu, Instance, in_guest_mode}
use slimvm.Tests.Data.{vcpu, guest, vm_of, empty_mem, huge_mem, huge_entry, target, cpu}

abbrev empty : Vm
empty = vm_of empty_mem

abbrev root_only : Places
root_only f = if f == 1 then some (at 3 0) else none

empty-IsEpt : IsEpt empty root_only
empty-IsEpt = record {
  rooted = refl;
  edge = λ f i p k o h e s. absurd (cc e);
  fresh = ground arith;
}

target-HasFlags : HasFlags target
target-HasFlags = record { small = ground arith; present = refl; not_huge = refl }

abbrev mapped : Vm
mapped = ept_commit 0 true 0x1000 target empty

ept_commit-Committed_example :
    Committed empty (choose empty.instp 0x1000 target empty.mem) 0x1000 mapped
ept_commit-Committed_example =
    ept_commit-Committed 0 true 0x1000 target empty empty-IsEpt target-HasFlags

ept_commit-run_example :
    ept_commit 0 true 0x1000 target
      (run (range_start cpu 0x40000000 0x40001000 ∷ range_end ∷ []) empty)
    ≡ unlock target
        (run (range_start cpu 0x40000000 0x40001000 ∷ range_end ∷ []) empty).mem
        (run (range_start cpu 0x40000000 0x40001000 ∷ range_end ∷ []) empty)
ept_commit-run_example =
    ept_commit-run (range_start cpu 0x40000000 0x40001000 ∷ range_end ∷ []) true 0x1000 target empty
      (ground arith) (ground arith) (ground arith) (ground arith) (ground arith)

mapped-hva : hva_to_gpa mapped.instp 0x40001000 ≡ 0x1000
unfolding hva_to_gpa ept_commit ept_lookup_gpa walk ensure new_table zero_page write
    mmu_notifier_retry choose ept_install release_epte_page slimvm_is_transparent_hugepage
    mapping_level ept_trace_mm_stat_map
mapped-hva = refl

mapped-region : hva_to_gpa mapped.instp 0x40001000 ≢ addr_inval
mapped-region e = omega (arith, mapped-hva, e)

ept_invalidate_page-Invalidated_example :
    Invalidated mapped
      (hva_to_gpa mapped.instp 0x40001000)
      (ept_invalidate_page cpu 0x40001000 mapped).1
ept_invalidate_page-Invalidated_example =
    ept_invalidate_page-Invalidated cpu 0x40001000 mapped
      (ept_commit-Committed 0 true 0x1000 target empty empty-IsEpt target-HasFlags).tree
      mapped-region

abbrev huge : Vm
huge = vm_of huge_mem

huge-hva : hva_to_gpa huge.instp 0x40000000 ≡ 0
unfolding hva_to_gpa
huge-hva = refl

huge-region : hva_to_gpa huge.instp 0x40000000 ≢ addr_inval
huge-region e = omega (arith, huge-hva, e)

huge-leaf : ept_leaf huge (hva_to_gpa huge.instp 0x40000000) ≡ some huge_entry
unfolding leaf_from hva_to_gpa
huge-leaf = refl

invalidate_range_start-stale_example :
    ept_leaf (invalidate_range_start cpu 0x40000000 0x40100000 huge) 0x1000 ≡ ept_leaf huge 0x1000
invalidate_range_start-stale_example =
    invalidate_range_start-stale cpu huge 0x40000000 0x40100000 huge_entry (ground arith)
      (ground arith) (ground arith) (ground arith) huge-region huge-leaf (ground arith) 0x1000

-- A vcpu in guest mode on another CPU.
abbrev running : Vcpu
running = record vcpu { cpu = some 3; mode = in_guest_mode }

abbrev with_vcpu : Instance
with_vcpu = record guest {
  vcpu_bitmap = λ i. i == 1;
  vcpus = λ i. if i == 1 then some running else none;
}
