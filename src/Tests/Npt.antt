-- ===== src/Tests/Npt.antt =====
-- Runs of the NPT engine, with an encryption mask at bit 47.
use slimvm.Base.{
  ℕ, ◌+◌, ◌-◌, ◌/◌, ◌%◌, ◌^◌, ◌≡◌, ◌≢◌, refl, true, false, none, some, arith, if◌then◌else◌, ◌==◌,
  addr_inval, add64, page_size,
}
use slimvm.Mm.{hva_to_gpa}
use slimvm.Paging.Tree.{Places, at}
use slimvm.Paging.Hardware.{leaf_from, leaf}
use slimvm.Vm.{Vm, Host, pinned}
use slimvm.Npt.Entry.{Kernel, IsKernel, npt_format, npt_flags, npte_addr}
use slimvm.Npt.Lookup.{mmu_notifier_retry, npt_lookup_hva}
use slimvm.Npt.Fault.{Target, choose, npte_of, npt_commit}
use slimvm.Npt.Notifier.{
  pdpe_addr_end, clear_page_table_loop, npt_clear_page_table, npt_clear_page_directory,
  npt_invalidate_page, clear_range,
}
use slimvm.Npt.Tables.{IsNpt, HasFlags, root_of, npt_leaf}
use slimvm.Npt.Map.{Committed, npt_commit-Committed}
use slimvm.Npt.Invalidate.{Invalidated, npt_invalidate_page-Invalidated}
use slimvm.Npt.Rounds.{Ends, npt_clear_page_table-Ends}
use slimvm.Npt.Destroyed.{LeftAsFound, clear_range-LeftAsFound}
use slimvm.Npt.Flags.{IsCacheModes, AreAsked, npt_flags-bounds}
use slimvm.Npt.Answered.{Answered}
use slimvm.Npt.Live.{npt_commit-maps}
use slimvm.Tests.Data.{guest, vm_of, empty_mem, page, cpu}

abbrev pub c_bit : ℕ
c_bit = 2 ^ 47

abbrev pub kernel : Kernel
kernel = record {
  frames = 2 ^ 35;
  sme_set = λ x. if x / c_bit % 2 == 1 then x else x + c_bit;
  sme_clr = λ x. if x / c_bit % 2 == 1 then x - c_bit else x;
  cachemode2protval = λ t. if t == 1 then 8 else 0;
  ad_bits = true;
}

kernel-IsKernel : IsKernel kernel
kernel-IsKernel = record {
  set_low = λ x. ground arith;
  set_flags = λ f x h l. ground arith;
  clr_set = λ x h. ground arith;
}

kernel-IsCacheModes : IsCacheModes kernel
kernel-IsCacheModes t h = record {
  pwt_pcd = if t == 1 then 1 else 0;
  pat = 0;
  pwt_pcd_small = ground arith;
  pat_small = ground arith;
  value = ground arith;
}

-- The root table is at frame 1.
abbrev empty : Vm
empty = record (vm_of empty_mem) { instp = record guest { ept_root = c_bit + page_size } }

abbrev root_only : Places
root_only f = if f == 1 then some (at 3 0) else none

empty-IsNpt : IsNpt kernel empty root_only
empty-IsNpt = record {
  rooted = refl;
  edge = λ f i p k o h e s. absurd (cc e);
  fresh = ground arith;
}

-- A writable small page, write-back.
abbrev target : Target
target = record { pfn = 9; page = some page; flags = 103 }

target-HasFlags : HasFlags target
target-HasFlags = record { small = ground arith; present = refl }

abbrev mapped : Vm
mapped = npt_commit kernel 0 true 0x1000 target empty

npt_commit-Committed_example :
    Committed kernel empty (choose kernel empty.instp 0x1000 target empty.mem) 0x1000 mapped
npt_commit-Committed_example =
    npt_commit-Committed kernel 0 true 0x1000 target empty kernel-IsKernel empty-IsNpt
      target-HasFlags

empty-leaf : npt_leaf kernel empty 0x1000 ≡ none
unfolding leaf_from
empty-leaf = refl

empty-retry : mmu_notifier_retry empty.instp 0 ≡ false
unfolding mmu_notifier_retry
empty-retry = refl

npt_commit-maps_example :
    leaf (npt_format kernel) mapped.mem (root_of kernel empty) 0x1000
    ≡ some (npte_of kernel (choose kernel empty.instp 0x1000 target empty.mem))
npt_commit-maps_example =
    npt_commit-maps kernel 0 true 0x1000 target empty kernel-IsKernel empty-IsNpt target-HasFlags
      empty-retry (ground arith) (λ e h. absurd (cc (h, empty-leaf))) 0x1000 refl

empty-hva : hva_to_gpa empty.instp 0x40001000 ≡ 0x1000
unfolding hva_to_gpa
empty-hva = refl

empty-region : hva_to_gpa empty.instp 0x40001000 ≢ addr_inval
empty-region e = omega (arith, empty-hva, e)

npt_invalidate_page-Invalidated_example :
    Invalidated kernel empty
      (hva_to_gpa empty.instp 0x40001000)
      (npt_invalidate_page kernel cpu 0x40001000 empty).1
npt_invalidate_page-Invalidated_example =
    npt_invalidate_page-Invalidated kernel cpu 0x40001000 empty kernel-IsKernel empty-IsNpt
      empty-region

-- Another thread that destroys the instance at the release of the lock.
abbrev destroying : ℕ → Vm → Vm
destroying s vm = record vm { instp = record vm.instp { ept_root = 0 } }

npt_clear_page_table-Ends_example :
    Ends kernel destroying
      (npte_addr (add64 0x40003000 (page_size - 1)))
      (npt_clear_page_table kernel destroying 0x40001000 0x40003000 empty)
      (npte_addr 0x40001000)
      (pdpe_addr_end (npte_addr 0x40001000) (npte_addr (add64 0x40003000 (page_size - 1))))
      empty
npt_clear_page_table-Ends_example =
    npt_clear_page_table-Ends kernel destroying 0x40001000 0x40003000 empty (ground arith)

abbrev host : Host
host = record {
  get_user_pages_fast = λ hva. some page;
  get_user_pages = λ w hva. pinned page;
  find_vma = λ hva. none;
  ad_bits = true;
}

npt_flags-bounds_example : AreAsked kernel true false 6 (npt_flags kernel true false 6)
npt_flags-bounds_example = npt_flags-bounds kernel true false 6 kernel-IsCacheModes (ground arith)

-- A range from a page below a boundary of 1G to a page above it, in which the instance is destroyed at the
-- boundary. The tables map nothing, so each round goes on by one page.
abbrev across : Vm
across = clear_range kernel destroying 0x3ffff000 0x40001000 empty

across-root : across.instp.ept_root ≡ 0
unfolding clear_range npt_clear_page_table clear_page_table_loop npt_clear_page_directory
    npt_lookup_hva hva_to_gpa pdpe_addr_end
across-root = refl

clear_range-LeftAsFound_example : LeftAsFound destroying across
clear_range-LeftAsFound_example =
    clear_range-LeftAsFound kernel destroying 0x3ffff000 0x40001000 empty (ground arith) across-root
