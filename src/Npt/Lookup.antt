-- ===== src/Npt/Lookup.antt =====
-- The parts of npt.c that read and change single entries: lookups, the statistics, the choice of the
-- page size.
use slimvm.Base.{
  ℕ, ◌∷◌, Bool, true, false, not, ◌&&◌, ◌||◌, if◌then◌else◌, ◌==◌, add64, sub64, hpage_size,
  addr_inval, align_down, einval,
}
use slimvm.State.{Instance}
use slimvm.Mm.{hva_to_gpa, gpa_to_hva}
use slimvm.Paging.{Mem, Slot, Outcome, done, fail, read, write, walk}
use slimvm.Vm.{Vm, Page}
use slimvm.Npt.Entry.{Kernel, npt_format, npte_present, is_npte_huge, is_npte_pfnmap, npte_frame}

-- `NPTE_PAGE_TABLE` and `NPTE_PAGE_DIRECTORY`
abbrev pub npte_page_table : ℕ
npte_page_table = 0

abbrev pub npte_page_directory : ℕ
npte_page_directory = 1

unfoldable pub npt_lookup_gpa : Kernel → Instance → ℕ → ℕ → Bool → Mem → Outcome Slot
npt_lookup_gpa k instp gpa level create m =
    walk (npt_format k) 3 (npte_frame (k.sme_clr instp.ept_root)) gpa level create m

unfoldable pub npt_lookup_hva : Kernel → Instance → ℕ → ℕ → Bool → Mem → Outcome Slot
npt_lookup_hva k instp hva level create m =
    let gpa = hva_to_gpa instp hva in
    if gpa == addr_inval then fail einval m else npt_lookup_gpa k instp gpa level create m

-- The counters are 64-bit and wrap.
unfoldable pub npt_trace_mm_stat_map : Instance → ℕ → Instance
npt_trace_mm_stat_map instp npte =
    if npte == 0 || is_npte_pfnmap npte
    then instp
    else if is_npte_huge npte
    then record instp { ept_2m_pages = add64 instp.ept_2m_pages 1 }
    else record instp { ept_4k_pages = add64 instp.ept_4k_pages 1 }

unfoldable pub npt_trace_mm_stat_unmap : Instance → ℕ → Instance
npt_trace_mm_stat_unmap instp npte =
    if npte == 0 || is_npte_pfnmap npte
    then instp
    else if is_npte_huge npte
    then record instp { ept_2m_pages = sub64 instp.ept_2m_pages 1 }
    else record instp { ept_4k_pages = sub64 instp.ept_4k_pages 1 }

-- The result says whether there was an entry.
unfoldable pub npt_clear_npte : Slot → Vm → Bool × Vm
unfolding npt_trace_mm_stat_unmap
npt_clear_npte s vm =
    let npte_value = read s vm.mem in
    if npte_value == 0 then (false, vm) else (
      true,
      record vm { instp = npt_trace_mm_stat_unmap vm.instp npte_value; mem = write s 0 vm.mem },
    )

-- At a small entry of a page directory the reference to the page at the table's frame is given back.
unfoldable pub npt_clear_dir : Slot → Vm → Bool × Vm
unfolding npt_trace_mm_stat_unmap
npt_clear_dir s vm =
    let npte_value = read s vm.mem in
    let cleared = record vm { mem = write s 0 vm.mem } in
    let traced = record cleared { instp = npt_trace_mm_stat_unmap vm.instp npte_value } in
    if npte_value == 0
    then (false, vm)
    else if is_npte_pfnmap npte_value
    then (false, cleared)
    else if not (is_npte_huge npte_value)
    then (true, record traced { put_pages = npte_frame npte_value ∷ vm.put_pages })
    else (true, traced)

unfoldable pub mmu_notifier_retry : Instance → ℕ → Bool
mmu_notifier_retry instp seq =
    if not (instp.mmu_notifier_count == 0) then true else not (instp.mmu_notifier_seq == seq)

unfoldable pub check_hugepage_consistency : Instance → ℕ → Bool
check_hugepage_consistency instp gpa =
    let s = gpa_to_hva instp (align_down gpa hpage_size) in
    let e = gpa_to_hva instp (align_down (add64 gpa hpage_size) hpage_size) in
    if s == addr_inval || e == addr_inval then false else sub64 e s == hpage_size

-- The level found at the entry that a lookup for a 2M mapping comes to.
abbrev pub level_at : Outcome Slot → ℕ
level_at (fail _ _) = npte_page_directory
level_at (done s m) =
    if npte_present (read s m) && not (is_npte_huge (read s m))
    then npte_page_table
    else npte_page_directory

unfoldable pub mapping_level : Kernel → Instance → ℕ → Mem → ℕ
mapping_level k instp gpa m =
    if not (check_hugepage_consistency instp gpa)
    then npte_page_table
    else level_at (npt_lookup_gpa k instp gpa npte_page_directory false m)

unfoldable pub is_trans_compoundmap : Page → Bool
is_trans_compoundmap page =
    if not page.trans_compound
    then false
    else if page.anon
    then page.mapcount == 0
    else page.mapcount == page.compound_mapcount

-- With `CONFIG_TRANSPARENT_HUGEPAGE`.
unfoldable pub is_trans_hugepage : Page → Bool
is_trans_hugepage page = if not page.compound then false else page.transhuge_dtor

unfoldable pub npt_is_transparent_hugepage : Page → Bool
unfolding is_trans_compoundmap is_trans_hugepage
npt_is_transparent_hugepage page =
    if not (is_trans_compoundmap page) then false else is_trans_hugepage page
