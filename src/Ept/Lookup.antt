-- ===== src/Ept/Lookup.antt =====
-- The parts of ept.c that read and change single entries: lookups, the statistics, the choice of the
-- page size.
use slimvm.Base.{
  ℕ, ◌∷◌, Bool, true, false, not, ◌&&◌, ◌||◌, if◌then◌else◌, ◌==◌, add64, sub64, hpage_size,
  addr_inval, align_down, einval,
}
use slimvm.State.{Instance}
use slimvm.Mm.{hva_to_gpa, gpa_to_hva}
use slimvm.Paging.{Mem, Slot, Outcome, done, fail, read, write, walk}
use slimvm.Vm.{Vm, Page}
use slimvm.Ept.Entry.{ept_format, epte_present, is_epte_huge, is_epte_pfnmap, epte_frame}

-- `EPTE_PAGE_TABLE` and `EPTE_PAGE_DIRECTORY`
abbrev pub page_table : ℕ
page_table = 0

abbrev pub page_directory : ℕ
page_directory = 1

unfoldable pub ept_lookup_gpa : Instance → ℕ → ℕ → Bool → Mem → Outcome Slot
ept_lookup_gpa instp gpa level create m =
    walk ept_format 3 (epte_frame instp.ept_root) gpa level create m

unfoldable pub ept_lookup_hva : Instance → ℕ → ℕ → Bool → Mem → Outcome Slot
ept_lookup_hva instp hva level create m =
    let gpa = hva_to_gpa instp hva in
    if gpa == addr_inval then fail einval m else ept_lookup_gpa instp gpa level create m

-- The counters are 64-bit and wrap.
unfoldable pub ept_trace_mm_stat_map : Instance → ℕ → Instance
ept_trace_mm_stat_map instp epte =
    if epte == 0 || is_epte_pfnmap epte
    then instp
    else if is_epte_huge epte
    then record instp { ept_2m_pages = add64 instp.ept_2m_pages 1 }
    else record instp { ept_4k_pages = add64 instp.ept_4k_pages 1 }

unfoldable pub ept_trace_mm_stat_unmap : Instance → ℕ → Instance
ept_trace_mm_stat_unmap instp epte =
    if epte == 0 || is_epte_pfnmap epte
    then instp
    else if is_epte_huge epte
    then record instp { ept_2m_pages = sub64 instp.ept_2m_pages 1 }
    else record instp { ept_4k_pages = sub64 instp.ept_4k_pages 1 }

-- The result says whether there was an entry.
unfoldable pub ept_clear_epte : Slot → Mem → Bool × Mem
ept_clear_epte s m = if read s m == 0 then (false, m) else (true, write s 0 m)

-- At a small entry of a page directory the reference to the page of the table is given back.
unfoldable pub ept_clear_dir : Slot → Vm → Bool × Vm
ept_clear_dir s vm =
    let epte_value = read s vm.mem in
    let cleared = record vm { mem = write s 0 vm.mem } in
    if epte_value == 0
    then (false, vm)
    else if is_epte_pfnmap epte_value
    then (false, cleared)
    else if not (is_epte_huge epte_value)
    then (true, record cleared { put_pages = epte_frame epte_value ∷ vm.put_pages })
    else (true, cleared)

unfoldable pub mmu_notifier_retry : Instance → ℕ → Bool
mmu_notifier_retry instp seq =
    if not (instp.mmu_notifier_count == 0) then true else not (instp.mmu_notifier_seq == seq)

unfoldable pub check_hugepage_consistency : Instance → ℕ → Bool
check_hugepage_consistency instp gpa =
    let s = gpa_to_hva instp (align_down gpa hpage_size) in
    let e = gpa_to_hva instp (align_down (add64 gpa hpage_size) hpage_size) in
    if s == addr_inval || e == addr_inval then false else sub64 e s == hpage_size

-- The level found at the entry that a lookup for a 2M mapping comes to.
abbrev pub level_at : Outcome Slot → ℕ
level_at (fail _ _) = page_directory
level_at (done s m) =
    if epte_present (read s m) && not (is_epte_huge (read s m)) then page_table else page_directory

unfoldable pub mapping_level : Instance → ℕ → Mem → ℕ
mapping_level instp gpa m =
    if not (check_hugepage_consistency instp gpa)
    then page_table
    else level_at (ept_lookup_gpa instp gpa page_directory false m)

unfoldable pub is_trans_compoundmap : Page → Bool
is_trans_compoundmap page =
    if not page.trans_compound
    then false
    else if page.anon
    then page.mapcount == 0
    else page.mapcount == page.compound_mapcount

-- With `CONFIG_TRANSPARENT_HUGEPAGE`. The test is of the head page, which is compound when the page is.
unfoldable pub is_trans_hugepage : Page → Bool
is_trans_hugepage page = if not page.compound then false else page.transhuge_dtor

unfoldable pub slimvm_is_transparent_hugepage : Page → Bool
unfolding is_trans_compoundmap is_trans_hugepage
slimvm_is_transparent_hugepage page =
    if not (is_trans_compoundmap page) then false else is_trans_hugepage page
