-- ===== src/Npt/Fault.antt =====
-- The fault path of npt.c. `npt_set_npte` is split where it takes `ept_lock`: what it does before, with the
-- host, and what it does under the lock.
use slimvm.Base.{
  ℕ, ◌+◌, ◌*◌, ◌/◌, ◌%◌, Bool, true, false, not, ◌&&◌, if◌then◌else◌, ◌==◌, Option, none, some, ◌∷◌,
  addr_inval, page_size, u64_mod, Ret, ok, err, enomem, erestartsys, ebusy, efault, einval,
}
use slimvm.State.{Instance}
use slimvm.Mm.{gpa_to_hva}
use slimvm.Paging.{Mem, Slot, Outcome, done, fail, read, write}
use slimvm.Vm.{Vm, Page, Pin, pinned, refused, Host, Vma, CacheMode, mode_wb, mode_wc, mode_uc}
use slimvm.Npt.Entry.{
  Kernel, npt_flags, npte_type, or_ps, npte_present, is_npte_huge, pgprot2cachemode,
}
use slimvm.Npt.Lookup.{
  npte_page_table, npte_page_directory, npt_lookup_gpa, npt_trace_mm_stat_map, mmu_notifier_retry,
  mapping_level, npt_is_transparent_hugepage,
}

abbrev pin_or : Option Page → Pin → Pin
pin_or (some p) other = pinned p
pin_or none other = other

-- The fast path is tried for a write only.
unfoldable pub npt_pin_user_page : Host → Bool → ℕ → Pin
npt_pin_user_page host write hva =
    pin_or (if write then host.get_user_pages_fast hva else none) (host.get_user_pages write hva)

-- A frame and the memory type it is to be mapped with.
abbrev follow_in : Vma → ℕ → Ret (ℕ × CacheMode)
follow_in vma hva = elim (vma.follow_pfn hva) [
  | err e ↦ err e
  | ok pfn ↦ ok (
    pfn,
    elim (pgprot2cachemode vma.pwt vma.pcd vma.pat) [
      | mode_wb ↦ mode_wb
      | mode_wc ↦ mode_wc
      | _ ↦ mode_uc
    ],
  )
]

unfoldable pub npt_follow_pfn : Host → ℕ → Ret (ℕ × CacheMode)
unfolding pgprot2cachemode
npt_follow_pfn host hva = elim (host.find_vma hva) [
  | none ↦ err efault
  | some vma ↦ if not vma.io_or_pfnmap then err efault else follow_in vma hva
]

-- What is known when the lock is taken: the frame, the page unless the mapping is `pfnmap`, and the flags.
pub record Target : Type 0 where
  pub pfn : ℕ
  pub page : Option Page
  pub flags : ℕ

pub data Prepared : Type 0 where
  ready : Target → Prepared
  finished : Ret (Unit {0}) → Prepared

abbrev pub target_pfnmap : Kernel → Bool → Ret (ℕ × CacheMode) → Prepared
target_pfnmap k make_write (err e) = finished (err e)
target_pfnmap k make_write (ok (pfn, mtype)) =
    ready (record { pfn = pfn; page = none; flags = npt_flags k make_write true (npte_type mtype) })

abbrev pub prepare_from : Kernel → Host → Bool → ℕ → Pin → Prepared
prepare_from k host make_write hva (pinned page) = ready (record {
  pfn = page.pfn;
  page = some page;
  flags = npt_flags k make_write false (npte_type mode_wb);
})
prepare_from k host make_write hva (refused enomem) = finished (err enomem)
prepare_from k host make_write hva (refused erestartsys) = finished (ok tt)
prepare_from k host make_write hva (refused ebusy) = finished (ok tt)
prepare_from k host make_write hva _ = target_pfnmap k make_write (npt_follow_pfn host hva)

-- `npt_set_npte` up to the lock.
unfoldable pub npt_prepare : Kernel → Host → Bool → ℕ → Prepared
unfolding npt_pin_user_page npt_follow_pfn
npt_prepare k host make_write hva =
    prepare_from k host make_write hva (npt_pin_user_page host make_write hva)

unfoldable pub release_npte_page : Option Page → Bool → Vm → Vm
release_npte_page none write vm = vm
release_npte_page (some page) write vm = record vm {
  put_pages = page.pfn ∷ vm.put_pages;
  dirty_pages = if write && not page.reserved then page.pfn ∷ vm.dirty_pages else vm.dirty_pages;
}

abbrev pub wants_huge : Kernel → Instance → ℕ → Option Page → Mem → Bool
wants_huge k instp gpa none m = false
wants_huge k instp gpa (some page) m =
    npt_is_transparent_hugepage page && mapping_level k instp gpa m == npte_page_directory

abbrev head_of : Option Page → ℕ → ℕ
head_of none pfn = pfn
head_of (some page) pfn = page.head_pfn

-- The frame, the flags and the level for the entry, once the size is chosen.
pub record Choice : Type 0 where
  pub pfn : ℕ
  pub flags : ℕ
  pub level : ℕ

unfoldable pub choose : Kernel → Instance → ℕ → Target → Mem → Choice
choose k instp gpa t m =
    if wants_huge k instp gpa t.page m
    then record { pfn = head_of t.page t.pfn; flags = or_ps t.flags; level = npte_page_directory }
    else record { pfn = t.pfn; flags = t.flags; level = npte_page_table }

-- `(pfn << PAGE_SHIFT) | flags`, which is accounted, and the entry that is written.
abbrev pub plain : Choice → ℕ
plain c = c.pfn * page_size % u64_mod + c.flags

abbrev pub npte_of : Kernel → Choice → ℕ
npte_of k c = k.sme_set (plain c)

-- The label `npt_unlock`, which marks a page that was pinned for a write dirty too.
abbrev pub unlock : Bool → Target → Mem → Vm → Vm
unlock make_write t m vm = release_npte_page t.page make_write (record vm { mem = m })

-- The write, and the accounting of an entry that was absent.
unfoldable pub npt_install : Kernel → Bool → Target → Choice → Slot → Mem → Vm → Vm
npt_install k make_write t c s m vm =
    let old = read s m in
    let instp = if npte_present old then vm.instp else npt_trace_mm_stat_map vm.instp (plain c) in
    if npte_present old && is_npte_huge old && not (c.level == npte_page_directory)
    then unlock make_write t m vm
    else release_npte_page t.page make_write
        (record vm { instp = instp; mem = write s (npte_of k c) m })

abbrev pub install_at : Kernel → Bool → Target → Choice → Vm → Outcome Slot → Vm
install_at k make_write t c vm (fail e m) = unlock make_write t m vm
install_at k make_write t c vm (done s m) = npt_install k make_write t c s m vm

-- `npt_set_npte` under the lock. `seq` is what `mmu_notifier_seq` was before the page was pinned.
unfoldable pub npt_commit : Kernel → ℕ → Bool → ℕ → Target → Vm → Vm
unfolding npt_install choose release_npte_page
npt_commit k seq make_write gpa t vm =
    if mmu_notifier_retry vm.instp seq
    then unlock make_write t vm.mem vm
    else (let c = choose k vm.instp gpa t vm.mem in
        install_at k make_write t c vm (npt_lookup_gpa k vm.instp gpa c.level true vm.mem))

abbrev pub commit_prepared : Kernel → ℕ → Bool → ℕ → Prepared → Vm → Ret (Unit {0}) × Vm
commit_prepared k seq make_write gpa (finished r) vm = (r, vm)
commit_prepared k seq make_write gpa (ready t) vm = (ok tt, npt_commit k seq make_write gpa t vm)

-- With no other thread between the two parts.
unfoldable pub npt_set_npte : Kernel → Host → Bool → ℕ → ℕ → Vm → Ret (Unit {0}) × Vm
unfolding npt_prepare npt_commit
npt_set_npte k host make_write gpa hva vm =
    commit_prepared k vm.instp.mmu_notifier_seq make_write gpa (npt_prepare k host make_write hva)
      vm

-- `fault_flags & SVM_NPT_FAULT_WRITE`
abbrev pub is_write_fault : ℕ → Bool
is_write_fault fault_flags = fault_flags / 2 % 2 == 1

unfoldable pub svm_do_npt_violation : Kernel → Host → ℕ → ℕ → Vm → Ret (Unit {0}) × Vm
unfolding npt_set_npte
svm_do_npt_violation k host gpa fault_flags vm =
    let hva = gpa_to_hva vm.instp gpa in
    if hva == addr_inval
    then (err einval, vm)
    else npt_set_npte k host (is_write_fault fault_flags) gpa hva vm
