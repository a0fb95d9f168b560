-- ===== src/Ept/Fault.antt =====
-- The fault path of ept.c. `ept_set_epte` is split where it takes `ept_lock`: what it does before, with
-- the host, and what it does under the lock, which other threads may come before.
use slimvm.Base.{
  ℕ, ◌+◌, ◌*◌, ◌/◌, ◌%◌, Bool, true, false, not, ◌&&◌, if◌then◌else◌, ◌==◌, Option, none, some, ◌∷◌,
  addr_inval, page_size, u64_mod, Ret, ok, err, enomem, erestartsys, ebusy, efault, einval,
}
use slimvm.State.{Instance}
use slimvm.Mm.{gpa_to_hva}
use slimvm.Paging.{Mem, Slot, Outcome, done, fail, read, write}
use slimvm.Vm.{Vm, Page, Pin, pinned, refused, Host, Vma, CacheMode, mode_wb, mode_wc, mode_uc}
use slimvm.Ept.Entry.{ept_flags, epte_type, epte_sz, epte_present, is_epte_huge, pgprot2cachemode}
use slimvm.Ept.Lookup.{
  page_table, page_directory, ept_lookup_gpa, ept_trace_mm_stat_map, mmu_notifier_retry,
  mapping_level, slimvm_is_transparent_hugepage,
}

abbrev pub pin_or : Option Page → Pin → Pin
pin_or (some p) other = pinned p
pin_or none other = other

-- The fast path is tried for a write only.
unfoldable pub ept_pin_user_page : Host → Bool → ℕ → Pin
ept_pin_user_page host write hva =
    pin_or (if write then host.get_user_pages_fast hva else none) (host.get_user_pages write hva)

-- A frame and the memory type it is to be mapped with.
abbrev pub follow_in : Vma → ℕ → Ret (ℕ × CacheMode)
follow_in vma hva = elim (vma.follow_pfn hva) [
  | err e ↦ err e
  | ok pfn ↦ ok (
    pfn,
    elim (pgprot2cachemode vma.pwt vma.pcd vma.pat) [
      | mode_wb ↦ mode_wb
      | mode_wc ↦ mode_wc
      | _ ↦ mode_uc
    ],
  )
]

unfoldable pub ept_follow_pfn : Host → ℕ → Ret (ℕ × CacheMode)
unfolding pgprot2cachemode
ept_follow_pfn host hva = elim (host.find_vma hva) [
  | none ↦ err efault
  | some vma ↦ if not vma.io_or_pfnmap then err efault else follow_in vma hva
]

-- What is known when the lock is taken. Without a `page` the mapping is `pfnmap`.
pub record Target : Type 0 where
  pub pfn : ℕ
  pub page : Option Page
  pub flags : ℕ

pub data Prepared : Type 0 where
  ready : Target → Prepared
  finished : Ret (Unit {0}) → Prepared

abbrev pub target_pfnmap : Host → Bool → Ret (ℕ × CacheMode) → Prepared
target_pfnmap host make_write (err e) = finished (err e)
target_pfnmap host make_write (ok (pfn, mtype)) = ready (record {
  pfn = pfn;
  page = none;
  flags = ept_flags make_write true (epte_type mtype) host.ad_bits;
})

abbrev pub prepare_from : Host → Bool → ℕ → Pin → Prepared
prepare_from host make_write hva (pinned page) = ready (record {
  pfn = page.pfn;
  page = some page;
  flags = ept_flags make_write false (epte_type mode_wb) host.ad_bits;
})
prepare_from host make_write hva (refused enomem) = finished (err enomem)
prepare_from host make_write hva (refused erestartsys) = finished (ok tt)
prepare_from host make_write hva (refused ebusy) = finished (ok tt)
prepare_from host make_write hva _ = target_pfnmap host make_write (ept_follow_pfn host hva)

-- `ept_set_epte` up to the lock.
unfoldable pub ept_prepare : Host → Bool → ℕ → Prepared
unfolding ept_pin_user_page ept_follow_pfn
ept_prepare host make_write hva =
    prepare_from host make_write hva (ept_pin_user_page host make_write hva)

unfoldable pub release_epte_page : Option Page → Bool → Vm → Vm
release_epte_page none write vm = vm
release_epte_page (some page) write vm = record vm {
  put_pages = page.pfn ∷ vm.put_pages;
  dirty_pages = if write && not page.reserved then page.pfn ∷ vm.dirty_pages else vm.dirty_pages;
}

abbrev pub wants_huge : Instance → ℕ → Option Page → Mem → Bool
wants_huge instp gpa none m = false
wants_huge instp gpa (some page) m =
    slimvm_is_transparent_hugepage page && mapping_level instp gpa m == page_directory

abbrev pub head_of : Option Page → ℕ → ℕ
head_of none pfn = pfn
head_of (some page) pfn = page.head_pfn

-- The frame, the flags and the level for the entry, once the size is chosen.
pub record Choice : Type 0 where
  pub pfn : ℕ
  pub flags : ℕ
  pub level : ℕ

unfoldable pub choose : Instance → ℕ → Target → Mem → Choice
choose instp gpa t m =
    if wants_huge instp gpa t.page m
    then record { pfn = head_of t.page t.pfn; flags = t.flags + epte_sz; level = page_directory }
    else record { pfn = t.pfn; flags = t.flags; level = page_table }

-- `(pfn << PAGE_SHIFT) | flags`
abbrev pub addr_of : Choice → ℕ
addr_of c = c.pfn * page_size % u64_mod + c.flags

-- The label `ept_unlock`.
abbrev pub unlock : Target → Mem → Vm → Vm
unlock t m vm = release_epte_page t.page false (record vm { mem = m })

-- The write, and the accounting of an entry that was absent.
unfoldable pub ept_install : Bool → Target → Choice → Slot → Mem → Vm → Vm
ept_install make_write t c s m vm =
    let old = read s m in
    let instp = if epte_present old then vm.instp else ept_trace_mm_stat_map vm.instp (addr_of c) in
    if epte_present old && is_epte_huge old && not (c.level == page_directory)
    then unlock t m vm
    else release_epte_page t.page make_write
        (record vm { instp = instp; mem = write s (addr_of c) m })

abbrev pub install_at : Bool → Target → Choice → Vm → Outcome Slot → Vm
install_at make_write t c vm (fail e m) = unlock t m vm
install_at make_write t c vm (done s m) = ept_install make_write t c s m vm

-- `ept_set_epte` under the lock. `seq` is what `mmu_notifier_seq` was before the page was pinned.
unfoldable pub ept_commit : ℕ → Bool → ℕ → Target → Vm → Vm
unfolding ept_install choose release_epte_page
ept_commit seq make_write gpa t vm =
    if mmu_notifier_retry vm.instp seq
    then unlock t vm.mem vm
    else (let c = choose vm.instp gpa t vm.mem in
        install_at make_write t c vm (ept_lookup_gpa vm.instp gpa c.level true vm.mem))

abbrev pub commit_prepared : ℕ → Bool → ℕ → Prepared → Vm → Ret (Unit {0}) × Vm
commit_prepared seq make_write gpa (finished r) vm = (r, vm)
commit_prepared seq make_write gpa (ready t) vm = (ok tt, ept_commit seq make_write gpa t vm)

-- With no other thread between the two parts.
unfoldable pub ept_set_epte : Host → Bool → ℕ → ℕ → Vm → Ret (Unit {0}) × Vm
unfolding ept_prepare ept_commit
ept_set_epte host make_write gpa hva vm =
    commit_prepared vm.instp.mmu_notifier_seq make_write gpa (ept_prepare host make_write hva) vm

-- `fault_flags & VMX_EPT_FAULT_WRITE`
abbrev pub is_write_fault : ℕ → Bool
is_write_fault fault_flags = fault_flags / 2 % 2 == 1

unfoldable pub vmx_do_ept_violation : Host → ℕ → ℕ → Vm → Ret (Unit {0}) × Vm
unfolding ept_set_epte
vmx_do_ept_violation host gpa fault_flags vm =
    let hva = gpa_to_hva vm.instp gpa in
    if hva == addr_inval
    then (err einval, vm)
    else ept_set_epte host (is_write_fault fault_flags) gpa hva vm

unfoldable pub vmx_do_ept_misconfig : ℕ → Vm → Outcome Slot
vmx_do_ept_misconfig gpa vm = ept_lookup_gpa vm.instp gpa page_table false vm.mem
