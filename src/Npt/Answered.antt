-- ===== src/Npt/Answered.antt =====
-- What `svm_do_npt_violation` (npt.c) is to do for each answer of the host.
use slimvm.Base.{
  ℕ, ◌≡◌, Bool, true, false, ◌||◌, if◌then◌else◌, none, some, Ret, ok, err, Errno, enomem,
  erestartsys, ebusy, efault,
}
use slimvm.Vm.{Vm, Page, Pin, pinned, unpinned, refused, Host, Vma, CacheMode, mode_wb, mode_uc}
use slimvm.Npt.Entry.{Kernel, npt_flags, npte_type}
use slimvm.Npt.Fault.{Target, choose}
use slimvm.Npt.Tables.{HasFlags}
use slimvm.Npt.Map.{Committed}

-- What pinning the page of a host address gives, by the answers of the host: the fast path is tried for a write.
pub data Pinned (host : Host) (write : Bool) (hva : ℕ) (p : Pin) : Type 0 where
  fast :
      (page : Page)
      → write ≡ true
      → host.get_user_pages_fast hva ≡ some page
      → p ≡ pinned page
      → Pinned host write hva p
  slow_read : write ≡ false → host.get_user_pages write hva ≡ p → Pinned host write hva p
  slow_write :
      write ≡ true
      → host.get_user_pages_fast hva ≡ none
      → host.get_user_pages write hva ≡ p
      → Pinned host write hva p

-- The page has no `struct page` that can be pinned, so that the area is asked for the frame.
abbrev pub has_no_page : Pin → Bool
has_no_page unpinned = true
has_no_page (pinned page) = false
has_no_page (refused enomem) = false
has_no_page (refused erestartsys) = false
has_no_page (refused ebusy) = false
has_no_page (refused _) = true

-- Memory that is not plainly cacheable is mapped uncached.
abbrev pub area_mode : Vma → CacheMode
area_mode vma = if vma.pwt || vma.pcd then mode_uc else mode_wb

-- The fault succeeds, and leaves what a commit of the target leaves.
pub record Landed (k : Kernel) (vm : Vm) (gpa : ℕ) (t : Target) (out : Ret (Unit {0}) × Vm)
    : Type 0 where
  pub succeeds : out.0 ≡ ok tt
  pub fits : HasFlags t
  pub committed : Committed k vm (choose k vm.instp gpa t vm.mem) gpa out.1

-- A fault of an address that is in a region, at `hva` in the host.
pub record Answered (k : Kernel) (host : Host) (write : Bool) (gpa hva : ℕ) (vm : Vm)
    (out : Ret (Unit {0}) × Vm) : Type 0 where
  pub given :
      (page : Page)
      → Pinned host write hva (pinned page)
      → Landed k vm gpa
          (record {
            pfn = page.pfn;
            page = some page;
            flags = npt_flags k write false (npte_type mode_wb);
          })
          out
  pub mapped :
      (p : Pin) (vma : Vma) (pfn : ℕ)
      → Pinned host write hva p
      → has_no_page p ≡ true
      → host.find_vma hva ≡ some vma
      → vma.io_or_pfnmap ≡ true
      → vma.follow_pfn hva ≡ ok pfn
      → Landed k vm gpa
          (record {
            pfn = pfn;
            page = none;
            flags = npt_flags k write true (npte_type (area_mode vma));
          })
          out
  pub no_memory : Pinned host write hva (refused enomem) → out ≡ (err enomem, vm)
  pub interrupted : Pinned host write hva (refused erestartsys) → out ≡ (ok tt, vm)
  pub busy : Pinned host write hva (refused ebusy) → out ≡ (ok tt, vm)
  pub no_area :
      (p : Pin)
      → Pinned host write hva p
      → has_no_page p ≡ true
      → host.find_vma hva ≡ none
      → out ≡ (err efault, vm)
  pub plain_area :
      (p : Pin) (vma : Vma)
      → Pinned host write hva p
      → has_no_page p ≡ true
      → host.find_vma hva ≡ some vma
      → vma.io_or_pfnmap ≡ false
      → out ≡ (err efault, vm)
  pub no_frame :
      (p : Pin) (vma : Vma) (e : Errno)
      → Pinned host write hva p
      → has_no_page p ≡ true
      → host.find_vma hva ≡ some vma
      → vma.io_or_pfnmap ≡ true
      → vma.follow_pfn hva ≡ err e
      → out ≡ (err e, vm)
