-- ===== src/Vm.antt =====
-- What the page-table engines work on: an instance with the memory of its tables, and what they do to
-- the pages of the host. Also the answers of the host's memory management, which is not modelled: each
-- is a parameter.
use slimvm.Base.{ℕ, Bool, Option, List, Ret, Errno}
use slimvm.State.{Instance}
use slimvm.Paging.{Mem}

-- `put_pages` are the page references given back by `put_page` (named by frame), newest first, and
-- `dirty_pages` the pages marked by `SetPageDirty`.
pub record Vm : Type 0 where
  pub instp : Instance
  pub mem : Mem
  pub put_pages : List ℕ
  pub dirty_pages : List ℕ

-- `struct page`, as far as the engines look at it. `mapcount` and `compound_mapcount` stand for the
-- kernel's counters, which start at -1, plus one.
pub record Page : Type 0 where
  pub pfn : ℕ
  pub head_pfn : ℕ
  pub reserved : Bool
  pub trans_compound : Bool
  pub anon : Bool
  pub mapcount : ℕ
  pub compound_mapcount : ℕ
  pub compound : Bool
  pub transhuge_dtor : Bool

-- What `get_user_pages_unlocked` returns for one page: the page, no page, or an error.
pub data Pin : Type 0 where
  pinned : Page → Pin
  unpinned : Pin
  refused : Errno → Pin

-- The cache modes of the kernel.
pub data CacheMode : Type 0 where
  mode_wb mode_wc mode_uc_minus mode_uc mode_wt mode_wp : CacheMode

-- `struct vm_area_struct`: whether `VM_IO` or `VM_PFNMAP` is set, the three cache bits of
-- `vm_page_prot`, and what `follow_pfn` answers in it.
pub record Vma : Type 0 where
  pub io_or_pfnmap : Bool
  pub pwt : Bool
  pub pcd : Bool
  pub pat : Bool
  pub follow_pfn : ℕ → Ret ℕ

-- The host during one fault. `ad_bits` is the engine's test for accessed and dirty bits.
pub record Host : Type 0 where
  pub get_user_pages_fast : ℕ → Option Page
  pub get_user_pages : Bool → ℕ → Pin
  pub find_vma : ℕ → Option Vma
  pub ad_bits : Bool
