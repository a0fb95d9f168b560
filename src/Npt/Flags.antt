-- ===== src/Npt/Flags.antt =====
-- The flags that `npt_flags` gives a new entry (npt.c), bit by bit.
use slimvm.Base.{ℕ, ◌+◌, ◌*◌, ◌/◌, ◌%◌, ◌<◌, ◌≡◌, Bool, true, ◌&&◌, arith, ◌==◌, page_size}
use slimvm.Npt.Entry.{Kernel, npt_flags, npte_present, is_npte_pfnmap, is_npte_accessed}

-- The bits of a cache mode in an entry: `_PAGE_PWT` and `_PAGE_PCD` are the bits 3 and 4, `_PAGE_PAT` is
-- bit 7.
pub record IsProtval (v : ℕ) : Type 0 where
  pub pwt_pcd : ℕ
  pub pat : ℕ
  pub pwt_pcd_small : pwt_pcd < 4
  pub pat_small : pat < 2
  pub value : v ≡ pwt_pcd * 8 + pat * 128

abbrev pub IsCacheModes : Kernel → Type 0
IsCacheModes k = (mtype : ℕ) → mtype < 8 → IsProtval (k.cachemode2protval mtype)

-- The bits of a new entry, from the lowest: present, writable, user, the cache mode, accessed, dirty, the cache
-- mode's `_PAGE_PAT`, global, the software bit of a `pfnmap` mapping, and none above.
pub record AreAsked (k : Kernel) (write pfnmap : Bool) (mtype flags : ℕ) : Type 0 where
  pub small : flags < page_size
  pub present : npte_present flags ≡ true
  pub writable : (flags / 2 % 2 == 1) ≡ write
  pub user : (flags / 4 % 2 == 1) ≡ true
  pub pwt_pcd : flags / 8 % 4 ≡ k.cachemode2protval mtype / 8 % 4
  pub accessed : is_npte_accessed flags ≡ k.ad_bits
  pub dirty : (flags / 64 % 2 == 1) ≡ (k.ad_bits && write)
  pub pat : flags / 128 % 2 ≡ k.cachemode2protval mtype / 128 % 2
  pub global : flags / 256 % 2 ≡ 0
  pub software : is_npte_pfnmap flags ≡ pfnmap
  pub unused : flags / 1024 ≡ 0

-- Each bit of a new entry's flags is what was asked for: the entry is present and for the user, writable just as
-- asked, has the bits of the memory type's cache mode, the accessed bit where the processor keeps it and then the
-- dirty bit just for a write, the software bit just for a `pfnmap` mapping, and no other bit.
pub npt_flags-bounds :
    (k : Kernel) (write pfnmap : Bool) (mtype : ℕ)
    → IsCacheModes k
    → mtype < 8
    → AreAsked k write pfnmap mtype (npt_flags k write pfnmap mtype)
unfolding npt_flags
npt_flags-bounds k write pfnmap mtype modes h =
    let v = modes mtype h in
    record {
      small = ground (arith, v.pwt_pcd_small, v.pat_small, v.value);
      present = ground (arith, v.pwt_pcd_small, v.pat_small, v.value);
      writable = ground (arith, v.pwt_pcd_small, v.pat_small, v.value);
      user = ground (arith, v.pwt_pcd_small, v.pat_small, v.value);
      pwt_pcd = ground (arith, v.pwt_pcd_small, v.pat_small, v.value);
      accessed = ground (arith, v.pwt_pcd_small, v.pat_small, v.value);
      dirty = ground (arith, v.pwt_pcd_small, v.pat_small, v.value);
      pat = ground (arith, v.pwt_pcd_small, v.pat_small, v.value);
      global = ground (arith, v.pwt_pcd_small, v.pat_small, v.value);
      software = ground (arith, v.pwt_pcd_small, v.pat_small, v.value);
      unused = ground (arith, v.pwt_pcd_small, v.pat_small, v.value);
    }
