-- ===== src/Ept/Entry.antt =====
-- The bits of an EPT entry (ept.c). A page's address has no bits below 2 ^ 12, and the flags of one entry
-- are distinct bits, so `|` is a sum here; a test of a bit is a division and a remainder.
use slimvm.Base.{
  ℕ, ◌+◌, ◌*◌, ◌/◌, ◌%◌, ◌^◌, ◌<◌, ◌≡◌, refl, Bool, true, false, not, ◌==◌, arith, page_size,
}
use slimvm.Paging.{Format, is_huge}
use slimvm.Paging.Tree.{IsFormat}
use slimvm.Vm.{CacheMode, mode_wb, mode_wc, mode_uc_minus, mode_uc}

-- `epte_addr`, and the frame of the table at `epte_page_vaddr`.
abbrev pub epte_addr : ℕ → ℕ
epte_addr epte = epte / page_size * page_size

abbrev pub epte_frame : ℕ → ℕ
epte_frame epte = epte / page_size

-- `epte_present` (any of the bits of `__EPTE_FULL`) and `is_epte_huge` (`__EPTE_SZ`)
abbrev pub epte_present : ℕ → Bool
epte_present epte = not (epte % 8 == 0)

abbrev pub is_epte_huge : ℕ → Bool
is_epte_huge = is_huge

-- `__EPTE_PFNMAP` and `__EPTE_A`
abbrev pub is_epte_pfnmap : ℕ → Bool
is_epte_pfnmap epte = epte / 2048 % 2 == 1

abbrev pub is_epte_accessed : ℕ → Bool
is_epte_accessed epte = epte / 256 % 2 == 1

abbrev pub epte_full : ℕ
epte_full = 7

abbrev pub epte_sz : ℕ
epte_sz = 128

abbrev pub bit_if : Bool → ℕ → ℕ
bit_if true n = n
bit_if false n = 0

-- The `EPTE_TYPE_*` numbers for the three types that the fault path uses.
unfoldable pub epte_type : CacheMode → ℕ
epte_type mode_wb = 6
epte_type mode_wc = 1
epte_type _ = 0

unfoldable pub ept_flags : Bool → Bool → ℕ → Bool → ℕ
ept_flags write pfnmap mtype ad_bits =
    (0x01
      + 0x04
      + 0x40
      + mtype % 8 * 8
      + bit_if write 0x02
      + bit_if pfnmap 0x800
      + bit_if ad_bits (0x100 + bit_if write 0x200))
    % page_size

-- `__pte2cachemode_tbl` by the bits `_PAGE_PWT` and `_PAGE_PCD`; `_PAGE_PAT` makes no difference in it,
-- and the early return for no bits gives 0, `_PAGE_CACHE_MODE_WB`.
unfoldable pub pgprot2cachemode : Bool → Bool → Bool → CacheMode
pgprot2cachemode false false pat = mode_wb
pgprot2cachemode true false pat = mode_uc_minus
pgprot2cachemode false true pat = mode_uc_minus
pgprot2cachemode true true pat = mode_uc

-- How ept.c reads an entry on a walk, and the entry that it writes for a new table.
abbrev pub ept_format : Format
ept_format = record {
  frames = 2 ^ 52;
  present = epte_present;
  link = λ f. f * page_size + epte_full;
  follow = epte_frame;
}

pub ept_format-IsFormat : IsFormat ept_format
ept_format-IsFormat = record {
  zero_absent = refl;
  link_present = λ f h. ground arith;
  link_table = λ f h. ground arith;
  follow_link = λ f h. omega arith;
}

-- The flags leave the address bits alone, are never empty, and are those of a small page.
pub ept_flags-bounds :
    (write pfnmap : Bool) (c : CacheMode) (ad_bits : Bool)
    → (ept_flags write pfnmap (epte_type c) ad_bits < page_size)
      × (epte_present (ept_flags write pfnmap (epte_type c) ad_bits) ≡ true)
      × (is_epte_huge (ept_flags write pfnmap (epte_type c) ad_bits) ≡ false)
      × (is_epte_pfnmap (ept_flags write pfnmap (epte_type c) ad_bits) ≡ pfnmap)
      × (is_epte_accessed (ept_flags write pfnmap (epte_type c) ad_bits) ≡ ad_bits)
unfolding ept_flags epte_type
ept_flags-bounds true true c true = ground arith
ept_flags-bounds true true c false = ground arith
ept_flags-bounds true false c true = ground arith
ept_flags-bounds true false c false = ground arith
ept_flags-bounds false true c true = ground arith
ept_flags-bounds false true c false = ground arith
ept_flags-bounds false false c true = ground arith
ept_flags-bounds false false c false = ground arith
