-- ===== src/Npt/Entry.antt =====
-- The bits of an NPT entry (npt.c). As in the EPT's entries `|` of distinct bits is a sum, and a test of a
-- bit is a division and a remainder. Memory encryption (SME) marks an address with a bit of its own, by
-- `__sme_set` and `__sme_clr` of the kernel, which are parameters.
use slimvm.Base.{
  ℕ, ◌+◌, ◌*◌, ◌/◌, ◌%◌, ◌<◌, ◌≡◌, refl, Bool, true, false, if◌then◌else◌, ◌==◌, arith, page_size,
}
use slimvm.Paging.{Format, is_huge}
use slimvm.Paging.Tree.{IsFormat}
use slimvm.Vm.{CacheMode, mode_wb, mode_wc, mode_uc_minus, mode_uc}

-- What the kernel gives: the encryption mask's operations with the number of frames below the mask's bit, the
-- bits of a cache mode in an entry (among `_PAGE_PWT`, `_PAGE_PCD` and `_PAGE_PAT`), and whether the
-- processor keeps accessed and dirty bits.
pub record Kernel : Type 0 where
  pub frames : ℕ
  pub sme_set : ℕ → ℕ
  pub sme_clr : ℕ → ℕ
  pub cachemode2protval : ℕ → ℕ
  pub ad_bits : Bool

-- The documented behaviour of the mask: it has no bits within a page, and an address below its bit is not
-- changed by setting and clearing it.
pub record IsKernel (k : Kernel) : Type 0 where
  pub set_low : (x : ℕ) → k.sme_set x % page_size ≡ x % page_size
  pub set_flags :
      (f x : ℕ)
      → f < k.frames
      → x < page_size
      → k.sme_set (f * page_size + x) ≡ k.sme_set (f * page_size) + x
  pub clr_set : (x : ℕ) → x < k.frames * page_size → k.sme_clr (k.sme_set x) ≡ x

-- `npte_addr`, and the frame at `npte_page_vaddr`.
abbrev pub npte_addr : ℕ → ℕ
npte_addr npte = npte / page_size * page_size

abbrev pub npte_frame : ℕ → ℕ
npte_frame npte = npte / page_size

abbrev pub npte_present : ℕ → Bool
npte_present npte = npte % 2 == 1

abbrev pub is_npte_huge : ℕ → Bool
is_npte_huge = is_huge

-- `__NPTE_PFNMAP` and `__NPTE_A`
abbrev pub is_npte_pfnmap : ℕ → Bool
is_npte_pfnmap npte = npte / 512 % 2 == 1

abbrev pub is_npte_accessed : ℕ → Bool
is_npte_accessed npte = npte / 32 % 2 == 1

abbrev pub npte_full : ℕ
npte_full = 7

abbrev pub npdpe_ps : ℕ
npdpe_ps = 128

-- `flags |= __NPDPE_PS`
abbrev pub or_ps : ℕ → ℕ
or_ps flags = if is_npte_huge flags then flags else flags + npdpe_ps

-- The `NPTE_TYPE_*` numbers for the three types that the fault path uses.
unfoldable pub npte_type : CacheMode → ℕ
npte_type mode_wb = 6
npte_type mode_wc = 1
npte_type _ = 0

abbrev bits_if : Bool → ℕ → ℕ
bits_if true n = n
bits_if false n = 0

unfoldable pub npt_flags : Kernel → Bool → Bool → ℕ → ℕ
npt_flags k write pfnmap mtype =
    (0x01
      + 0x04
      + k.cachemode2protval mtype
      + bits_if write 0x02
      + bits_if pfnmap 0x200
      + bits_if k.ad_bits (0x20 + bits_if write 0x40))
    % page_size

-- `__pte2cachemode_tbl_npt` by the bits `_PAGE_PWT` and `_PAGE_PCD`; `_PAGE_PAT` makes no difference in it,
-- and the early return for no bits gives 0, `_PAGE_CACHE_MODE_WB`.
unfoldable pub pgprot2cachemode : Bool → Bool → Bool → CacheMode
pgprot2cachemode false false pat = mode_wb
pgprot2cachemode true false pat = mode_uc_minus
pgprot2cachemode false true pat = mode_uc_minus
pgprot2cachemode true true pat = mode_uc

-- How npt.c reads an entry on a walk, and the entry that it writes for a new table.
abbrev pub npt_format : Kernel → Format
npt_format k = record {
  frames = k.frames;
  present = npte_present;
  link = λ f. npte_addr (k.sme_set (f * page_size)) + npte_full;
  follow = λ e. npte_frame (k.sme_clr e);
}

module _ (k : Kernel) (law : IsKernel k) (f : ℕ) (h : f < k.frames) where
  link_set : npte_addr (k.sme_set (f * page_size)) + npte_full ≡ k.sme_set (f * page_size + 7)
  link_set = omega (arith, law.set_low (f * page_size), law.set_flags f 7 h (omega arith))

  link_low : (npte_addr (k.sme_set (f * page_size)) + npte_full) % page_size ≡ 7
  link_low = omega arith

  follow_link : npte_frame (k.sme_clr (npte_addr (k.sme_set (f * page_size)) + npte_full)) ≡ f
  follow_link = rw (link_set, law.clr_set (f * page_size + 7) (omega arith)) (omega arith)

pub npt_format-IsFormat : (k : Kernel) → IsKernel k → IsFormat (npt_format k)
npt_format-IsFormat k law = record {
  zero_absent = refl;
  link_present = λ f h. ground (arith, link_low k law f h);
  link_table = λ f h. ground (arith, link_low k law f h);
  follow_link = λ f h. follow_link k law f h;
}
