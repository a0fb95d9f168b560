-- ===== src/Mm.antt =====
-- mm.c: the memory regions of an instance, and the translations between host virtual and guest
-- physical addresses. An address is a number below 2 ^ 64; a sum of two wraps. The array `memp` is a
-- list, whose end a loop never reaches while `mem_region_num` is at most its length.
pub mod Translate
pub mod Check
use slimvm.Base.{
  ℕ, zero, suc, ◌+◌, ◌-◌, ◌%◌, ◌&&◌, not, Bool, true, List, [], ◌∷◌, if◌then◌else◌, ltb, leb, ◌==◌,
  add64, page_size, addr_inval, Ret, ok, err, einval,
}
use slimvm.State.{MemRegion, Instance}

-- The three tests in one round of `check_mem_region`.
unfoldable pub region_bad : MemRegion → Bool
region_bad r =
    if not (r.size % page_size == 0)
    then true
    else if not (r.gpa % page_size == 0)
    then true
    else ltb (add64 r.gpa r.size) r.gpa

unfoldable pub check_regions : ℕ → List MemRegion → Ret (Unit {0})
check_regions zero rs = ok tt
check_regions (suc n) [] = ok tt
check_regions (suc n) (r ∷ rs) = if region_bad r then err einval else check_regions n rs

unfoldable pub check_mem_region : Instance → ℕ → Ret (Unit {0})
unfolding check_regions region_bad
check_mem_region instp num = check_regions num instp.memp

-- The test of one region, and the offset added when it passes.
unfoldable pub has_hva : MemRegion → ℕ → Bool
has_hva r hva = leb r.hva hva && ltb hva (add64 r.hva r.size)

unfoldable pub has_gpa : MemRegion → ℕ → Bool
has_gpa r gpa = leb r.gpa gpa && ltb gpa (add64 r.gpa r.size)

unfoldable pub find_hva : ℕ → List MemRegion → ℕ → ℕ
find_hva zero rs hva = addr_inval
find_hva (suc n) [] hva = addr_inval
find_hva (suc n) (r ∷ rs) hva =
    if has_hva r hva then add64 r.gpa (hva - r.hva) else find_hva n rs hva

unfoldable pub find_gpa : ℕ → List MemRegion → ℕ → ℕ
find_gpa zero rs gpa = addr_inval
find_gpa (suc n) [] gpa = addr_inval
find_gpa (suc n) (r ∷ rs) gpa =
    if has_gpa r gpa then add64 r.hva (gpa - r.gpa) else find_gpa n rs gpa

unfoldable pub hva_to_gpa : Instance → ℕ → ℕ
unfolding find_hva has_hva
hva_to_gpa instp hva = find_hva instp.mem_region_num instp.memp hva

unfoldable pub gpa_to_hva : Instance → ℕ → ℕ
unfolding find_gpa has_gpa
gpa_to_hva instp gpa = find_gpa instp.mem_region_num instp.memp gpa
