-- ===== src/Mm/Check.antt =====
-- What `check_mem_region` accepts.
use slimvm.Base.{
  ℕ, zero, suc, ◌+◌, ◌%◌, ◌<◌, ◌≡◌, ◌↔◌, inl, inr, refl, false, List, [], ◌∷◌, arith, All, take,
  Bool-cases, page_size, u64_mod, ok,
}
use slimvm.State.{MemRegion, Instance}
use slimvm.Mm.{region_bad, check_regions, check_mem_region}

-- A region as the caller wants it: page-sized, page-aligned in the guest, and not past 2 ^ 64.
pub record IsSane (r : MemRegion) : Type 0 where
  pub size_aligned : r.size % page_size ≡ 0
  pub gpa_aligned : r.gpa % page_size ≡ 0
  pub no_wrap : r.gpa + r.size < u64_mod

-- The fields hold 64-bit values.
pub record IsWord (r : MemRegion) : Type 0 where
  pub hva_word : r.hva < u64_mod
  pub gpa_word : r.gpa < u64_mod
  pub size_word : r.size < u64_mod

region_bad-IsSane : (r : MemRegion) → IsWord r → region_bad r ≡ false → IsSane r
unfolding region_bad
region_bad-IsSane r w h = ground arith

IsSane-region_bad : (r : MemRegion) → IsWord r → IsSane r → region_bad r ≡ false
unfolding region_bad
IsSane-region_bad r w s = ground arith

check_regions-All :
    (n : ℕ) (rs : List MemRegion)
    → All IsWord rs
    → check_regions n rs ≡ ok tt
    → All IsSane (take n rs)
unfolding check_regions
check_regions-All zero rs w h = tt
check_regions-All (suc n) [] w h = tt
check_regions-All (suc n) (r ∷ rs) w h = elim (Bool-cases (region_bad r)) [
  | inl e ↦ absurd (cc (rw e at h))
  | inr e ↦ (region_bad-IsSane r w.0 e, check_regions-All n rs w.1 (rw e at h))
]

All-check_regions :
    (n : ℕ) (rs : List MemRegion)
    → All IsWord rs
    → All IsSane (take n rs)
    → check_regions n rs ≡ ok tt
unfolding check_regions
All-check_regions zero rs w h = refl
All-check_regions (suc n) [] w h = refl
All-check_regions (suc n) (r ∷ rs) w h =
    rw (IsSane-region_bad r w.0 h.0) (All-check_regions n rs w.1 h.1)

-- `check_mem_region` succeeds exactly when each of the first `num` regions is page-sized,
-- page-aligned in the guest, and ends below 2 ^ 64.
pub check_mem_region_iff :
    (instp : Instance) (num : ℕ)
    → All IsWord instp.memp
    → (check_mem_region instp num ≡ ok tt) ↔ All IsSane (take num instp.memp)
unfolding check_mem_region
check_mem_region_iff instp num w =
    (check_regions-All num instp.memp w, All-check_regions num instp.memp w)
