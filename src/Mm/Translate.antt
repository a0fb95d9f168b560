-- ===== src/Mm/Translate.antt =====
-- The two translations of mm.c: where they land, and that they undo one another.
use slimvm.Base.{
  ℕ, zero, suc, ◌+◌, ◌-◌, ◌≤◌, ◌<◌, ◌≡◌, ◌≢◌, ◌⊎◌, inl, inr, refl, true, false, List, [], ◌∷◌,
  arith, All, take, Bool-cases, add64, addr_inval, u64_mod,
}
use slimvm.State.{MemRegion, Instance}
use slimvm.Mm.{has_hva, has_gpa, find_hva, find_gpa, hva_to_gpa, gpa_to_hva}

-- Neither range of a region reaches the end of the address space, where `addr_inval` lies.
pub record Fits (r : MemRegion) : Type 0 where
  pub hva_fits : r.hva + r.size < u64_mod
  pub gpa_fits : r.gpa + r.size < u64_mod

abbrev pub HvaApart : MemRegion → MemRegion → Type 0
HvaApart r s = (r.hva + r.size ≤ s.hva) ⊎ (s.hva + s.size ≤ r.hva)

abbrev pub GpaApart : MemRegion → MemRegion → Type 0
GpaApart r s = (r.gpa + r.size ≤ s.gpa) ⊎ (s.gpa + s.size ≤ r.gpa)

abbrev pub Pairwise : (MemRegion → MemRegion → Type 0) → List MemRegion → Type 0
Pairwise R [] = Unit
Pairwise R (r ∷ rs) = All (R r) rs × Pairwise R rs

-- The regions in force: they fit, and overlap neither in the host nor in the guest.
pub record IsLayout (rs : List MemRegion) : Type 0 where
  pub fits : All Fits rs
  pub hva_apart : Pairwise HvaApart rs
  pub gpa_apart : Pairwise GpaApart rs

-- A region's own test and the sum that follows it, in both directions.
has_gpa-has_hva :
    (r : MemRegion) (gpa : ℕ)
    → Fits r
    → has_gpa r gpa ≡ true
    → (has_hva r (add64 r.hva (gpa - r.gpa)) ≡ true)
      × (add64 r.gpa (add64 r.hva (gpa - r.gpa) - r.hva) ≡ gpa)
unfolding has_gpa has_hva
has_gpa-has_hva r gpa f h = ground arith

has_hva-has_gpa :
    (r : MemRegion) (hva : ℕ)
    → Fits r
    → has_hva r hva ≡ true
    → (has_gpa r (add64 r.gpa (hva - r.hva)) ≡ true)
      × (add64 r.hva (add64 r.gpa (hva - r.hva) - r.gpa) ≡ hva)
unfolding has_gpa has_hva
has_hva-has_gpa r hva f h = ground arith

-- What one region translates another region's test refuses.
other-has_hva :
    (r s : MemRegion) (gpa : ℕ)
    → Fits r
    → Fits s
    → HvaApart r s
    → has_gpa s gpa ≡ true
    → has_hva r (add64 s.hva (gpa - s.gpa)) ≡ false
unfolding has_gpa has_hva
other-has_hva r s gpa fr fs (inl a) h = ground arith
other-has_hva r s gpa fr fs (inr a) h = ground arith

other-has_gpa :
    (r s : MemRegion) (hva : ℕ)
    → Fits r
    → Fits s
    → GpaApart r s
    → has_hva s hva ≡ true
    → has_gpa r (add64 s.gpa (hva - s.hva)) ≡ false
unfolding has_gpa has_hva
other-has_gpa r s hva fr fs (inl a) h = ground arith
other-has_gpa r s hva fr fs (inr a) h = ground arith

rest-has_hva :
    (r : MemRegion) (n : ℕ) (rs : List MemRegion) (gpa : ℕ)
    → Fits r
    → All Fits (take n rs)
    → All (HvaApart r) (take n rs)
    → find_gpa n rs gpa ≢ addr_inval
    → has_hva r (find_gpa n rs gpa) ≡ false
unfolding find_gpa
rest-has_hva r zero rs gpa f fs a h = absurd (h refl)
rest-has_hva r (suc n) [] gpa f fs a h = absurd (h refl)
rest-has_hva r (suc n) (s ∷ rs) gpa f fs a h = elim (Bool-cases (has_gpa s gpa)) [
  | inl e ↦ rw e (other-has_hva r s gpa f fs.0 a.0 e)
  | inr e ↦ rw e (rest-has_hva r n rs gpa f fs.1 a.1 (rw e at h))
]

rest-has_gpa :
    (r : MemRegion) (n : ℕ) (rs : List MemRegion) (hva : ℕ)
    → Fits r
    → All Fits (take n rs)
    → All (GpaApart r) (take n rs)
    → find_hva n rs hva ≢ addr_inval
    → has_gpa r (find_hva n rs hva) ≡ false
unfolding find_hva
rest-has_gpa r zero rs hva f fs a h = absurd (h refl)
rest-has_gpa r (suc n) [] hva f fs a h = absurd (h refl)
rest-has_gpa r (suc n) (s ∷ rs) hva f fs a h = elim (Bool-cases (has_hva s hva)) [
  | inl e ↦ rw e (other-has_gpa r s hva f fs.0 a.0 e)
  | inr e ↦ rw e (rest-has_gpa r n rs hva f fs.1 a.1 (rw e at h))
]

find_hva-find_gpa :
    (n : ℕ) (rs : List MemRegion) (gpa : ℕ)
    → All Fits (take n rs)
    → Pairwise HvaApart (take n rs)
    → find_gpa n rs gpa ≢ addr_inval
    → find_hva n rs (find_gpa n rs gpa) ≡ gpa
unfolding find_gpa find_hva
find_hva-find_gpa zero rs gpa f a h = absurd (h refl)
find_hva-find_gpa (suc n) [] gpa f a h = absurd (h refl)
find_hva-find_gpa (suc n) (r ∷ rs) gpa f a h = elim (Bool-cases (has_gpa r gpa)) [
  | inl e ↦ rw (e, (has_gpa-has_hva r gpa f.0 e).0) (has_gpa-has_hva r gpa f.0 e).1
  | inr e ↦
      rw (e, rest-has_hva r n rs gpa f.0 f.1 a.0 (rw e at h))
        (find_hva-find_gpa n rs gpa f.1 a.1 (rw e at h))
]

find_gpa-find_hva :
    (n : ℕ) (rs : List MemRegion) (hva : ℕ)
    → All Fits (take n rs)
    → Pairwise GpaApart (take n rs)
    → find_hva n rs hva ≢ addr_inval
    → find_gpa n rs (find_hva n rs hva) ≡ hva
unfolding find_gpa find_hva
find_gpa-find_hva zero rs hva f a h = absurd (h refl)
find_gpa-find_hva (suc n) [] hva f a h = absurd (h refl)
find_gpa-find_hva (suc n) (r ∷ rs) hva f a h = elim (Bool-cases (has_hva r hva)) [
  | inl e ↦ rw (e, (has_hva-has_gpa r hva f.0 e).0) (has_hva-has_gpa r hva f.0 e).1
  | inr e ↦
      rw (e, rest-has_gpa r n rs hva f.0 f.1 a.0 (rw e at h))
        (find_gpa-find_hva n rs hva f.1 a.1 (rw e at h))
]

-- Over regions that fit and do not overlap, `hva_to_gpa` undoes `gpa_to_hva` at every guest address
-- that the latter translates.
pub hva_to_gpa-gpa_to_hva :
    (instp : Instance) (gpa : ℕ)
    → IsLayout (take instp.mem_region_num instp.memp)
    → gpa_to_hva instp gpa ≢ addr_inval
    → hva_to_gpa instp (gpa_to_hva instp gpa) ≡ gpa
unfolding hva_to_gpa gpa_to_hva
hva_to_gpa-gpa_to_hva instp gpa l =
    find_hva-find_gpa instp.mem_region_num instp.memp gpa l.fits l.hva_apart

-- Over regions that fit and do not overlap, `gpa_to_hva` undoes `hva_to_gpa` at every host address
-- that the latter translates.
pub gpa_to_hva-hva_to_gpa :
    (instp : Instance) (hva : ℕ)
    → IsLayout (take instp.mem_region_num instp.memp)
    → hva_to_gpa instp hva ≢ addr_inval
    → gpa_to_hva instp (hva_to_gpa instp hva) ≡ hva
unfolding hva_to_gpa gpa_to_hva
gpa_to_hva-hva_to_gpa instp hva l =
    find_gpa-find_hva instp.mem_region_num instp.memp hva l.fits l.gpa_apart
