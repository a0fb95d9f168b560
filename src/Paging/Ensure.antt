-- ===== src/Paging/Ensure.antt =====
-- One round of a walk, in either engine: where it may create a table the tables stay a tree, what was
-- present stays, and no address is mapped differently.
use slimvm.Base.{
  ℕ, suc, ◌+◌, ◌*◌, ◌<◌, ◌≡◌, inl, inr, refl, ◌∙◌, subst, Bool, true, false, some, List, [], ◌∷◌,
  arith, Bool-cases, if◌then◌else◌, enoent,
}
use slimvm.Paging.{Mem, slot, Format, write, zero_page, Step, next, stop, ensure, new_table}
use slimvm.Paging.Tree.{Places, at, IsFormat, Fresh, IsTree}
use slimvm.Paging.Hardware.{leaf}
use slimvm.Paging.Grow.{place, grown-IsTree, leaf-grown}

-- Memory has at most gained tables: what was present is as it was, and every address maps as before.
pub record Grows (fmt : Format) (root : ℕ) (own : Places) (m : Mem) (own' : Places) (m' : Mem)
    : Type 0 where
  pub tree : IsTree fmt root own' m'
  pub same : (gpa : ℕ) → leaf fmt m' root gpa ≡ leaf fmt m root gpa
  pub kept :
      (g k i p : ℕ)
      → own g ≡ some (at i p)
      → fmt.present (m.entry g k) ≡ true
      → m'.entry g k ≡ m.entry g k
  pub placed : (g i p : ℕ) → own g ≡ some (at i p) → own' g ≡ some (at i p)

module _ {fmt : Format} {root : ℕ} where
  pub Grows-refl : {own : Places} {m : Mem} → IsTree fmt root own m → Grows fmt root own m own m
  Grows-refl t = record {
    tree = t;
    same = λ gpa. refl;
    kept = λ g k i p o e. refl;
    placed = λ g i p o. o;
  }

  pub Grows-trans :
      {own₁ own₂ own₃ : Places} {m₁ m₂ m₃ : Mem}
      → Grows fmt root own₁ m₁ own₂ m₂
      → Grows fmt root own₂ m₂ own₃ m₃
      → Grows fmt root own₁ m₁ own₃ m₃
  Grows-trans a b = record {
    tree = b.tree;
    same = λ gpa. b.same gpa ∙ a.same gpa;
    kept =
        λ g k i p o e. let s = a.kept g k i p o e in b.kept g k i p (a.placed g i p o) (rw s e) ∙ s;
    placed = λ g i p o. b.placed g i p (a.placed g i p o);
  }

-- The outcome of one round.
abbrev pub Ensured : Format → ℕ → Places → Mem → ℕ → ℕ → Step → Type 0
Ensured fmt root own m d k (next e m') =
    (own' : Places) × Grows fmt root own m own' m' × (m'.entry d k ≡ e) × (fmt.present e ≡ true)
Ensured fmt root own m d k (stop e m') = m' ≡ m

module _ {fmt : Format} (law : IsFormat fmt) {root : ℕ} where
  new_table-Ensured :
      {own : Places} {m : Mem} {d i p : ℕ} (k : ℕ) (free : List ℕ)
      → m.free_pages ≡ free
      → IsTree fmt root own m
      → own d ≡ some (at (suc i) p)
      → k < 512
      → fmt.present (m.entry d k) ≡ false
      → Ensured fmt root own m d k (new_table fmt (slot d k) free m)
  unfolding new_table
  new_table-Ensured k [] free t o s a = refl
  new_table-Ensured {own} {m} {d} {i} {p} k (f ∷ fs) free t o s a =
      let fr : Fresh fmt.frames own (f ∷ fs) = subst (Fresh fmt.frames own) free t.fresh in
      (
        place f i (p * 512 + k) own,
        record {
          tree = grown-IsTree law t o s a free;
          same = leaf-grown law t o s a free;
          kept = λ g l j q og e. unfold write zero_page in ground (arith, fr.0);
          placed = λ g j q og. ground (arith, fr.0);
        },
        unfold write zero_page in ground arith,
        law.link_present f fr.1,
      )

  pub ensure-Ensured :
      {own : Places} {m : Mem} {d i p : ℕ} (create : Bool) (k : ℕ)
      → IsTree fmt root own m
      → own d ≡ some (at (suc i) p)
      → k < 512
      → Ensured fmt root own m d k (ensure fmt create (slot d k) m)
  unfolding ensure
  ensure-Ensured {own} {m} {d} create k t o s = elim (Bool-cases (fmt.present (m.entry d k))) [
    | inl e ↦ rw e (own, Grows-refl t, refl, e)
    | inr e ↦ rw e (go create e)
  ]
    where
      go :
          (c : Bool)
          → fmt.present (m.entry d k) ≡ false
          → Ensured fmt root own m d k
              (if c then new_table fmt (slot d k) m.free_pages m else stop enoent m)
      go true e = new_table-Ensured k m.free_pages refl t o s e
      go false e = refl
