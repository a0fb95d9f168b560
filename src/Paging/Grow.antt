-- ===== src/Paging/Grow.antt =====
-- One new table: what `ensure` does to an absent entry when it may create. The tables stay a tree, and
-- no address is mapped differently.
use slimvm.Base.{
  ℕ, zero, suc, ◌+◌, ◌*◌, ◌<◌, ◌≡◌, subst, true, false, none, some, List, [], ◌∷◌, arith, NotIn,
  ◌==◌, ◌&&◌, if◌then◌else◌,
}
use slimvm.Paging.{Mem, Slot, slot, Format, is_huge, addr_to_idx, write, zero_page}
use slimvm.Paging.Tree.{Places, at, IsFormat, Fresh, IsTree, addr_to_idx-lt}
use slimvm.Paging.Hardware.{leaf_from, leaf}

-- The place of a new table is added.
abbrev pub place : ℕ → ℕ → ℕ → Places → Places
place f i p own = λ g. if g == f then some (at i p) else own g

-- The memory after the new table `f` is zeroed and linked at `s`.
abbrev pub grown : Format → Slot → ℕ → List ℕ → Mem → Mem
grown fmt s f fs m = write s (fmt.link f) (zero_page f (record m { free_pages = fs }))

Fresh-place :
    (frames : ℕ) (own : Places) (f i p : ℕ) (fs : List ℕ)
    → NotIn f fs
    → Fresh frames own fs
    → Fresh frames (place f i p own) fs
Fresh-place frames own f i p [] n h = tt
Fresh-place frames own f i p (g ∷ fs) n h =
    (ground (arith, n.0), h.1, h.2, Fresh-place frames own f i p fs n.1 h.3)

module _ {fmt : Format} (law : IsFormat fmt) {root : ℕ} {own : Places} {m : Mem}
    (tree : IsTree fmt root own m) {d i p k f : ℕ} {fs : List ℕ}
    (placed : own d ≡ some (at (suc i) p)) (small : k < 512)
    (absent : fmt.present (m.entry d k) ≡ false) (free : m.free_pages ≡ f ∷ fs) where
  Fresh-frame : Fresh fmt.frames own (f ∷ fs)
  Fresh-frame = subst (Fresh fmt.frames own) free tree.fresh

  grown-edge :
      (g j q l : ℕ)
      → place f i (p * 512 + k) own g ≡ some (at (suc j) q)
      → l < 512
      → fmt.present ((grown fmt (slot d k) f fs m).entry g l) ≡ true
      → (is_huge ((grown fmt (slot d k) f fs m).entry g l) && suc j == 1) ≡ false
      → place f i (p * 512 + k) own (fmt.follow ((grown fmt (slot d k) f fs m).entry g l))
        ≡ some (at j (q * 512 + l))
  unfolding write zero_page
  grown-edge g j q l o s e h =
      ground
        (arith, law.zero_absent, law.follow_link f Fresh-frame.1, tree.edge g j q l, Fresh-frame.0)

  Fresh-grown : Fresh fmt.frames (place f i (p * 512 + k) own) fs
  Fresh-grown = Fresh-place fmt.frames own f i (p * 512 + k) fs Fresh-frame.2 Fresh-frame.3

  -- The tables are a tree again, with the new one in its place.
  pub grown-IsTree : IsTree fmt root (place f i (p * 512 + k) own) (grown fmt (slot d k) f fs m)
  unfolding write zero_page
  grown-IsTree = record {
    rooted = ground (arith, tree.rooted, Fresh-frame.0);
    edge = grown-edge;
    fresh = Fresh-grown;
  }

  -- A zeroed table maps nothing.
  leaf_from-zero : (j gpa : ℕ) → leaf_from fmt (grown fmt (slot d k) f fs m) j f gpa ≡ none
  unfolding leaf_from write zero_page
  leaf_from-zero zero gpa = ground (arith, law.zero_absent, Fresh-frame.0)
  leaf_from-zero (suc j) gpa = ground (arith, law.zero_absent, Fresh-frame.0)

  -- No table maps an address differently.
  leaf_from-grown :
      (j g q gpa : ℕ)
      → own g ≡ some (at j q)
      → leaf_from fmt (grown fmt (slot d k) f fs m) j g gpa ≡ leaf_from fmt m j g gpa
  unfolding leaf_from write zero_page
  leaf_from-grown zero g q gpa o = ground (arith, Fresh-frame.0)
  leaf_from-grown (suc j) g q gpa o =
      let l = addr_to_idx gpa (suc j) in
      let below = leaf_from-grown j (fmt.follow (m.entry g l)) (q * 512 + l) gpa in
      ground (
        arith,
        tree.edge g j q l o (addr_to_idx-lt gpa (suc j)),
        below,
        leaf_from-zero j gpa,
        law.link_present f Fresh-frame.1,
        law.link_table f Fresh-frame.1,
        law.follow_link f Fresh-frame.1,
        Fresh-frame.0,
      )

  pub leaf-grown : (gpa : ℕ) → leaf fmt (grown fmt (slot d k) f fs m) root gpa ≡ leaf fmt m root gpa
  leaf-grown gpa = leaf_from-grown 3 root 0 gpa tree.rooted
