-- ===== src/Paging/Lookup.antt =====
-- What a walk does, in either engine: it reaches the entry for the address, the tables stay a tree, and
-- no address is mapped differently. Without leave to create it changes nothing.
use slimvm.Base.{
  Errno, none, ℕ, zero, suc, ◌<◌, ◌≤◌, ◌≡◌, ◌⊎◌, inl, inr, refl, sym, ap, ◌∙◌, subst, Bool, true,
  false, some, arith, ◌==◌, ◌&&◌, Bool-cases, leb, tests,
}
use slimvm.Paging.{
  Mem, Slot, slot, read, Format, is_huge, addr_to_idx, Outcome, done, fail, mem_of, Step, next,
  stop, and_next, ensure, walk,
}
use slimvm.Paging.Tree.{Places, at, path, IsFormat, IsTree, addr_to_idx-lt, path-suc}
use slimvm.Paging.Hardware.{leaf_from, Passes, here, down}
use slimvm.Paging.Ensure.{Grows, Grows-refl, Grows-trans, Ensured, ensure-Ensured}

-- The entry that a walk to `level` reaches: in the table of its own level on the path of the address, or
-- one level up at a 2M leaf. The hardware's walk passes through it.
pub record Reached (fmt : Format) (own : Places) (gpa level : ℕ) (s : Slot) (m : Mem) (i dir : ℕ)
    : Type 0 where
  pub level' : ℕ
  pub table_placed : own s.table ≡ some (at level' (path gpa level'))
  pub passes : Passes fmt m gpa level' s.table i dir
  pub index_eq : s.index ≡ addr_to_idx gpa level'
  pub level_eq :
      (level' ≡ level)
      ⊎ ((level' ≡ 1) × (level ≡ 0) × (fmt.present (read s m) ≡ true) × (is_huge (read s m) ≡ true))

abbrev pub ReachedBy : Format → Places → ℕ → ℕ → Outcome Slot → ℕ → ℕ → Type 0
ReachedBy fmt own gpa level (done s m) i dir = Reached fmt own gpa level s m i dir
ReachedBy fmt own gpa level (fail e m) i dir = Unit

ReachedBy-down :
    (fmt : Format) (own : Places) (m : Mem) (dir i gpa level : ℕ) (r : Outcome Slot)
    → ((mem_of r).entry dir (addr_to_idx gpa (suc i)) ≡ m.entry dir (addr_to_idx gpa (suc i)))
    → fmt.present (m.entry dir (addr_to_idx gpa (suc i))) ≡ true
    → (is_huge (m.entry dir (addr_to_idx gpa (suc i))) && suc i == 1) ≡ false
    → ReachedBy fmt own gpa level r i (fmt.follow (m.entry dir (addr_to_idx gpa (suc i))))
    → ReachedBy fmt own gpa level r (suc i) dir
ReachedBy-down fmt own m dir i gpa level (done s m') k pr h r = record {
  level' = r.level';
  table_placed = r.table_placed;
  passes = down (rw k pr) (rw k h) (rw k r.passes);
  index_eq = r.index_eq;
  level_eq = r.level_eq;
}
ReachedBy-down fmt own m dir i gpa level (fail e m') k pr h r = tt

-- A walk to `level` from the table `dir` of level `i`.
pub record Walked (fmt : Format) (root : ℕ) (own : Places) (m : Mem) (gpa level : ℕ)
    (r : Outcome Slot) (i dir : ℕ) : Type 0 where
  pub places : Places
  pub grows : Grows fmt root own m places (mem_of r)
  pub reached : ReachedBy fmt places gpa level r i dir

module _ {fmt : Format} (law : IsFormat fmt) {root : ℕ} where
  Walked-trans :
      {own own' : Places} {m m' : Mem} {gpa level i dir : ℕ} {r : Outcome Slot}
      → Grows fmt root own m own' m'
      → Walked fmt root own' m' gpa level r i dir
      → Walked fmt root own m gpa level r i dir
  Walked-trans g w = record {
    places = w.places;
    grows = Grows-trans g w.grows;
    reached = w.reached;
  }

  Walked-here :
      {own : Places} {m : Mem} {dir i : ℕ} (gpa level : ℕ)
      → IsTree fmt root own m
      → own dir ≡ some (at i (path gpa i))
      → i ≡ level
      → Walked fmt root own m gpa level (done (slot dir (addr_to_idx gpa level)) m) i dir
  Walked-here {own} {dir} {i} gpa level t o e = record {
    places = own;
    grows = Grows-refl t;
    reached = record {
      level' = i;
      table_placed = o;
      passes = here refl refl;
      index_eq = ap (addr_to_idx gpa) (sym e);
      level_eq = inl e;
    };
  }

  -- A 2M leaf stops the walk one level above the last.
  Walked-huge :
      {own : Places} {m : Mem} {dir : ℕ} (i gpa level : ℕ)
      → IsTree fmt root own m
      → own dir ≡ some (at (suc i) (path gpa (suc i)))
      → level < suc i
      → fmt.present (m.entry dir (addr_to_idx gpa (suc i))) ≡ true
      → (is_huge (m.entry dir (addr_to_idx gpa (suc i))) && suc i == 1) ≡ true
      → Walked fmt root own m gpa level (done (slot dir (addr_to_idx gpa 1)) m) (suc i) dir
  Walked-huge {own} zero gpa level t o l e h = record {
    places = own;
    grows = Grows-refl t;
    reached = record {
      level' = 1;
      table_placed = o;
      passes = here refl refl;
      index_eq = refl;
      level_eq = inr (refl, omega arith, e, ground arith);
    };
  }
  Walked-huge (suc i) gpa level t o l e h = absurd (ground arith)

  Walked-down :
      {own : Places} {m : Mem} {dir i : ℕ} (gpa level : ℕ) (r : Outcome Slot)
      → own dir ≡ some (at (suc i) (path gpa (suc i)))
      → fmt.present (m.entry dir (addr_to_idx gpa (suc i))) ≡ true
      → (is_huge (m.entry dir (addr_to_idx gpa (suc i))) && suc i == 1) ≡ false
      → Walked fmt root own m gpa level r i (fmt.follow (m.entry dir (addr_to_idx gpa (suc i))))
      → Walked fmt root own m gpa level r (suc i) dir
  Walked-down {m} {dir} {i} gpa level r o pr h w = record {
    places = w.places;
    grows = w.grows;
    reached =
        ReachedBy-down fmt w.places m dir i gpa level r (w.grows.kept dir _ _ _ o pr) pr h
          w.reached;
  }

  and_next-Walked :
      {own : Places} {m : Mem} {dir i : ℕ} (gpa level : ℕ) (st : Step) (k : ℕ → Mem → Outcome Slot)
      → own dir ≡ some (at (suc i) (path gpa (suc i)))
      → IsTree fmt root own m
      → Ensured fmt root own m dir (addr_to_idx gpa (suc i)) st
      → ((own' : Places) (m' : Mem)
          → IsTree fmt root own' m'
          → own' dir ≡ some (at (suc i) (path gpa (suc i)))
          → fmt.present (m'.entry dir (addr_to_idx gpa (suc i))) ≡ true
          → Walked fmt root own' m' gpa level
              (k (m'.entry dir (addr_to_idx gpa (suc i))) m')
              (suc i)
              dir)
      → Walked fmt root own m gpa level (and_next st k) (suc i) dir
  and_next-Walked {own} {m} {dir} {i} gpa level (next e m') k o t (own', g, eq, pr) then_walk =
      Walked-trans g (
        subst (λ x. Walked fmt root own' m' gpa level (k x m') (suc i) dir) eq
          (then_walk own' m' g.tree (g.placed dir (suc i) (path gpa (suc i)) o) (rw eq pr)))
  and_next-Walked {own} {m} gpa level (stop e m') k o t h then_walk = record {
    places = own;
    grows = rw h (Grows-refl t);
    reached = tt;
  }

  pub walk-Walked :
      (i : ℕ) {own : Places} {m : Mem} {dir : ℕ} (gpa level : ℕ) (create : Bool)
      → level ≤ i
      → i ≤ 3
      → IsTree fmt root own m
      → own dir ≡ some (at i (path gpa i))
      → Walked fmt root own m gpa level (walk fmt i dir gpa level create m) i dir
  unfolding walk
  walk-Walked zero gpa level create l b t o = Walked-here gpa level t o (omega arith)
  walk-Walked (suc i) {own} {m} {dir} gpa level create l b t o =
      elim (Bool-cases (leb (suc i) level)) [
        | inl e ↦ rw (e, walk) (Walked-here gpa level t o (omega tests))
        | inr e ↦
            rw (e, walk)
              (and_next-Walked gpa level _ _ o t
                (ensure-Ensured law create (addr_to_idx gpa (suc i)) t o
                  (addr_to_idx-lt gpa (suc i)))
                λ own' m' t' o' pr.
                  elim (Bool-cases
                    (is_huge (m'.entry dir (addr_to_idx gpa (suc i))) && suc i == 1)) [
                      | inl h ↦ rw h (Walked-huge i gpa level t' o' (omega tests) pr h)
                      | inr h ↦ rw h (
                          Walked-down gpa level _ o' pr h (
                            walk-Walked i gpa level create (omega tests) (omega arith) t' (
                              t'.edge dir i _ _ o' (addr_to_idx-lt gpa (suc i)) pr h
                              ∙ ap (λ q. some (at i q)) (path-suc gpa i (omega arith)))))
                    ])
      ]

-- Without leave to create, a walk changes nothing.
pub walk-mem :
    (fmt : Format) (i dir gpa level : ℕ) (m : Mem) → mem_of (walk fmt i dir gpa level false m) ≡ m
unfolding walk ensure
walk-mem fmt zero dir gpa level m = refl
walk-mem fmt (suc i) dir gpa level m =
    let e = m.entry dir (addr_to_idx gpa (suc i)) in
    ground (arith, walk-mem fmt i (fmt.follow e) gpa level m)

-- Where a walk without leave to create fails, the hardware's walk finds no leaf either.
pub walk-fail :
    (fmt : Format) (i dir gpa level : ℕ) (m : Mem) (er : Errno) (m' : Mem)
    → walk fmt i dir gpa level false m ≡ fail er m'
    → leaf_from fmt m i dir gpa ≡ none
unfolding walk ensure leaf_from
walk-fail fmt zero dir gpa level m er m' h = absurd (cc)
walk-fail fmt (suc i) dir gpa level m er m' h =
    let e = m.entry dir (addr_to_idx gpa (suc i)) in
    ground (arith, walk-fail fmt i (fmt.follow e) gpa level m er m')
