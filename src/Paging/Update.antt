-- ===== src/Paging/Update.antt =====
-- A write of a leaf entry, in either engine: the tables stay a tree, the address that the entry is for is
-- mapped by the new value, and every other address as before.
use slimvm.Base.{
  ◌<◌, sym, ℕ, zero, suc, ◌≤◌, ◌≡◌, ◌≢◌, ◌⊎◌, inl, inr, ap, subst, ==→eq, ◌∙◌, true, false, none,
  some, arith, ◌==◌, Bool-cases, if◌then◌else◌,
}
use slimvm.Paging.{Mem, slot, Format, is_huge, addr_to_idx, write}
use slimvm.Paging.Tree.{Places, at, path, IsTree, addr_to_idx-lt, path-suc, root_placed}
use slimvm.Paging.Hardware.{leaf_from, leaf, Passes, here, down, Passes-leaf_from}

-- What may be written at level `l`: anything in a last-level table, and in the level above it nothing or
-- a 2M leaf.
abbrev pub IsLeafValue : Format → ℕ → ℕ → Type 0
IsLeafValue fmt l v = (l ≡ 0) ⊎ ((l ≡ 1) × ((fmt.present v ≡ false) ⊎ (is_huge v ≡ true)))

-- Whether the address is one of those that the slot's entry is for.
abbrev pub Covers : ℕ → ℕ → ℕ → ℕ → Type 0
Covers l p k gpa = (path gpa l ≡ p) × (addr_to_idx gpa l ≡ k)

Passes-le : {fmt : Format} {m : Mem} {gpa l t i dir : ℕ} → Passes fmt m gpa l t i dir → l ≤ i
Passes-le (here a b) = omega arith
Passes-le (down a b c) = omega (arith, Passes-le c)

leaf_from_self :
    (fmt : Format) (l : ℕ) (m : Mem) (d gpa k v : ℕ)
    → IsLeafValue fmt l v
    → addr_to_idx gpa l ≡ k
    → leaf_from fmt (write (slot d k) v m) l d gpa ≡ (if fmt.present v then some v else none)
unfolding leaf_from write
leaf_from_self fmt zero m d gpa k v x e = ground arith
leaf_from_self fmt (suc zero) m d gpa k v x e = ground arith
leaf_from_self fmt (suc (suc l)) m d gpa k v x e = absurd (omega arith)

module _ {fmt : Format} {root : ℕ} {own : Places} {m : Mem} (tree : IsTree fmt root own m)
    {d l p : ℕ} (k v : ℕ) (placed : own d ≡ some (at l p)) (value : IsLeafValue fmt l v) where
  pub write-IsTree : IsTree fmt root own (write (slot d k) v m)
  unfolding write
  write-IsTree = record {
    rooted = tree.rooted;
    edge = λ f i q j o s e h. ground (arith, tree.edge f i q j o s);
    fresh = tree.fresh;
  }

  covers :
      (i g gpa : ℕ)
      → own g ≡ some (at i (path gpa i))
      → g ≡ d
      → addr_to_idx gpa i ≡ k
      → Covers l p k gpa
  covers i g gpa o e f =
      let same : at i (path gpa i) ≡ at l p = ground arith in
      let level : i ≡ l = ground arith in
      let prefix : path gpa i ≡ p = ground arith in
      (subst (λ x. path gpa x ≡ p) level prefix, subst (λ x. addr_to_idx gpa x ≡ k) level f)

  -- An entry on another address's path is not the one that is written.
  entry-write_other :
      (i g gpa : ℕ)
      → own g ≡ some (at i (path gpa i))
      → ¬ Covers l p k gpa
      → (write (slot d k) v m).entry g (addr_to_idx gpa i) ≡ m.entry g (addr_to_idx gpa i)
  unfolding write
  entry-write_other i g gpa o n = elim (Bool-cases (g == d)) [
    | inl e ↦ elim (Bool-cases (addr_to_idx gpa i == k)) [
      | inl e' ↦ absurd (n (covers i g gpa o (==→eq _ _ e) (==→eq _ _ e')))
      | inr e' ↦ rw (e, e')
    ]
    | inr e ↦ rw e
  ]

  leaf_from-write_other :
      (i g gpa : ℕ)
      → own g ≡ some (at i (path gpa i))
      → i ≤ 3
      → ¬ Covers l p k gpa
      → leaf_from fmt (write (slot d k) v m) i g gpa ≡ leaf_from fmt m i g gpa
  unfolding leaf_from
  leaf_from-write_other zero g gpa o b n = ground (arith, entry-write_other zero g gpa o n)
  leaf_from-write_other (suc i) g gpa o b n =
      let j = addr_to_idx gpa (suc i) in
      let below = leaf_from-write_other i (fmt.follow (m.entry g j)) gpa in
      ground (
        arith,
        entry-write_other (suc i) g gpa o n,
        below,
        tree.edge g i (path gpa (suc i)) j o (addr_to_idx-lt gpa (suc i)),
        path-suc gpa i,
      )

  -- An address that the entry is not for is mapped as before.
  pub leaf-write_other :
      (gpa : ℕ)
      → ¬ Covers l p k gpa
      → leaf fmt (write (slot d k) v m) root gpa ≡ leaf fmt m root gpa
  leaf-write_other gpa n = leaf_from-write_other 3 root gpa (root_placed gpa tree) (omega arith) n

  -- The path to the table is not written.
  Passes-write :
      (gpa i g : ℕ)
      → own g ≡ some (at i (path gpa i))
      → i ≤ 3
      → Passes fmt m gpa l d i g
      → Passes fmt (write (slot d k) v m) gpa l d i g
  Passes-write gpa i g o b (here a c) = here a c
  Passes-write gpa (suc i) g o b (down a c ps) =
      let apart : g ≢ d = λ e. ground (arith, Passes-le ps) in
      let same : (write (slot d k) v m).entry g (addr_to_idx gpa (suc i))
          ≡ m.entry g (addr_to_idx gpa (suc i)) =
        unfold write in ground arith in
      let place =
        tree.edge g i (path gpa (suc i)) (addr_to_idx gpa (suc i)) o (addr_to_idx-lt gpa (suc i)) a
          c
        ∙ ap (λ q. some (at i q)) (path-suc gpa i (omega arith)) in
      down (rw same a) (rw same c) (rw same (Passes-write gpa i _ place (omega arith) ps))

  -- An address that the entry is for is mapped by the new value, if the hardware gets to the table.
  pub leaf-write_self :
      (gpa : ℕ)
      → Covers l p k gpa
      → Passes fmt m gpa l d 3 root
      → leaf fmt (write (slot d k) v m) root gpa ≡ (if fmt.present v then some v else none)
  leaf-write_self gpa c ps =
      Passes-leaf_from (Passes-write gpa 3 root (root_placed gpa tree) (omega arith) ps)
      ∙ leaf_from_self fmt l m d gpa k v value c.1

-- Two addresses whose paths agree down to the table share the hardware's walk to it.
same_index :
    (l a b i : ℕ)
    → l ≤ 1
    → l < suc i
    → suc i ≤ 3
    → path a l ≡ path b l
    → addr_to_idx a (suc i) ≡ addr_to_idx b (suc i)
same_index zero a b zero h k n e = omega arith
same_index zero a b (suc zero) h k n e = omega arith
same_index zero a b (suc (suc zero)) h k n e = omega arith
same_index (suc zero) a b (suc zero) h k n e = omega arith
same_index (suc zero) a b (suc (suc zero)) h k n e = omega arith
same_index _ a b _ h k n e = absurd (omega arith)

pub Passes-same :
    {fmt : Format} {m : Mem} {l t : ℕ} (a b : ℕ) {i dir : ℕ}
    → l ≤ 1
    → i ≤ 3
    → path a l ≡ path b l
    → Passes fmt m a l t i dir
    → Passes fmt m b l t i dir
Passes-same a b h n e (here p q) = here p q
Passes-same {fmt} {m} {l} a b h n e (down {i} {dir} p q r) =
    let j : addr_to_idx b (suc i) ≡ addr_to_idx a (suc i) =
      sym (same_index l a b i h (omega (arith, Passes-le r)) n e) in
    down (rw j p) (rw j q) (rw j (Passes-same a b h (omega arith) e r))
