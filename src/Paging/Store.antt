-- ===== src/Paging/Store.antt =====
-- What an operation under the lock leaves of the tables when it maps or unmaps one entry, in either engine:
-- each lemma is for one of its ways out.
use slimvm.Base.{
  ℕ, ◌≡◌, ◌≢◌, ◌⊎◌, inl, inr, refl, sym, ap, ◌∙◌, subst, true, false, none, some, arith,
}
use slimvm.Paging.{Mem, Slot, Format, Outcome, done, mem_of, read, write, is_huge, walk}
use slimvm.Paging.Tree.{Places, IsFormat, IsTree, root_placed}
use slimvm.Paging.Hardware.{leaf}
use slimvm.Paging.Lookup.{Reached, Walked, walk-Walked, walk-mem}
use slimvm.Paging.Update.{IsLeafValue}
use slimvm.Paging.Block.{
  block, Mapping, unchanged, Mapping-after, write_block-IsTree, write_block-Mapping,
  write-block_self, write-block-other, leaf-page, leaf-huge,
}

-- The tables are a tree, and the block of `gpa` at level `l` is mapped by `v`, or nothing is mapped
-- differently.
pub record Stored (fmt : Format) (root : ℕ) (m : Mem) (l gpa v : ℕ) (m' : Mem) : Type 0 where
  pub places : Places
  pub tree : IsTree fmt root places m'
  pub maps : Mapping (leaf fmt m root) (leaf fmt m' root) l gpa (some v)

-- One entry gone: what the entry for `gpa` mapped is not mapped, and all else as before. The entry is of
-- level 1 only where a 2M entry mapped the page.
pub record Cleared (fmt : Format) (root : ℕ) (m : Mem) (gpa : ℕ) (m' : Mem) : Type 0 where
  pub level : ℕ
  pub level_ok :
      (level ≡ 0) ⊎ ((level ≡ 1) × ((e : ℕ) × (leaf fmt m root gpa ≡ some e) × (is_huge e ≡ true)))
  pub places : Places
  pub tree : IsTree fmt root places m'
  pub gone : (g : ℕ) → block level g ≡ block level gpa → leaf fmt m' root g ≡ none
  pub kept : (g : ℕ) → block level g ≢ block level gpa → leaf fmt m' root g ≡ leaf fmt m root g

module _ {fmt : Format} {root : ℕ} {own : Places} {m : Mem} where
  pub same-Stored : (l gpa v : ℕ) → IsTree fmt root own m → Stored fmt root m l gpa v m
  same-Stored l gpa v t = record { places = own; tree = t; maps = unchanged (λ g. refl) }

  pub Walked-Stored :
      {gpa level i dir : ℕ} {r : Outcome Slot} (l v : ℕ)
      → Walked fmt root own m gpa level r i dir
      → Stored fmt root m l gpa v (mem_of r)
  Walked-Stored l v w = record {
    places = w.places;
    tree = w.grows.tree;
    maps = unchanged w.grows.same;
  }

  -- The write of a present leaf at the entry that the walk came to.
  pub write-Stored :
      {gpa level : ℕ} {s : Slot} {m' : Mem} (v : ℕ)
      → (w : Walked fmt root own m gpa level (done s m') 3 root) → w.reached.level' ≡ level
      → IsLeafValue fmt level v
      → fmt.present v ≡ true
      → Stored fmt root m level gpa v (write s v m')
  write-Stored v w level value p = record {
    places = w.places;
    tree = write_block-IsTree w.grows.tree value w.reached level;
    maps =
        Mapping-after w.grows.same
          (rw p at (write_block-Mapping w.grows.tree value w.reached level));
  }

  -- The write of an absent entry.
  pub write-Cleared :
      {gpa : ℕ} {s : Slot}
      → IsTree fmt root own m
      → fmt.present 0 ≡ false
      → Reached fmt own gpa 0 s m 3 root
      → Cleared fmt root m gpa (write s 0 m)
  write-Cleared {s} tree z r = record {
    level = r.level';
    level_ok = elim r.level_eq [
      | inl e ↦ inl e
      | inr (o, e, p, h) ↦ inr (o, (read s m, leaf-huge r o p h, h))
    ];
    places = own;
    tree = write_block-IsTree tree value r refl;
    gone = λ g b. rw z at (write-block_self tree value r refl g b);
    kept = λ g b. write-block-other tree value r refl g b;
  }
    where
      value : IsLeafValue fmt r.level' 0
      value = ground (arith, r.level_eq)

  pub none-Cleared :
      {gpa : ℕ} → IsTree fmt root own m → leaf fmt m root gpa ≡ none → Cleared fmt root m gpa m
  none-Cleared {gpa} tree n = record {
    level = 0;
    level_ok = inl refl;
    places = own;
    tree = tree;
    gone = λ g b. leaf-page fmt m root g gpa b ∙ n;
    kept = λ g b. refl;
  }

  -- Without leave to create, a walk that finds a slot finds it in the tables as they are.
  pub walk-Reached :
      (gpa : ℕ) (s : Slot) (m' : Mem)
      → IsFormat fmt
      → IsTree fmt root own m
      → walk fmt 3 root gpa 0 false m ≡ done s m'
      → (own' : Places) × IsTree fmt root own' m × Reached fmt own' gpa 0 s m 3 root
  walk-Reached gpa s m' law tree eq =
      let w : Walked fmt root own m gpa 0 (done s m') 3 root =
        subst (λ r. Walked fmt root own m gpa 0 r 3 root) eq
          (walk-Walked law 3 gpa 0 false (omega arith) (omega arith) tree (root_placed gpa tree)) in
      let same : m' ≡ m = ap mem_of (sym eq) ∙ walk-mem fmt 3 root gpa 0 m in
      (
        w.places,
        subst (λ x. IsTree fmt root w.places x) same w.grows.tree,
        subst (λ x. Reached fmt w.places gpa 0 s x 3 root) same w.reached,
      )
