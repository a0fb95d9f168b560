-- ===== src/Paging/Block.antt =====
-- The write of a leaf entry at the place that a walk came to, in either engine, told by guest addresses: the
-- page or the 2M block of the walk's address is mapped by the new value, and nothing else changes.
use slimvm.Base.{
  true, ℕ, zero, suc, ◌+◌, ◌*◌, ◌/◌, ◌%◌, ◌^◌, ◌≤◌, ◌≡◌, ◌≢◌, sym, subst, ◌∙◌, Option, none, some,
  arith, if◌then◌else◌,
}
use slimvm.Paging.{read, is_huge, Mem, Slot, Format, write, addr_to_idx}
use slimvm.Paging.Tree.{Places, at, path, IsTree}
use slimvm.Paging.Hardware.{leaf_from, leaf, Passes, Passes-leaf_from}
use slimvm.Paging.Lookup.{Reached}
use slimvm.Paging.Update.{
  Covers, IsLeafValue, write-IsTree, leaf-write_other, leaf-write_self, Passes-same,
}

-- The 4K page or the 2M block of a guest address, by the level of its entry, in 48 bits.
abbrev pub block : ℕ → ℕ → ℕ
block l gpa = gpa % 2 ^ 48 / 2 ^ (12 + 9 * l)

-- Either no address is mapped differently, or the block of `gpa` is mapped by `value` and no address
-- outside of it is mapped differently.
pub data Mapping (before after : ℕ → Option ℕ) (l gpa : ℕ) (value : Option ℕ) : Type 0 where
  unchanged : ((g : ℕ) → after g ≡ before g) → Mapping before after l gpa value
  mapped :
      ((g : ℕ) → block l g ≡ block l gpa → after g ≡ value)
      → ((g : ℕ) → block l g ≢ block l gpa → after g ≡ before g)
      → Mapping before after l gpa value

pub Mapping-after :
    {before middle after : ℕ → Option ℕ} {l gpa : ℕ} {value : Option ℕ}
    → ((g : ℕ) → middle g ≡ before g)
    → Mapping middle after l gpa value
    → Mapping before after l gpa value
Mapping-after same (unchanged u) = unchanged (λ g. u g ∙ same g)
Mapping-after same (mapped a b) = mapped a (λ g n. b g n ∙ same g)

Covers-block : (l a b : ℕ) → l ≤ 1 → block l b ≡ block l a → Covers l (path a l) (addr_to_idx a l) b
Covers-block zero a b h e = omega arith
Covers-block (suc zero) a b h e = omega arith
Covers-block (suc (suc l)) a b h e = absurd (omega arith)

block-Covers : (l a b : ℕ) → l ≤ 1 → Covers l (path a l) (addr_to_idx a l) b → block l b ≡ block l a
block-Covers zero a b h e = omega arith
block-Covers (suc zero) a b h e = omega arith
block-Covers (suc (suc l)) a b h e = absurd (omega arith)

module _ {fmt : Format} {root : ℕ} {own : Places} {m : Mem} (tree : IsTree fmt root own m) {l v : ℕ}
    (leaf_value : IsLeafValue fmt l v) {gpa lv : ℕ} {s : Slot}
    (r : Reached fmt own gpa lv s m 3 root) (level : r.level' ≡ l) where
  table_placed : own s.table ≡ some (at l (path gpa l))
  table_placed = subst (λ i. own s.table ≡ some (at i (path gpa i))) level r.table_placed

  index_eq : s.index ≡ addr_to_idx gpa l
  index_eq = subst (λ i. s.index ≡ addr_to_idx gpa i) level r.index_eq

  level_le : l ≤ 1
  level_le = ground (arith, leaf_value)

  pub write_block-IsTree : IsTree fmt root own (write s v m)
  write_block-IsTree = write-IsTree tree s.index v table_placed leaf_value

  covers : (g : ℕ) → block l g ≡ block l gpa → Covers l (path gpa l) s.index g
  covers g e = rw index_eq (Covers-block l gpa g level_le e)

  passes : (g : ℕ) → path gpa l ≡ path g l → Passes fmt m g l s.table 3 root
  passes g e =
      Passes-same gpa g level_le (omega arith) e
        (subst (λ i. Passes fmt m gpa i s.table 3 root) level r.passes)

  -- The addresses of the block are mapped by the new value.
  pub write-block_self :
      (g : ℕ)
      → block l g ≡ block l gpa
      → leaf fmt (write s v m) root g ≡ (if fmt.present v then some v else none)
  write-block_self g e =
      let k = covers g e in
      leaf-write_self tree s.index v table_placed leaf_value g k (passes g (sym k.0))

  -- The others are mapped as before.
  pub write-block-other :
      (g : ℕ) → block l g ≢ block l gpa → leaf fmt (write s v m) root g ≡ leaf fmt m root g
  write-block-other g n =
      leaf-write_other tree s.index v table_placed leaf_value g
        (λ k. n (block-Covers l gpa g level_le (rw (← index_eq) k)))

  pub write_block-Mapping :
      Mapping
        (leaf fmt m root)
        (leaf fmt (write s v m) root)
        l
        gpa
        (if fmt.present v then some v else none)
  write_block-Mapping = mapped write-block_self write-block-other

-- Where a lookup comes to a 2M leaf, that leaf maps the address.
leaf_from-huge :
    (fmt : Format) (m : Mem) (l gpa : ℕ) (s : Slot)
    → l ≡ 1
    → s.index ≡ addr_to_idx gpa l
    → fmt.present (read s m) ≡ true
    → is_huge (read s m) ≡ true
    → leaf_from fmt m l s.table gpa ≡ some (read s m)
unfolding leaf_from
leaf_from-huge fmt m zero gpa s e i p h = absurd (omega arith)
leaf_from-huge fmt m (suc zero) gpa s e i p h = ground arith
leaf_from-huge fmt m (suc (suc l)) gpa s e i p h = absurd (omega arith)

pub leaf-huge :
    {fmt : Format} {root : ℕ} {own : Places} {m : Mem} {gpa level : ℕ} {s : Slot}
    (r : Reached fmt own gpa level s m 3 root)
    → r.level' ≡ 1
    → fmt.present (read s m) ≡ true
    → is_huge (read s m) ≡ true
    → leaf fmt m root gpa ≡ some (read s m)
leaf-huge {fmt} {m} {gpa} {s} r e p h =
    Passes-leaf_from r.passes ∙ leaf_from-huge fmt m r.level' gpa s e r.index_eq p h

-- The addresses of one 4K page are mapped alike.
page_index : (a b i : ℕ) → i ≤ 3 → block 0 a ≡ block 0 b → addr_to_idx a i ≡ addr_to_idx b i
page_index a b zero h e = omega arith
page_index a b (suc zero) h e = omega arith
page_index a b (suc (suc zero)) h e = omega arith
page_index a b (suc (suc (suc zero))) h e = omega arith
page_index a b (suc (suc (suc (suc i)))) h e = absurd (omega arith)

leaf_from-page :
    (fmt : Format) (m : Mem) (a b i dir : ℕ)
    → i ≤ 3
    → block 0 a ≡ block 0 b
    → leaf_from fmt m i dir a ≡ leaf_from fmt m i dir b
unfolding leaf_from
leaf_from-page fmt m a b zero dir h e = ground (arith, page_index a b 0 h e)
leaf_from-page fmt m a b (suc i) dir h e = ground (
  arith,
  page_index a b (suc i) h e,
  leaf_from-page fmt m a b i (fmt.follow (m.entry dir (addr_to_idx b (suc i)))),
)

pub leaf-page :
    (fmt : Format) (m : Mem) (root a b : ℕ)
    → block 0 a ≡ block 0 b
    → leaf fmt m root a ≡ leaf fmt m root b
leaf-page fmt m root a b e = leaf_from-page fmt m a b 3 root (omega arith) e
