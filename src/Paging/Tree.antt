-- ===== src/Paging/Tree.antt =====
-- The tables form a tree.
use slimvm.Base.{
  ℕ, zero, suc, ◌+◌, ◌*◌, ◌/◌, ◌%◌, ◌^◌, ◌<◌, ◌≡◌, true, false, Option, none, some, List, [], ◌∷◌,
  arith, NotIn, ◌==◌, ◌&&◌,
}
use slimvm.Paging.{Mem, Format, is_huge, addr_to_idx}

-- Where a table stands: its level, and the indices that lead to it from the root, as one number.
pub data Position : Type 0 where
  at : ℕ → ℕ → Position

-- The place of each table; `none` for a frame that is not a table of this tree.
abbrev pub Places : Type 0
Places = ℕ → Option Position

-- The indices that lead from the root to the table of level `i` for the address.
abbrev pub path : ℕ → ℕ → ℕ
path gpa i = gpa % 2 ^ 48 / 2 ^ (12 + 9 * (i + 1))

-- The laws of an entry format, for the frames that its entries can name.
pub record IsFormat (fmt : Format) : Type 0 where
  pub zero_absent : fmt.present 0 ≡ false
  pub link_present : (f : ℕ) → f < fmt.frames → fmt.present (fmt.link f) ≡ true
  pub link_table : (f : ℕ) → f < fmt.frames → is_huge (fmt.link f) ≡ false
  pub follow_link : (f : ℕ) → f < fmt.frames → fmt.follow (fmt.link f) ≡ f

-- The frames are distinct, can be addressed, and are not in use as tables.
abbrev pub Fresh : ℕ → Places → List ℕ → Type 0
Fresh frames own [] = Unit
Fresh frames own (f ∷ fs) = (own f ≡ none) × (f < frames) × NotIn f fs × Fresh frames own fs

-- A present entry above the last level that is not a 2M leaf leads to the table of the place below it.
-- A table has one place, so no two entries lead to the same table.
pub record IsTree (fmt : Format) (root : ℕ) (own : Places) (m : Mem) : Type 0 where
  pub rooted : own root ≡ some (at 3 0)
  pub edge :
      (f i p k : ℕ)
      → own f ≡ some (at (suc i) p)
      → k < 512
      → fmt.present (m.entry f k) ≡ true
      → (is_huge (m.entry f k) && suc i == 1) ≡ false
      → own (fmt.follow (m.entry f k)) ≡ some (at i (p * 512 + k))
  pub fresh : Fresh fmt.frames own m.free_pages

pub addr_to_idx-lt : (gpa n : ℕ) → addr_to_idx gpa n < 512
addr_to_idx-lt gpa n = omega arith

-- The path to the next table is the path so far with the index appended.
pub path-suc : (gpa i : ℕ) → i < 3 → path gpa (suc i) * 512 + addr_to_idx gpa (suc i) ≡ path gpa i
path-suc gpa zero h = omega arith
path-suc gpa (suc zero) h = omega arith
path-suc gpa (suc (suc zero)) h = omega arith
path-suc gpa (suc (suc (suc i))) h = absurd (omega arith)

-- Every address starts at the root.
pub root_placed :
    {fmt : Format} {root : ℕ} {own : Places} {m : Mem} (gpa : ℕ)
    → IsTree fmt root own m
    → own root ≡ some (at 3 (path gpa 3))
root_placed gpa t = let z : path gpa 3 ≡ 0 = omega arith in rw z t.rooted
