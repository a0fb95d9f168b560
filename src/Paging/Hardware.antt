-- ===== src/Paging/Hardware.antt =====
-- How the processor reads the tables: the entry that maps an address. It is written from the
-- architecture's description of a four-level walk and not from ept.c or npt.c.
use slimvm.Base.{◌≡◌, ℕ, zero, suc, ◌&&◌, true, false, Option, none, some, ◌==◌}
use mathlib.Core.Path.{ap₂}
use slimvm.Paging.{Mem, Format, is_huge, addr_to_idx}

-- The walk goes on from the entry `e` of a table of level `i + 1`, or ends at it: where it is absent,
-- and where it is a 2M leaf.
unfoldable pub leaf_from : Format → Mem → ℕ → ℕ → ℕ → Option ℕ
leaf_from fmt m zero dir gpa =
    let e = m.entry dir (addr_to_idx gpa 0) in elim (fmt.present e) [ true ↦ some e | false ↦ none ]
leaf_from fmt m (suc i) dir gpa =
    let e = m.entry dir (addr_to_idx gpa (suc i)) in
    elim (fmt.present e) [
      | true ↦ elim (is_huge e && suc i == 1) [
        | true ↦ some e
        | false ↦ leaf_from fmt m i (fmt.follow e) gpa
      ]
      | false ↦ none
    ]

-- The leaf entry for an address, from the root table.
abbrev pub leaf : Format → Mem → ℕ → ℕ → Option ℕ
leaf fmt m root gpa = leaf_from fmt m 3 root gpa

-- The hardware's walk for `gpa` from the table `dir` of level `i` comes to the table `t` of level `l`.
pub data Passes (fmt : Format) (m : Mem) (gpa l t : ℕ) : ℕ → ℕ → Type 0 where
  here : {i dir : ℕ} → i ≡ l → dir ≡ t → Passes fmt m gpa l t i dir
  down :
      {i dir : ℕ}
      → fmt.present (m.entry dir (addr_to_idx gpa (suc i))) ≡ true
      → (is_huge (m.entry dir (addr_to_idx gpa (suc i))) && suc i == 1) ≡ false
      → Passes fmt m gpa l t i (fmt.follow (m.entry dir (addr_to_idx gpa (suc i))))
      → Passes fmt m gpa l t (suc i) dir

pub Passes-leaf_from :
    {fmt : Format} {m : Mem} {gpa l t i dir : ℕ}
    → Passes fmt m gpa l t i dir
    → leaf_from fmt m i dir gpa ≡ leaf_from fmt m l t gpa
unfolding leaf_from
Passes-leaf_from {fmt} {m} {gpa} (here a b) = ap₂ (λ x y. leaf_from fmt m x y gpa) a b
Passes-leaf_from {fmt} {m} {gpa} {l} {t} (down {i} {dir} a b c) =
    rw (a, b, leaf_from) (Passes-leaf_from c)
