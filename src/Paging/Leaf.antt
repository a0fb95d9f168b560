-- ===== src/Paging/Leaf.antt =====
-- A lookup for a 4K page finds the leaf entry that maps the page, where there is one.
use slimvm.Base.{ℕ, zero, suc, ◌≡◌, refl, inl, inr, false, some, arith, Bool-cases, ◌&&◌, ◌==◌}
use slimvm.Paging.{Mem, Slot, slot, Format, read, is_huge, addr_to_idx, done, ensure, walk}
use slimvm.Paging.Hardware.{leaf_from}

pub walk-leaf :
    (fmt : Format) (i dir gpa : ℕ) (m : Mem) (e : ℕ)
    → leaf_from fmt m i dir gpa ≡ some e
    → (s : Slot) × (walk fmt i dir gpa 0 false m ≡ done s m) × (read s m ≡ e)
unfolding walk ensure leaf_from
walk-leaf fmt zero dir gpa m e h = (slot dir (addr_to_idx gpa 0), refl, ground arith)
walk-leaf fmt (suc i) dir gpa m e h =
    let v = m.entry dir (addr_to_idx gpa (suc i)) in
    elim (Bool-cases (fmt.present v)) [
      | inr a ↦ absurd (ground arith)
      | inl a ↦ elim (Bool-cases (is_huge v && suc i == 1)) [
        | inl b ↦ (slot dir (addr_to_idx gpa 1), ground arith, ground arith)
        | inr b ↦
            let r = walk-leaf fmt i (fmt.follow v) gpa m e (ground arith) in
            (r.0, ground (arith, r.1), r.2)
      ]
    ]
