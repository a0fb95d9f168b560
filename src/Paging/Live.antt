-- ===== src/Paging/Live.antt =====
-- With three free frames a walk that may create tables does not fail, in either engine; and what stands at
-- the entry that it comes to is what maps the address.
use slimvm.Base.{
  ℕ, zero, suc, ◌+◌, ◌≤◌, ◌≡◌, refl, ◌∙◌, true, some, List, [], ◌∷◌, inl, inr, arith, Bool-cases,
  leb, ◌==◌, ◌&&◌, length,
}
use slimvm.Paging.{
  Mem, Slot, slot, Format, read, write, is_huge, addr_to_idx, Outcome, done, Step, next, stop,
  and_next, ensure, new_table, walk, zero_page,
}
use slimvm.Paging.Tree.{Places}
use slimvm.Paging.Hardware.{leaf_from, leaf, Passes-leaf_from}
use slimvm.Paging.Lookup.{Reached}

-- The step goes on, and has taken at most one frame.
abbrev GoesOn : Mem → Step → Type 0
GoesOn m (next e m') = length m.free_pages ≤ length m'.free_pages + 1
GoesOn m (stop e m') = ⊥

new_table-GoesOn :
    (fmt : Format) (s : Slot) (free : List ℕ) (m : Mem)
    → m.free_pages ≡ free
    → 1 ≤ length free
    → GoesOn m (new_table fmt s free m)
unfolding new_table write zero_page
new_table-GoesOn fmt s [] m e h = absurd (ground arith)
new_table-GoesOn fmt s (f ∷ fs) m e h = rw e (ground arith)

ensure-GoesOn :
    (fmt : Format) (s : Slot) (m : Mem) → 1 ≤ length m.free_pages → GoesOn m (ensure fmt true s m)
unfolding ensure
ensure-GoesOn fmt s m h = elim (Bool-cases (fmt.present (read s m))) [
  | inl e ↦ rw e (omega arith)
  | inr e ↦ rw e (new_table-GoesOn fmt s m.free_pages m refl h)
]

and_next-done :
    (st : Step) (m : Mem) (k : ℕ → Mem → Outcome Slot)
    → GoesOn m st
    → ((e : ℕ) (m' : Mem)
        → length m.free_pages ≤ length m'.free_pages + 1
        → (s : Slot) × (m'' : Mem) × (k e m' ≡ done s m''))
    → (s : Slot) × (m'' : Mem) × (and_next st k ≡ done s m'')
and_next-done (next e m') m k g f = f e m' g
and_next-done (stop e m') m k g f = absurd g

pub walk-done :
    (fmt : Format) (i dir gpa level : ℕ) (m : Mem)
    → i ≤ length m.free_pages
    → (s : Slot) × (m' : Mem) × (walk fmt i dir gpa level true m ≡ done s m')
unfolding walk
walk-done fmt zero dir gpa level m h = (slot dir (addr_to_idx gpa level), m, refl)
walk-done fmt (suc i) dir gpa level m h = elim (Bool-cases (leb (suc i) level)) [
  | inl e ↦ rw (e, walk) (slot dir (addr_to_idx gpa level), m, refl)
  | inr e ↦
      rw (e, walk)
        (and_next-done _ m _
          (ensure-GoesOn fmt (slot dir (addr_to_idx gpa (suc i))) m (omega arith))
          λ v m' g. elim (Bool-cases (is_huge v && suc i == 1)) [
            | inl b ↦ rw b (slot dir (addr_to_idx gpa 1), m', refl)
            | inr b ↦ rw b (walk-done fmt i (fmt.follow v) gpa level m' (omega (arith, h, g)))
          ])
]

-- A present entry of the last level that a lookup comes to maps the address.
leaf_from-last :
    (fmt : Format) (m : Mem) (l gpa : ℕ) (s : Slot)
    → l ≡ 0
    → s.index ≡ addr_to_idx gpa l
    → fmt.present (read s m) ≡ true
    → leaf_from fmt m l s.table gpa ≡ some (read s m)
unfolding leaf_from
leaf_from-last fmt m zero gpa s e i p = ground arith
leaf_from-last fmt m (suc l) gpa s e i p = absurd (omega arith)

pub leaf-last :
    {fmt : Format} {root : ℕ} {own : Places} {m : Mem} {gpa level : ℕ} {s : Slot}
    (r : Reached fmt own gpa level s m 3 root)
    → r.level' ≡ 0
    → fmt.present (read s m) ≡ true
    → leaf fmt m root gpa ≡ some (read s m)
leaf-last {fmt} {m} {gpa} {s} r e p =
    Passes-leaf_from r.passes ∙ leaf_from-last fmt m r.level' gpa s e r.index_eq p
