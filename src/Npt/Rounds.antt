-- ===== src/Npt/Rounds.antt =====
-- The loop of `npt_clear_page_table` in npt.c ends, whatever other threads do where it releases the lock, and the
-- rounds that the definition gives it are enough.
use slimvm.Base.{
  ℕ, zero, suc, ◌+◌, ◌-◌, ◌*◌, ◌%◌, ◌≤◌, ◌<◌, ◌≡◌, inl, inr, refl, Bool, true, false, not, ◌&&◌,
  ◌==◌, arith, Bool-cases, ltb, ltb→lt, add64, page_size, hpage_size, u64_mod,
}
use slimvm.Paging.{Slot, Outcome, done, fail, read}
use slimvm.Vm.{Vm}
use slimvm.Npt.Entry.{Kernel, is_npte_huge, npte_addr}
use slimvm.Npt.Lookup.{npt_lookup_hva, npte_page_table}
use slimvm.Npt.Notifier.{
  rounds, clear_round, clear_page_table_loop, npt_clear_page_table, pdpe_addr_end,
}

-- A round goes on by a page at least, and to the start of a page.
clear_round-next :
    (s e : ℕ) (vm : Vm) (o : Outcome Slot)
    → s % page_size ≡ 0
    → s < e
    → e + hpage_size ≤ u64_mod
    → (s + page_size ≤ (clear_round s e vm o).0) × ((clear_round s e vm o).0 % page_size ≡ 0)
clear_round-next s e vm (fail x m) al lt fit = ground arith
clear_round-next s e vm (done p m) al lt fit = elim (Bool-cases (is_npte_huge (read p vm.mem))) [
  | inl h ↦ rw h (omega arith)
  | inr h ↦ rw h (omega arith)
]

-- One round of the loop, and whether it has come to a boundary.
abbrev pub round : Kernel → ℕ → ℕ → Vm → ℕ × Vm
round k e s vm = clear_round s e vm (npt_lookup_hva k vm.instp s npte_page_table false vm.mem)

abbrev pub at_boundary : Kernel → ℕ → ℕ → ℕ → Vm → Bool
at_boundary k e s n vm = (round k e s vm).0 == n && not ((round k e s vm).0 == e)

-- The loop from `s` on, with `n` the next boundary of 1G, comes to its end in `t`: a derivation has one constructor
-- for each round, and is finite.
pub data Ends (k : Kernel) (resched : ℕ → Vm → Vm) (e : ℕ) (t : Vm) : ℕ → ℕ → Vm → Type 0 where
  -- The test of the loop
  over : {s n : ℕ} {vm : Vm} → ltb s e ≡ false → t ≡ vm → Ends k resched e t s n vm
  onward :
      {s n : ℕ} {vm : Vm}
      → ltb s e ≡ true
      → at_boundary k e s n vm ≡ false
      → Ends k resched e t (round k e s vm).0 n (round k e s vm).1
      → Ends k resched e t s n vm
  -- The lock was released, and the instance destroyed.
  left :
      {s n : ℕ} {vm : Vm}
      → ltb s e ≡ true
      → at_boundary k e s n vm ≡ true
      → ((resched (round k e s vm).0 (round k e s vm).1).instp.ept_root == 0) ≡ true
      → t ≡ resched (round k e s vm).0 (round k e s vm).1
      → Ends k resched e t s n vm
  across :
      {s n : ℕ} {vm : Vm}
      → ltb s e ≡ true
      → at_boundary k e s n vm ≡ true
      → ((resched (round k e s vm).0 (round k e s vm).1).instp.ept_root == 0) ≡ false
      → Ends k resched e t
          (round k e s vm).0
          (pdpe_addr_end (round k e s vm).0 e)
          (resched (round k e s vm).0 (round k e s vm).1)
      → Ends k resched e t s n vm

module _ (k : Kernel) (resched : ℕ → Vm → Vm) where
  loop-Ends :
      (f s n e : ℕ) (vm : Vm)
      → s % page_size ≡ 0
      → e + hpage_size ≤ u64_mod
      → e ≤ s + f * page_size
      → Ends k resched e (clear_page_table_loop k resched f s n e vm) s n vm
  unfolding clear_page_table_loop
  loop-Ends zero s n e vm al fit enough = over (ground arith) refl
  loop-Ends (suc f) s n e vm al fit enough = elim (Bool-cases (ltb s e)) [
    | inr t ↦ over t (rw (t, clear_page_table_loop) refl)
    | inl t ↦
        let o = npt_lookup_hva k vm.instp s npte_page_table false vm.mem in
        let r = clear_round-next s e vm o al (ltb→lt s e t) fit in
        let next = clear_round s e vm o in
        let rest =
          λ (n' : ℕ) (vm' : Vm). loop-Ends f next.0 n' e vm' r.1 fit (omega (arith, r.0)) in
        elim (Bool-cases (next.0 == n && not (next.0 == e))) [
          | inr b ↦ onward t b (rw (t, clear_page_table_loop, b) (rest n next.1))
          | inl b ↦ elim (Bool-cases ((resched next.0 next.1).instp.ept_root == 0)) [
            | inl z ↦ left t b z (rw (t, clear_page_table_loop, b, z) refl)
            | inr z ↦ across t b z (
                rw (t, clear_page_table_loop, b, z)
                  (rest (pdpe_addr_end next.0 e) (resched next.0 next.1)))
          ]
        ]
  ]

-- `npt_clear_page_table` on a range that ends a block of 2M below 2 ^ 64 at most ends, whatever other threads do to
-- the state where it releases the lock: from the start of the range there are finitely many rounds of its loop,
-- after which it is past the end or has left because the root is gone, and the state is then what the function
-- gives.
pub npt_clear_page_table-Ends :
    (k : Kernel) (resched : ℕ → Vm → Vm) (start end : ℕ) (vm : Vm)
    → end + page_size + hpage_size ≤ u64_mod
    → Ends k resched
        (npte_addr (add64 end (page_size - 1)))
        (npt_clear_page_table k resched start end vm)
        (npte_addr start)
        (pdpe_addr_end (npte_addr start) (npte_addr (add64 end (page_size - 1))))
        vm
unfolding npt_clear_page_table
npt_clear_page_table-Ends k resched start end vm fit =
    let s = npte_addr start in
    let e = npte_addr (add64 end (page_size - 1)) in
    loop-Ends k resched (rounds s e) s (pdpe_addr_end s e) e vm (omega arith) (omega arith)
      (omega arith)
