-- ===== src/Ept/Rounds.antt =====
-- The fuel of the loops of the MMU notifier in ept.c: the rounds that they are given are enough, so that more
-- would change nothing.
use slimvm.Base.{
  ℕ, zero, suc, ◌+◌, ◌-◌, ◌*◌, ◌%◌, ◌≤◌, ◌<◌, ◌≡◌, inl, inr, refl, false, arith, Bool-cases, ltb,
  ltb→lt, add64, page_size, hpage_size, u64_mod,
}
use slimvm.Paging.{Slot, Outcome, done, fail, read}
use slimvm.Vm.{Vm}
use slimvm.Ept.Entry.{is_epte_huge, epte_addr}
use slimvm.Ept.Lookup.{ept_lookup_hva, page_table}
use slimvm.Ept.Notifier.{rounds, clear_round, clear_page_table_loop, ept_clear_page_table}

-- A round goes on by a page at least, and to the start of a page.
clear_round-next :
    (s e : ℕ) (vm : Vm) (o : Outcome Slot)
    → s % page_size ≡ 0
    → s < e
    → e + hpage_size ≤ u64_mod
    → (s + page_size ≤ (clear_round s e vm o).0) × ((clear_round s e vm o).0 % page_size ≡ 0)
clear_round-next s e vm (fail x m) al lt fit = ground arith
clear_round-next s e vm (done p m) al lt fit = elim (Bool-cases (is_epte_huge (read p vm.mem))) [
  | inl h ↦ rw h (omega arith)
  | inr h ↦ rw h (omega arith)
]

loop_over : (fuel s e : ℕ) (vm : Vm) → e ≤ s → clear_page_table_loop fuel s e vm ≡ vm
unfolding clear_page_table_loop
loop_over zero s e vm le = refl
loop_over (suc fuel) s e vm le =
    let t : ltb s e ≡ false = ground arith in rw (t, clear_page_table_loop) refl

loop-fuel :
    (n m s e : ℕ) (vm : Vm)
    → n ≤ m
    → s % page_size ≡ 0
    → e + hpage_size ≤ u64_mod
    → e ≤ s + n * page_size
    → clear_page_table_loop m s e vm ≡ clear_page_table_loop n s e vm
unfolding clear_page_table_loop
loop-fuel zero m s e vm le al fit enough = loop_over m s e vm (omega arith)
loop-fuel (suc n) zero s e vm le al fit enough = absurd (omega arith)
loop-fuel (suc n) (suc m) s e vm le al fit enough = elim (Bool-cases (ltb s e)) [
  | inr t ↦ rw (t, clear_page_table_loop) refl
  | inl t ↦
      let o = ept_lookup_hva vm.instp s page_table false vm.mem in
      let r = clear_round-next s e vm o al (ltb→lt s e t) fit in
      let next = clear_round s e vm o in
      rw (t, clear_page_table_loop)
        (loop-fuel n m next.0 e next.1 (omega arith) r.1 fit (omega (arith, r.0)))
]

-- `ept_clear_page_table` on a range that ends a block of 2M below 2 ^ 64 at most comes to its end: its loop
-- with any more rounds gives the same.
pub ept_clear_page_table-rounds :
    (start end more : ℕ) (vm : Vm)
    → end + page_size + hpage_size ≤ u64_mod
    → clear_page_table_loop
        (rounds (epte_addr start) (epte_addr (add64 end (page_size - 1))) + more)
        (epte_addr start)
        (epte_addr (add64 end (page_size - 1)))
        vm
      ≡ ept_clear_page_table start end vm
unfolding ept_clear_page_table
ept_clear_page_table-rounds start end more vm fit =
    let s = epte_addr start in
    let e = epte_addr (add64 end (page_size - 1)) in
    loop-fuel (rounds s e) (rounds s e + more) s e vm (omega arith) (omega arith) (omega arith)
      (omega arith)
