-- ===== src/Npt/Destroyed.antt =====
-- An invalidation of npt.c that releases the lock in between while `instance_destroy_npt` takes the tables
-- away: from then on it looks at no entry.
use slimvm.Base.{
  ℕ, zero, suc, ◌≡◌, ◌≢◌, ◌∙◌, inl, inr, refl, false, not, ◌&&◌, ◌==◌, arith, Bool-cases, ltb,
  ==→eq, ==→ne, ◌-◌, add64, page_size, hpage_size,
}
use slimvm.Paging.{Slot, Outcome, done, fail}
use slimvm.Vm.{Vm}
use slimvm.Npt.Entry.{Kernel, npte_addr}
use slimvm.Npt.Lookup.{
  npt_lookup_hva, npte_page_table, npte_page_directory, npt_clear_dir, npt_trace_mm_stat_unmap,
}
use slimvm.Npt.Notifier.{
  rounds, npt_align_down, npt_align_up, clear_round, clear_page_table_loop, npt_clear_page_table,
  pdpe_addr_end, clear_dir_round, clear_page_directory_loop, npt_clear_page_directory, clear_range,
}
use slimvm.Npt.Invalidate.{clear_npte-root}

-- The state is just as the other threads left it at one release of the lock, before which the root was
-- there.
pub record LeftAsFound (resched : ℕ → Vm → Vm) (vm' : Vm) : Type 0 where
  pub address : ℕ
  pub before : Vm
  pub rooted : before.instp.ept_root ≢ 0
  pub left : vm' ≡ resched address before

clear_round-root :
    (s e : ℕ) (vm : Vm) (o : Outcome Slot)
    → (clear_round s e vm o).1.instp.ept_root ≡ vm.instp.ept_root
clear_round-root s e vm (fail _ m) = refl
clear_round-root s e vm (done p m) = ground (arith, clear_npte-root p vm)

loop-LeftAsFound :
    (k : Kernel) (resched : ℕ → Vm → Vm) (fuel s n e : ℕ) (vm : Vm)
    → vm.instp.ept_root ≢ 0
    → (clear_page_table_loop k resched fuel s n e vm).instp.ept_root ≡ 0
    → LeftAsFound resched (clear_page_table_loop k resched fuel s n e vm)
unfolding clear_page_table_loop
loop-LeftAsFound k resched zero s n e vm h z = absurd (h z)
loop-LeftAsFound k resched (suc fuel) s n e vm h z = elim (Bool-cases (ltb s e)) [
  | inr t ↦ absurd (h (rw (t, clear_page_table_loop) at z))
  | inl t ↦
      let o = npt_lookup_hva k vm.instp s npte_page_table false vm.mem in
      let next = clear_round s e vm o in
      let rooted : next.1.instp.ept_root ≢ 0 =
        λ x. h (omega (arith, x, clear_round-root s e vm o)) in
      elim (Bool-cases (next.0 == n && not (next.0 == e))) [
        | inr b ↦
            rw (t, clear_page_table_loop, b)
              (loop-LeftAsFound k resched fuel next.0 n e next.1 rooted
                (rw (t, clear_page_table_loop, b) at z))
        | inl b ↦ elim (Bool-cases ((resched next.0 next.1).instp.ept_root == 0)) [
          | inl y ↦
              rw (t, clear_page_table_loop, b, y)
                (record { address = next.0; before = next.1; rooted = rooted; left = refl })
          | inr y ↦
              rw (t, clear_page_table_loop, b, y)
                (loop-LeftAsFound k resched fuel next.0 (pdpe_addr_end next.0 e) e
                  (resched next.0 next.1) (==→ne _ _ y) (rw (t, clear_page_table_loop, b, y) at z))
        ]
      ]
]

clear_dir_round-root :
    (vm : Vm) (o : Outcome Slot) → (clear_dir_round vm o).instp.ept_root ≡ vm.instp.ept_root
unfolding npt_clear_dir npt_trace_mm_stat_unmap
clear_dir_round-root vm (fail _ m) = refl
clear_dir_round-root vm (done p m) = ground arith

dir_loop-root :
    (k : Kernel) (fuel s e : ℕ) (vm : Vm)
    → (clear_page_directory_loop k fuel s e vm).instp.ept_root ≡ vm.instp.ept_root
unfolding clear_page_directory_loop
dir_loop-root k zero s e vm = refl
dir_loop-root k (suc fuel) s e vm = elim (Bool-cases (ltb s e)) [
  | inl t ↦
      let o = npt_lookup_hva k vm.instp s npte_page_directory false vm.mem in
      rw (t, clear_page_directory_loop)
        (dir_loop-root k fuel (add64 s hpage_size) e (clear_dir_round vm o)
          ∙ clear_dir_round-root vm o)
  | inr f ↦ rw (f, clear_page_directory_loop)
]

-- The loops over a range of an instance whose root is there end with the root gone only where another thread
-- took it away at a release of the lock, and then the state is just as that thread left it: neither loop
-- changes anything afterwards.
pub clear_range-LeftAsFound :
    (k : Kernel) (resched : ℕ → Vm → Vm) (start end : ℕ) (vm : Vm)
    → vm.instp.ept_root ≢ 0
    → (clear_range k resched start end vm).instp.ept_root ≡ 0
    → LeftAsFound resched (clear_range k resched start end vm)
unfolding clear_range npt_clear_page_directory npt_clear_page_table
clear_range-LeftAsFound k resched start end vm h z =
    let s = npte_addr start in
    let e = npte_addr (add64 end (page_size - 1)) in
    let tabled = npt_clear_page_table k resched start end vm in
    elim (Bool-cases (tabled.instp.ept_root == 0)) [
      | inl t ↦
          rw t (loop-LeftAsFound k resched (rounds s e) s (pdpe_addr_end s e) e vm h (==→eq _ _ t))
      | inr t ↦
          let ds = npt_align_up start hpage_size in
          let de = npt_align_down end hpage_size in
          let kept = dir_loop-root k (rounds ds de) ds de tabled in
          absurd (==→ne _ _ t (omega (arith, kept, rw t at z)))
    ]
