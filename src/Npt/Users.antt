-- ===== src/Npt/Users.antt =====
-- The count of running notifiers in npt.c, `npt_mmu_users`, for which `instance_destroy_npt` waits: each
-- callback gives back what it took.
use slimvm.Base.{
  ℕ, zero, suc, ◌+◌, ◌-◌, ◌^◌, ◌<◌, ◌≡◌, ◌∙◌, inl, inr, refl, Bool, false, true, not, ◌&&◌, ◌==◌,
  arith, Bool-cases, ltb, add64, page_size, hpage_size, Option, none, some, List, [],
}
use slimvm.State.{vm_max_vcpus, Instance, Vcpu}
use slimvm.Paging.{Slot, Outcome, done, fail, read, write}
use slimvm.Vm.{Vm}
use slimvm.Ept.Flush.{Cpu, add_ipi, flush_round, flush_loop, flush_vcpu}
use slimvm.Npt.Entry.{Kernel, npte_addr}
use slimvm.Npt.Lookup.{
  npt_lookup_hva, npte_page_table, npte_page_directory, npt_clear_dir, npt_clear_npte,
  npt_trace_mm_stat_unmap,
}
use slimvm.Npt.Notifier.{
  rounds, npt_align_down, npt_align_up, npt_mmu_get, npt_mmu_put, npt_flush_remote_tlbs, flush,
  flush_if, bump_seq, invalidate_at, npt_invalidate_page, accessed_at, accessed_bit,
  npt_check_page_accessed, clear_round, clear_page_table_loop, npt_clear_page_table, pdpe_addr_end,
  clear_dir_round, clear_page_directory_loop, npt_clear_page_directory, clear_range,
  begin_invalidation, count_invalidation, invalidate_range_start, invalidate_range_end, change_pte,
  young_round, clear_flush_young_loop, clear_flush_young, test_young,
}

abbrev pub users : Vm → ℕ
users vm = vm.instp.npt_mmu_users

add_ipi-users :
    (o : Option ℕ) (instp : Instance) (cpus : List ℕ)
    → (add_ipi o (instp, cpus)).0.npt_mmu_users ≡ instp.npt_mmu_users
add_ipi-users none instp cpus = refl
add_ipi-users (some c) instp cpus = refl

flush_round-users :
    (cpu : Cpu) (b : Bool) (o : Option Vcpu) (i : ℕ) (instp : Instance) (cpus : List ℕ)
    → (flush_round cpu b o i (instp, cpus)).0.npt_mmu_users ≡ instp.npt_mmu_users
unfolding flush_round
flush_round-users cpu true (some v) i instp cpus = add_ipi-users (flush_vcpu cpu v).1 _ cpus
flush_round-users cpu true none i instp cpus = refl
flush_round-users cpu false o i instp cpus = refl

flush_loop-users :
    (cpu : Cpu) (k i : ℕ) (instp : Instance) (cpus : List ℕ)
    → (flush_loop cpu k i (instp, cpus)).0.npt_mmu_users ≡ instp.npt_mmu_users
unfolding flush_loop
flush_loop-users cpu zero i instp cpus = refl
flush_loop-users cpu (suc k) i instp cpus =
    let (instp', cpus') = flush_round cpu (instp.vcpu_bitmap i) (instp.vcpus i) i (instp, cpus) in
    flush_loop-users cpu k (i + 1) instp' cpus'
    ∙ flush_round-users cpu (instp.vcpu_bitmap i) (instp.vcpus i) i instp cpus

flush-users : (cpu : Cpu) (vm : Vm) → users (flush cpu vm) ≡ users vm
unfolding flush npt_flush_remote_tlbs
flush-users cpu vm = flush_loop-users cpu vm_max_vcpus 0 vm.instp []

clear_npte-users : (s : Slot) (vm : Vm) → users (npt_clear_npte s vm).1 ≡ users vm
unfolding npt_clear_npte npt_trace_mm_stat_unmap
clear_npte-users s vm = ground arith

clear_dir_round-users : (vm : Vm) (o : Outcome Slot) → users (clear_dir_round vm o) ≡ users vm
unfolding npt_clear_dir npt_trace_mm_stat_unmap
clear_dir_round-users vm (fail _ m) = refl
clear_dir_round-users vm (done p m) = ground arith

clear_round-users :
    (s e : ℕ) (vm : Vm) (o : Outcome Slot) → users (clear_round s e vm o).1 ≡ users vm
clear_round-users s e vm (fail _ m) = refl
clear_round-users s e vm (done p m) = ground (arith, clear_npte-users p vm)

flush_if-users : (cpu : Cpu) (r : Bool × Vm) → users (flush_if cpu r).1 ≡ users r.1
flush_if-users cpu (true, vm) = flush-users cpu vm
flush_if-users cpu (false, vm) = refl

invalidate_at-users :
    (cpu : Cpu) (vm : Vm) (o : Outcome Slot) → users (invalidate_at cpu vm o).1 ≡ users vm
invalidate_at-users cpu vm (fail e m) = refl
invalidate_at-users cpu vm (done s m) =
    flush_if-users cpu (npt_clear_npte s (bump_seq vm)) ∙ clear_npte-users s (bump_seq vm)

accessed_at-users :
    (cpu : Cpu) (b : Bool) (vm : Vm) (o : Outcome Slot)
    → users (accessed_at cpu b vm o).1 ≡ users vm
accessed_at-users cpu b vm (fail e m) = refl
accessed_at-users cpu b vm (done s m) =
    let npte = read s vm.mem in
    let value = npte - accessed_bit npte in
    ground (arith, flush-users cpu (record vm { mem = write s value vm.mem }))

invalidate_page-users :
    (k : Kernel) (cpu : Cpu) (addr : ℕ) (vm : Vm)
    → users (npt_invalidate_page k cpu addr vm).1 ≡ users vm
unfolding npt_invalidate_page
invalidate_page-users k cpu addr vm = invalidate_at-users cpu vm _

check_page_accessed-users :
    (k : Kernel) (cpu : Cpu) (addr : ℕ) (b : Bool) (vm : Vm)
    → users (npt_check_page_accessed k cpu addr b vm).1 ≡ users vm
unfolding npt_check_page_accessed
check_page_accessed-users k cpu addr b vm = accessed_at-users cpu b vm _

young_round-users :
    (k : Kernel) (cpu : Cpu) (start : ℕ) (st : Bool × Vm)
    → users (young_round k cpu start st).1 ≡ users st.1
young_round-users k cpu start (ret, vm) =
    ground
      (arith, invalidate_page-users k cpu start vm, check_page_accessed-users k cpu start true vm)

young_loop-users :
    (k : Kernel) (cpu : Cpu) (fuel start end : ℕ) (st : Bool × Vm)
    → users (clear_flush_young_loop k cpu fuel start end st).1 ≡ users st.1
unfolding clear_flush_young_loop
young_loop-users k cpu zero start end st = refl
young_loop-users k cpu (suc fuel) start end st = elim (Bool-cases (ltb start end)) [
  | inl t ↦
      rw (t, clear_flush_young_loop)
        (young_loop-users k cpu fuel (add64 start page_size) end (young_round k cpu start st)
          ∙ young_round-users k cpu start st)
  | inr t ↦ rw (t, clear_flush_young_loop)
]

dir_loop-users :
    (k : Kernel) (fuel s e : ℕ) (vm : Vm)
    → users (clear_page_directory_loop k fuel s e vm) ≡ users vm
unfolding clear_page_directory_loop
dir_loop-users k zero s e vm = refl
dir_loop-users k (suc fuel) s e vm = elim (Bool-cases (ltb s e)) [
  | inl t ↦
      let o = npt_lookup_hva k vm.instp s npte_page_directory false vm.mem in
      rw (t, clear_page_directory_loop)
        (dir_loop-users k fuel (add64 s hpage_size) e (clear_dir_round vm o)
          ∙ clear_dir_round-users vm o)
  | inr f ↦ rw (f, clear_page_directory_loop)
]

module _ (k : Kernel) (resched : ℕ → Vm → Vm)
    (others : (s : ℕ) (vm : Vm) → users (resched s vm) ≡ users vm) where
  table_loop-users :
      (fuel s n e : ℕ) (vm : Vm) → users (clear_page_table_loop k resched fuel s n e vm) ≡ users vm
  unfolding clear_page_table_loop
  table_loop-users zero s n e vm = refl
  table_loop-users (suc fuel) s n e vm = elim (Bool-cases (ltb s e)) [
    | inr t ↦ rw (t, clear_page_table_loop)
    | inl t ↦
        let o = npt_lookup_hva k vm.instp s npte_page_table false vm.mem in
        let next = clear_round s e vm o in
        let here = clear_round-users s e vm o in
        elim (Bool-cases (next.0 == n && not (next.0 == e))) [
          | inr b ↦
              rw (t, clear_page_table_loop, b) (table_loop-users fuel next.0 n e next.1 ∙ here)
          | inl b ↦ elim (Bool-cases ((resched next.0 next.1).instp.ept_root == 0)) [
            | inl z ↦ rw (t, clear_page_table_loop, b, z) (others next.0 next.1 ∙ here)
            | inr z ↦
                rw (t, clear_page_table_loop, b, z)
                  (table_loop-users fuel next.0 (pdpe_addr_end next.0 e) e (resched next.0 next.1)
                    ∙ others next.0 next.1
                    ∙ here)
          ]
        ]
  ]

  clear_range-users :
      (start end : ℕ) (vm : Vm) → users (clear_range k resched start end vm) ≡ users vm
  unfolding clear_range npt_clear_page_directory npt_clear_page_table
  clear_range-users start end vm =
      let s = npte_addr start in
      let e = npte_addr (add64 end (page_size - 1)) in
      let tabled = npt_clear_page_table k resched start end vm in
      let first = table_loop-users (rounds s e) s (pdpe_addr_end s e) e vm in
      let ds = npt_align_up start hpage_size in
      let de = npt_align_down end hpage_size in
      elim (Bool-cases (tabled.instp.ept_root == 0)) [
        | inl z ↦ rw z first
        | inr z ↦ rw z (dir_loop-users k (rounds ds de) ds de tabled ∙ first)
      ]

  -- Each callback of the notifier leaves the count of running notifiers as it found it, on every branch and
  -- also where the invalidation of a range stops early, if what other threads do at the releases of the lock
  -- leaves it (each of them gives back what it took). The count is a 32-bit number.
  pub notifier-users :
      (cpu : Cpu) (start end : ℕ) (vm : Vm)
      → users vm < 2 ^ 32
      → (users (invalidate_range_start k resched cpu start end vm) ≡ users vm)
        × (users (invalidate_range_end vm) ≡ users vm)
        × (users (change_pte k cpu start vm) ≡ users vm)
        × (users (clear_flush_young k cpu start end vm).1 ≡ users vm)
        × (users (test_young k cpu start vm).1 ≡ users vm)
  unfolding invalidate_range_start invalidate_range_end change_pte clear_flush_young test_young
      npt_mmu_get npt_mmu_put
  notifier-users cpu start end vm w =
      let got = npt_mmu_get vm in
      let begun = begin_invalidation got in
      let cleared = clear_range k resched start end begun in
      let a =
        flush-users cpu (count_invalidation start end cleared)
        ∙ clear_range-users start end begun in
      let c = invalidate_page-users k cpu start got in
      let d = young_loop-users k cpu (rounds start end) start end (false, got) in
      let f = check_page_accessed-users k cpu start false got in
      (omega (arith, a), omega arith, omega (arith, c), omega (arith, d), ground (arith, f))
