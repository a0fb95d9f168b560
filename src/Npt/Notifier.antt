-- ===== src/Npt/Notifier.antt =====
-- The mmu notifier of npt.c: what the host's changes to the process's page table do to the NPT. A loop over
-- addresses runs on fuel, one round for each page of the range, since each round goes on by a page at least.
use slimvm.Base.{
  ℕ, zero, suc, ◌+◌, ◌-◌, ◌/◌, ◌%◌, ◌^◌, Bool, true, false, not, ◌&&◌, ◌||◌, if◌then◌else◌, ◌==◌,
  ltb, [], page_size, hpage_size, align_down, add64, sub64, inc32, dec32,
}
use slimvm.State.{Instance, vm_max_vcpus}
use slimvm.Paging.{Slot, Outcome, done, fail, read, write}
use slimvm.Vm.{Vm}
use slimvm.Ept.Flush.{Cpu, is_empty, flush_loop}
use slimvm.Npt.Entry.{Kernel, npte_addr, is_npte_huge, is_npte_accessed}
use slimvm.Npt.Lookup.{
  npte_page_table, npte_page_directory, npt_lookup_hva, npt_clear_npte, npt_clear_dir,
}

-- `NPT_PDPE_SIZE`
abbrev pub npt_pdpe_size : ℕ
npt_pdpe_size = 2 ^ 30

abbrev pub npt_align_down : ℕ → ℕ → ℕ
npt_align_down = align_down

abbrev pub npt_align_up : ℕ → ℕ → ℕ
npt_align_up x a = align_down (add64 x (a - 1)) a

abbrev pub set_instp : Vm → Instance → Vm
set_instp vm instp = record vm { instp = instp }

unfoldable pub npt_mmu_get : Vm → Vm
npt_mmu_get vm = set_instp vm (record vm.instp { npt_mmu_users = inc32 vm.instp.npt_mmu_users })

unfoldable pub npt_mmu_put : Vm → Vm
npt_mmu_put vm = set_instp vm (record vm.instp { npt_mmu_users = dec32 vm.instp.npt_mmu_users })

-- The loop over the vcpus is that of ept.c, on the same fields of a vcpu.
unfoldable pub npt_flush_remote_tlbs : Cpu → Instance → Instance × Bool
npt_flush_remote_tlbs cpu instp =
    let (instp', cpus) = flush_loop cpu vm_max_vcpus 0 (instp, []) in
    (instp', if not cpu.cpus_allocated then true else not (is_empty cpus))

unfoldable pub flush : Cpu → Vm → Vm
unfolding npt_flush_remote_tlbs
flush cpu vm = set_instp vm (npt_flush_remote_tlbs cpu vm.instp).0

abbrev pub flush_if : Cpu → Bool × Vm → Bool × Vm
flush_if cpu (true, vm) = (true, flush cpu vm)
flush_if cpu (false, vm) = (false, vm)

abbrev pub bump_seq : Vm → Vm
bump_seq vm =
    set_instp vm (record vm.instp { mmu_notifier_seq = add64 vm.instp.mmu_notifier_seq 1 })

abbrev pub invalidate_at : Cpu → Vm → Outcome Slot → Bool × Vm
invalidate_at cpu vm (fail e m) = (false, vm)
invalidate_at cpu vm (done s m) = flush_if cpu (npt_clear_npte s (bump_seq vm))

unfoldable pub npt_invalidate_page : Kernel → Cpu → ℕ → Vm → Bool × Vm
unfolding flush
npt_invalidate_page k cpu addr vm =
    invalidate_at cpu vm (npt_lookup_hva k vm.instp addr npte_page_table false vm.mem)

abbrev is_done : Outcome Slot → Bool
is_done (done s m) = true
is_done (fail e m) = false

unfoldable pub npt_check_page_mapped : Kernel → ℕ → Vm → Bool
npt_check_page_mapped k addr vm =
    is_done (npt_lookup_hva k vm.instp addr npte_page_table false vm.mem)

-- `accessed = (*npte & __NPTE_A)`: 0 or 32, of type `int`.
abbrev pub accessed_bit : ℕ → ℕ
accessed_bit npte = if is_npte_accessed npte then 32 else 0

-- `flush & accessed`, for a `flush` that is 0 or 1: the lowest bit of `accessed`, or none.
abbrev flush_and : Bool → ℕ → Bool
flush_and flush accessed = flush && not (accessed % 2 == 0)

abbrev pub accessed_at : Cpu → Bool → Vm → Outcome Slot → ℕ × Vm
accessed_at cpu flush_a vm (fail e m) = (0, vm)
accessed_at cpu flush_a vm (done s m) =
    let npte = read s vm.mem in
    let accessed = accessed_bit npte in
    if flush_and flush_a accessed
    then (accessed, flush cpu (record vm { mem = write s (npte - accessed) vm.mem }))
    else (accessed, vm)

unfoldable pub npt_check_page_accessed : Kernel → Cpu → ℕ → Bool → Vm → ℕ × Vm
unfolding flush
npt_check_page_accessed k cpu addr flush_a vm =
    accessed_at cpu flush_a vm (npt_lookup_hva k vm.instp addr npte_page_table false vm.mem)

unfoldable pub pdpe_addr_end : ℕ → ℕ → ℕ
pdpe_addr_end start end =
    let boundary = align_down (add64 start npt_pdpe_size) npt_pdpe_size in
    if ltb (sub64 boundary 1) (sub64 end 1) then boundary else end

-- The body of the loop of `npt_clear_page_table`, at `s` in a range that ends at `e`: the next address, and
-- the state.
abbrev pub clear_round : ℕ → ℕ → Vm → Outcome Slot → ℕ × Vm
clear_round s e vm (fail _ m) = (add64 s page_size, vm)
clear_round s e vm (done p m) =
    if is_npte_huge (read p vm.mem)
    then (let down = npt_align_down s hpage_size in
        let up = npt_align_up s hpage_size in
        (add64 down hpage_size, if ltb down s || ltb e up then (npt_clear_npte p vm).1 else vm))
    else (add64 s page_size, (npt_clear_npte p vm).1)

-- `s`, `n` and the state at the head of the loop. At each boundary of 1G the lock may be released, and
-- `resched s` is what other threads do there.
unfoldable pub clear_page_table_loop : Kernel → (ℕ → Vm → Vm) → ℕ → ℕ → ℕ → ℕ → Vm → Vm
unfolding npt_clear_npte pdpe_addr_end
clear_page_table_loop k resched zero s n e vm = vm
clear_page_table_loop k resched (suc fuel) s n e vm = elim (ltb s e) [
  | false ↦ vm
  | true ↦
      let (s', vm') =
        clear_round s e vm (npt_lookup_hva k vm.instp s npte_page_table false vm.mem) in
      elim (s' == n && not (s' == e)) [
        | false ↦ clear_page_table_loop k resched fuel s' n e vm'
        | true ↦ elim ((resched s' vm').instp.ept_root == 0) [
          | true ↦ resched s' vm'
          | false ↦ clear_page_table_loop k resched fuel s' (pdpe_addr_end s' e) e (resched s' vm')
        ]
      ]
]

-- One round for each page of the range.
abbrev pub rounds : ℕ → ℕ → ℕ
rounds s e = (e - s) / page_size + 1

unfoldable pub npt_clear_page_table : Kernel → (ℕ → Vm → Vm) → ℕ → ℕ → Vm → Vm
unfolding clear_page_table_loop pdpe_addr_end
npt_clear_page_table k resched start end vm =
    let s = npte_addr start in
    let e = npte_addr (add64 end (page_size - 1)) in
    clear_page_table_loop k resched (rounds s e) s (pdpe_addr_end s e) e vm

abbrev pub clear_dir_round : Vm → Outcome Slot → Vm
clear_dir_round vm (fail _ m) = vm
clear_dir_round vm (done p m) = (npt_clear_dir p vm).1

unfoldable pub clear_page_directory_loop : Kernel → ℕ → ℕ → ℕ → Vm → Vm
unfolding npt_clear_dir
clear_page_directory_loop k zero s e vm = vm
clear_page_directory_loop k (suc fuel) s e vm = elim (ltb s e) [
  | true ↦
      clear_page_directory_loop k fuel (add64 s hpage_size) e
        (clear_dir_round vm (npt_lookup_hva k vm.instp s npte_page_directory false vm.mem))
  | false ↦ vm
]

unfoldable pub npt_clear_page_directory : Kernel → ℕ → ℕ → Vm → Vm
unfolding clear_page_directory_loop
npt_clear_page_directory k start end vm =
    if vm.instp.ept_root == 0
    then vm
    else (let s = npt_align_up start hpage_size in
        let e = npt_align_down end hpage_size in clear_page_directory_loop k (rounds s e) s e vm)

abbrev pub begin_invalidation : Vm → Vm
begin_invalidation vm =
    set_instp vm (record vm.instp { mmu_notifier_count = add64 vm.instp.mmu_notifier_count 1 })

abbrev pub count_invalidation : ℕ → ℕ → Vm → Vm
count_invalidation start end vm = set_instp vm (record vm.instp {
  ept_invl_count = add64 vm.instp.ept_invl_count 1;
  ept_invl_range = add64 vm.instp.ept_invl_range (sub64 end start);
})

-- The two loops, under the lock.
unfoldable pub clear_range : Kernel → (ℕ → Vm → Vm) → ℕ → ℕ → Vm → Vm
unfolding npt_clear_page_table npt_clear_page_directory
clear_range k resched start end vm =
    npt_clear_page_directory k start end (npt_clear_page_table k resched start end vm)

unfoldable pub invalidate_range_start : Kernel → (ℕ → Vm → Vm) → Cpu → ℕ → ℕ → Vm → Vm
unfolding npt_mmu_get npt_mmu_put clear_range flush
invalidate_range_start k resched cpu start end vm =
    let cleared = clear_range k resched start end (begin_invalidation (npt_mmu_get vm)) in
    npt_mmu_put (flush cpu (count_invalidation start end cleared))

unfoldable pub invalidate_range_end : Vm → Vm
unfolding npt_mmu_get npt_mmu_put
invalidate_range_end vm =
    let taken = npt_mmu_get vm in
    npt_mmu_put (
      set_instp taken (record taken.instp {
        mmu_notifier_seq = add64 taken.instp.mmu_notifier_seq 1;
        mmu_notifier_count = sub64 taken.instp.mmu_notifier_count 1;
      }))

unfoldable pub change_pte : Kernel → Cpu → ℕ → Vm → Vm
unfolding npt_mmu_get npt_mmu_put npt_invalidate_page
change_pte k cpu address vm = npt_mmu_put (npt_invalidate_page k cpu address (npt_mmu_get vm)).1

-- `ret |= …` for the two kinds of results, as far as it is 0 or not.
abbrev pub young_round : Kernel → Cpu → ℕ → Bool × Vm → Bool × Vm
young_round k cpu start (ret, vm) =
    if k.ad_bits
    then (let (r, vm') = npt_invalidate_page k cpu start vm in (ret || r, vm'))
    else (let (r, vm') = npt_check_page_accessed k cpu start true vm in (ret || not (r == 0), vm'))

unfoldable pub clear_flush_young_loop : Kernel → Cpu → ℕ → ℕ → ℕ → Bool × Vm → Bool × Vm
unfolding npt_invalidate_page npt_check_page_accessed
clear_flush_young_loop k cpu zero start end st = st
clear_flush_young_loop k cpu (suc fuel) start end st = elim (ltb start end) [
  | true ↦
      clear_flush_young_loop k cpu fuel (add64 start page_size) end (young_round k cpu start st)
  | false ↦ st
]

unfoldable pub clear_flush_young : Kernel → Cpu → ℕ → ℕ → Vm → Bool × Vm
unfolding npt_mmu_get npt_mmu_put clear_flush_young_loop
clear_flush_young k cpu start end vm =
    let (ret, vm') =
      clear_flush_young_loop k cpu (rounds start end) start end (false, npt_mmu_get vm) in
    (ret, npt_mmu_put vm')

abbrev pub young_at : Kernel → Cpu → ℕ → Vm → Bool × Vm
young_at k cpu address vm =
    if k.ad_bits
    then (npt_check_page_mapped k address vm, vm)
    else (let (r, vm') = npt_check_page_accessed k cpu address false vm in (not (r == 0), vm'))

unfoldable pub test_young : Kernel → Cpu → ℕ → Vm → Bool × Vm
unfolding npt_mmu_get npt_mmu_put npt_check_page_mapped npt_check_page_accessed
test_young k cpu address vm =
    let (ret, vm') = young_at k cpu address (npt_mmu_get vm) in (ret, npt_mmu_put vm')
