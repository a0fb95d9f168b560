-- ===== src/Ept/Notifier.antt =====
-- The mmu notifier of ept.c: what the host's changes to the process's page table do to the EPT. A loop over
-- addresses runs on fuel, one round for each page of the range, since each round goes on by a page at least.
use slimvm.Base.{
  ℕ, zero, suc, ◌+◌, ◌-◌, ◌/◌, ◌%◌, Bool, true, false, not, ◌&&◌, ◌||◌, if◌then◌else◌, ◌==◌, ltb,
  page_size, hpage_size, align_down, add64, sub64,
}
use slimvm.State.{Instance}
use slimvm.Paging.{Slot, Outcome, done, fail, read, write}
use slimvm.Vm.{Vm}
use slimvm.Ept.Entry.{epte_addr, is_epte_huge, is_epte_accessed}
use slimvm.Ept.Flush.{Cpu, ept_flush_remote_tlbs}
use slimvm.Ept.Lookup.{
  page_table, page_directory, ept_lookup_hva, ept_trace_mm_stat_unmap, ept_clear_epte,
  ept_clear_dir,
}

-- `ept_align_up`
abbrev pub align_up : ℕ → ℕ → ℕ
align_up x a = align_down (add64 x (a - 1)) a

abbrev pub set_instp : Vm → Instance → Vm
set_instp vm instp = record vm { instp = instp }

unfoldable pub flush : Cpu → Vm → Vm
unfolding ept_flush_remote_tlbs
flush cpu vm = set_instp vm (ept_flush_remote_tlbs cpu vm.instp).0

-- `ept_trace_mm_stat_unmap(instp, *epte); ept_clear_epte(epte);`, and whether there was an entry.
unfoldable pub unmap : Slot → Vm → Bool × Vm
unfolding ept_clear_epte ept_trace_mm_stat_unmap
unmap s vm =
    let (ret, m) = ept_clear_epte s vm.mem in
    (ret, record vm { instp = ept_trace_mm_stat_unmap vm.instp (read s vm.mem); mem = m })

abbrev pub flush_if : Cpu → Bool × Vm → Bool × Vm
flush_if cpu (true, vm) = (true, flush cpu vm)
flush_if cpu (false, vm) = (false, vm)

abbrev pub bump_seq : Vm → Vm
bump_seq vm =
    set_instp vm (record vm.instp { mmu_notifier_seq = add64 vm.instp.mmu_notifier_seq 1 })

abbrev pub invalidate_at : Cpu → Vm → Outcome Slot → Bool × Vm
invalidate_at cpu vm (fail e m) = (false, vm)
invalidate_at cpu vm (done s m) = flush_if cpu (unmap s (bump_seq vm))

unfoldable pub ept_invalidate_page : Cpu → ℕ → Vm → Bool × Vm
unfolding flush unmap
ept_invalidate_page cpu addr vm =
    invalidate_at cpu vm (ept_lookup_hva vm.instp addr page_table false vm.mem)

abbrev pub is_done : Outcome Slot → Bool
is_done (done s m) = true
is_done (fail e m) = false

unfoldable pub ept_check_page_mapped : ℕ → Vm → Bool
ept_check_page_mapped addr vm = is_done (ept_lookup_hva vm.instp addr page_table false vm.mem)

-- `accessed = *epte & __EPTE_A`: 0 or 256, of type `int`.
abbrev pub accessed_bit : ℕ → ℕ
accessed_bit epte = if is_epte_accessed epte then 256 else 0

-- `flush & accessed`, for a `flush` that is 0 or 1: the lowest bit of `accessed`, or none.
abbrev pub flush_and : Bool → ℕ → Bool
flush_and flush accessed = flush && not (accessed % 2 == 0)

abbrev pub accessed_at : Cpu → Bool → Vm → Outcome Slot → ℕ × Vm
accessed_at cpu flush_a vm (fail e m) = (0, vm)
accessed_at cpu flush_a vm (done s m) =
    let epte = read s vm.mem in
    let accessed = accessed_bit epte in
    if flush_and flush_a accessed
    then (accessed, flush cpu (record vm { mem = write s (epte - accessed) vm.mem }))
    else (accessed, vm)

unfoldable pub ept_check_page_accessed : Cpu → ℕ → Bool → Vm → ℕ × Vm
unfolding flush
ept_check_page_accessed cpu addr flush_a vm =
    accessed_at cpu flush_a vm (ept_lookup_hva vm.instp addr page_table false vm.mem)

-- One round of `ept_clear_page_table`, at `s` in a range that ends at `e`: the next address, and the state.
abbrev pub clear_round : ℕ → ℕ → Vm → Outcome Slot → ℕ × Vm
clear_round s e vm (fail _ m) = (add64 s page_size, vm)
clear_round s e vm (done p m) =
    if is_epte_huge (read p vm.mem)
    then (let down = align_down s hpage_size in
        let up = align_up s hpage_size in
        (add64 down hpage_size, if ltb down s || ltb e up then (unmap p vm).1 else vm))
    else (add64 s page_size, (unmap p vm).1)

unfoldable pub clear_page_table_loop : ℕ → ℕ → ℕ → Vm → Vm
unfolding unmap
clear_page_table_loop zero s e vm = vm
clear_page_table_loop (suc fuel) s e vm = elim (ltb s e) [
  | true ↦
      let (s', vm') = clear_round s e vm (ept_lookup_hva vm.instp s page_table false vm.mem) in
      clear_page_table_loop fuel s' e vm'
  | false ↦ vm
]

-- One round for each page of the range.
abbrev pub rounds : ℕ → ℕ → ℕ
rounds s e = (e - s) / page_size + 1

unfoldable pub ept_clear_page_table : ℕ → ℕ → Vm → Vm
unfolding clear_page_table_loop
ept_clear_page_table start end vm =
    let s = epte_addr start in
    let e = epte_addr (add64 end (page_size - 1)) in clear_page_table_loop (rounds s e) s e vm

abbrev pub clear_dir_round : Vm → Outcome Slot → Vm
clear_dir_round vm (fail _ m) = vm
clear_dir_round vm (done p m) =
    let epte = read p vm.mem in
    let vm' =
      if is_epte_huge epte then set_instp vm (ept_trace_mm_stat_unmap vm.instp epte) else vm in
    (ept_clear_dir p vm').1

unfoldable pub clear_page_directory_loop : ℕ → ℕ → ℕ → Vm → Vm
unfolding ept_trace_mm_stat_unmap ept_clear_dir
clear_page_directory_loop zero s e vm = vm
clear_page_directory_loop (suc fuel) s e vm = elim (ltb s e) [
  | true ↦
      clear_page_directory_loop fuel (add64 s hpage_size) e
        (clear_dir_round vm (ept_lookup_hva vm.instp s page_directory false vm.mem))
  | false ↦ vm
]

unfoldable pub ept_clear_page_directory : ℕ → ℕ → Vm → Vm
unfolding clear_page_directory_loop
ept_clear_page_directory start end vm =
    let s = align_up start hpage_size in
    let e = align_down end hpage_size in clear_page_directory_loop (rounds s e) s e vm

abbrev pub count_invalidation : ℕ → ℕ → Vm → Vm
count_invalidation start end vm = set_instp vm (record vm.instp {
  ept_invl_count = add64 vm.instp.ept_invl_count 1;
  ept_invl_range = add64 vm.instp.ept_invl_range (sub64 end start);
})

abbrev pub begin_invalidation : Vm → Vm
begin_invalidation vm =
    set_instp vm (record vm.instp { mmu_notifier_count = add64 vm.instp.mmu_notifier_count 1 })

unfoldable pub invalidate_range_start : Cpu → ℕ → ℕ → Vm → Vm
unfolding ept_clear_page_table ept_clear_page_directory flush
invalidate_range_start cpu start end vm =
    let cleared =
      ept_clear_page_directory start end (ept_clear_page_table start end (begin_invalidation vm)) in
    flush cpu (count_invalidation start end cleared)

unfoldable pub invalidate_range_end : Vm → Vm
invalidate_range_end vm = set_instp vm (record vm.instp {
  mmu_notifier_seq = add64 vm.instp.mmu_notifier_seq 1;
  mmu_notifier_count = sub64 vm.instp.mmu_notifier_count 1;
})

unfoldable pub change_pte : Cpu → ℕ → Vm → Vm
unfolding ept_invalidate_page
change_pte cpu address vm = (ept_invalidate_page cpu address vm).1

-- `ret |= …` for the two kinds of results, as far as it is 0 or not.
abbrev pub young_round : Cpu → Bool → ℕ → Bool × Vm → Bool × Vm
young_round cpu ad_bits start (ret, vm) =
    if ad_bits
    then (let (r, vm') = ept_invalidate_page cpu start vm in (ret || r, vm'))
    else (let (r, vm') = ept_check_page_accessed cpu start true vm in (ret || not (r == 0), vm'))

unfoldable pub clear_flush_young_loop : Cpu → Bool → ℕ → ℕ → ℕ → Bool × Vm → Bool × Vm
unfolding ept_invalidate_page ept_check_page_accessed
clear_flush_young_loop cpu ad_bits zero start end st = st
clear_flush_young_loop cpu ad_bits (suc fuel) start end st = elim (ltb start end) [
  | true ↦
      clear_flush_young_loop cpu ad_bits fuel (add64 start page_size) end
        (young_round cpu ad_bits start st)
  | false ↦ st
]

unfoldable pub clear_flush_young : Cpu → Bool → ℕ → ℕ → Vm → Bool × Vm
unfolding clear_flush_young_loop
clear_flush_young cpu ad_bits start end vm =
    clear_flush_young_loop cpu ad_bits (rounds start end) start end (false, vm)

unfoldable pub test_young : Cpu → Bool → ℕ → Vm → Bool × Vm
unfolding ept_check_page_mapped ept_check_page_accessed
test_young cpu ad_bits address vm =
    if ad_bits
    then (ept_check_page_mapped address vm, vm)
    else (let (r, vm') = ept_check_page_accessed cpu address false vm in (not (r == 0), vm'))
