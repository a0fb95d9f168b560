-- ===== src/Ept/Stale.antt =====
-- Two things that ept.c does not do: the test of the accessed bit never clears it, and an invalidation of a
-- part of a 2M block that starts at the block's first byte leaves the block's 2M entry in place.
use slimvm.Base.{
  ℕ, zero, suc, ◌+◌, ◌-◌, ◌/◌, ◌%◌, ◌≤◌, ◌<◌, ◌≡◌, ◌≢◌, refl, ap, ◌∙◌, Bool, true, false, some,
  arith, ltb, addr_inval, page_size, hpage_size, u64_mod, align_down, add64,
}
use native.Mathlib.Numerals.{add-one}
use slimvm.Mm.{hva_to_gpa}
use slimvm.Paging.{Mem, Slot, Outcome, done, fail, read}
use slimvm.Paging.Hardware.{leaf}
use slimvm.Ept.Counters.{flush-counters}
use slimvm.Paging.Leaf.{walk-leaf}
use slimvm.Vm.{Vm}
use slimvm.Ept.Entry.{ept_format, epte_frame, epte_addr, is_epte_huge}
use slimvm.Ept.Flush.{Cpu}
use slimvm.Ept.Lookup.{page_table, ept_lookup_gpa, ept_lookup_hva}
use slimvm.Ept.Notifier.{
  align_up, rounds, accessed_bit, flush_and, accessed_at, ept_check_page_accessed, clear_round,
  clear_page_table_loop, ept_clear_page_table, clear_page_directory_loop, ept_clear_page_directory,
  begin_invalidation, count_invalidation, flush, invalidate_range_start,
}
use slimvm.Ept.Tables.{root_of, ept_leaf}

flush_and-accessed : (f : Bool) (epte : ℕ) → flush_and f (accessed_bit epte) ≡ false
flush_and-accessed f epte = ground arith

accessed_at-same :
    (cpu : Cpu) (f : Bool) (vm : Vm) (o : Outcome Slot) → (accessed_at cpu f vm o).1 ≡ vm
accessed_at-same cpu f vm (fail e m) = refl
accessed_at-same cpu f vm (done s m) = rw (flush_and-accessed f (read s vm.mem))

-- `ept_check_page_accessed` changes nothing, whether or not it is told to flush: `flush & accessed` is the
-- lowest bit of 0x100, so the accessed bit is never cleared and no TLB is flushed.
pub ept_check_page_accessed-same :
    (cpu : Cpu) (addr : ℕ) (flush_a : Bool) (vm : Vm)
    → (ept_check_page_accessed cpu addr flush_a vm).1 ≡ vm
unfolding ept_check_page_accessed
ept_check_page_accessed-same cpu addr f vm =
    accessed_at-same cpu f vm (ept_lookup_hva vm.instp addr page_table false vm.mem)

-- The lookup at a host address that a leaf maps.
lookup_hva-leaf :
    (vm : Vm) (hva e : ℕ)
    → hva_to_gpa vm.instp hva ≢ addr_inval
    → ept_leaf vm (hva_to_gpa vm.instp hva) ≡ some e
    → (s : Slot) × (ept_lookup_hva vm.instp hva page_table false vm.mem ≡ done s vm.mem)
      × (read s vm.mem ≡ e)
unfolding ept_lookup_hva ept_lookup_gpa
lookup_hva-leaf vm hva e n h =
    let r = walk-leaf ept_format 3 (root_of vm) (hva_to_gpa vm.instp hva) vm.mem e h in
    (r.0, ground (arith, r.1), r.2)

-- In one round the block is skipped.
clear_round-skip :
    (vm : Vm) (s e v : ℕ) (p : Slot) (m : Mem)
    → s % hpage_size ≡ 0
    → s < e
    → s + hpage_size < u64_mod
    → read p vm.mem ≡ v
    → is_epte_huge v ≡ true
    → clear_round s e vm (done p m) ≡ (add64 s hpage_size, vm)
clear_round-skip vm s e v p m aligned lo fit r huge = ground arith

loop_end : (fuel s e : ℕ) (vm : Vm) → ltb s e ≡ false → clear_page_table_loop fuel s e vm ≡ vm
unfolding clear_page_table_loop
loop_end zero s e vm h = refl
loop_end (suc fuel) s e vm h = rw (h, clear_page_table_loop)

dir_loop_end :
    (fuel s e : ℕ) (vm : Vm) → ltb s e ≡ false → clear_page_directory_loop fuel s e vm ≡ vm
unfolding clear_page_directory_loop
dir_loop_end zero s e vm h = refl
dir_loop_end (suc fuel) s e vm h = rw (h, clear_page_directory_loop)

-- The whole loop is that round.
clear_page_table_loop-skip :
    (vm : Vm) (s e v fuel : ℕ)
    → s % hpage_size ≡ 0
    → s < e
    → e ≤ s + hpage_size
    → s + hpage_size < u64_mod
    → hva_to_gpa vm.instp s ≢ addr_inval
    → ept_leaf vm (hva_to_gpa vm.instp s) ≡ some v
    → is_epte_huge v ≡ true
    → clear_page_table_loop (suc fuel) s e vm ≡ vm
unfolding clear_page_table_loop
clear_page_table_loop-skip vm s e v fuel aligned lo hi fit n h huge =
    let r = lookup_hva-leaf vm s v n h in
    let t : ltb s e ≡ true = ground arith in
    let round = clear_round-skip vm s e v r.0 vm.mem aligned lo fit r.2 huge in
    rw (t, r.1, round, clear_page_table_loop)
      (loop_end fuel (add64 s hpage_size) e vm (ground arith))

begin-hva :
    (vm : Vm) (hva : ℕ) → hva_to_gpa (begin_invalidation vm).instp hva ≡ hva_to_gpa vm.instp hva
unfolding hva_to_gpa
begin-hva vm hva = refl

clear_page_table-partial :
    (vm : Vm) (start end v : ℕ)
    → start % hpage_size ≡ 0
    → start < end
    → end < start + hpage_size
    → start + hpage_size < u64_mod
    → hva_to_gpa vm.instp start ≢ addr_inval
    → ept_leaf vm (hva_to_gpa vm.instp start) ≡ some v
    → is_epte_huge v ≡ true
    → ept_clear_page_table start end vm ≡ vm
unfolding ept_clear_page_table
clear_page_table-partial vm start end v aligned lo hi fit n h huge =
    let s : epte_addr start ≡ start = omega arith in
    let e = epte_addr (add64 end (page_size - 1)) in
    rw (s, add-one)
      (clear_page_table_loop-skip vm start e v ((e - start) / page_size) aligned (omega arith)
        (omega arith) fit n h huge)

clear_page_directory-partial :
    (vm : Vm) (start end : ℕ)
    → start % hpage_size ≡ 0
    → start < end
    → end < start + hpage_size
    → start + hpage_size < u64_mod
    → ept_clear_page_directory start end vm ≡ vm
unfolding ept_clear_page_directory
clear_page_directory-partial vm start end aligned lo hi fit =
    let s = align_up start hpage_size in
    let e = align_down end hpage_size in dir_loop_end (rounds s e) s e vm (ground arith)

flush-leaf : (cpu : Cpu) (vm : Vm) (g : ℕ) → ept_leaf (flush cpu vm) g ≡ ept_leaf vm g
unfolding flush
flush-leaf cpu vm g =
    ap (λ r. leaf ept_format vm.mem (epte_frame r) g)
      (ap (λ (t : ℕ × ℕ × ℕ). t.0) (flush-counters cpu vm))

-- `invalidate_range_start` of a range that begins at the first byte of a 2M block and ends before the
-- block does, where a 2M entry maps the block: no guest address is mapped differently afterwards, so the
-- invalidated pages stay mapped. `up` is then `s` itself, and `e < up` cannot hold.
pub invalidate_range_start-stale :
    (cpu : Cpu) (vm : Vm) (start end v : ℕ)
    → start % hpage_size ≡ 0
    → start < end
    → end < start + hpage_size
    → start + hpage_size < u64_mod
    → hva_to_gpa vm.instp start ≢ addr_inval
    → ept_leaf vm (hva_to_gpa vm.instp start) ≡ some v
    → is_epte_huge v ≡ true
    → (g : ℕ) → ept_leaf (invalidate_range_start cpu start end vm) g ≡ ept_leaf vm g
unfolding invalidate_range_start
invalidate_range_start-stale cpu vm start end v aligned lo hi fit n h huge g =
    let begun = begin_invalidation vm in
    let table : ept_clear_page_table start end begun ≡ begun =
      clear_page_table-partial begun start end v aligned lo hi fit (rw (begin-hva vm start) n)
        (rw (begin-hva vm start) h) huge in
    let dir = clear_page_directory-partial begun start end aligned lo hi fit in
    flush-leaf cpu
      (count_invalidation start end
        (ept_clear_page_directory start end (ept_clear_page_table start end begun)))
      g
    ∙ ap (λ (x : Vm). ept_leaf x g) (ap (ept_clear_page_directory start end) table ∙ dir)
