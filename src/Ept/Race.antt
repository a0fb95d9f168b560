-- ===== src/Ept/Race.antt =====
-- A fault and the invalidations of other threads (ept.c). `ept_set_epte` reads `mmu_notifier_seq`, pins the
-- page without a lock, and takes `ept_lock` later; other threads' operations under the lock come between.
use slimvm.Base.{
  subst, ==→eq, ◌==◌, tests, ℕ, suc, ◌+◌, ◌%◌, ◌≤◌, ◌<◌, ◌≡◌, inl, inr, refl, ap, Bool, true, List,
  [], ◌∷◌, arith, Bool-cases, u64_mod, length,
}
use slimvm.Vm.{Vm}
use slimvm.Ept.Flush.{Cpu}
use slimvm.Ept.Lookup.{mmu_notifier_retry}
use slimvm.Ept.Fault.{Target, unlock, ept_commit}
use slimvm.Ept.Notifier.{ept_invalidate_page, invalidate_range_start, invalidate_range_end}
use slimvm.Ept.Counters.{
  invalidate_range_start-counters, invalidate_range_end-counters, ept_invalidate_page-counters,
  ept_commit-counters,
}

-- What another thread may do under the lock: begin or end the invalidation of a range, invalidate a page
-- (`change_pte`, and one round of `clear_flush_young`), or finish a fault of its own.
pub data Event : Type 0 where
  range_start : Cpu → ℕ → ℕ → Event
  range_end : Event
  page : Cpu → ℕ → Event
  commit : ℕ → Bool → ℕ → Target → Event

pub step : Event → Vm → Vm
step (range_start cpu start end) vm = invalidate_range_start cpu start end vm
step range_end vm = invalidate_range_end vm
step (page cpu addr) vm = (ept_invalidate_page cpu addr vm).1
step (commit seq w gpa t) vm = ept_commit seq w gpa t vm

pub run : List Event → Vm → Vm
run [] vm = vm
run (e ∷ es) vm = run es (step e vm)

abbrev pub is_start : Event → ℕ
is_start (range_start _ _ _) = 1
is_start _ = 0

abbrev pub is_end : Event → ℕ
is_end range_end = 1
is_end _ = 0

abbrev pub starts : List Event → ℕ
starts [] = 0
starts (e ∷ es) = is_start e + starts es

abbrev pub ends : List Event → ℕ
ends [] = 0
ends (e ∷ es) = is_end e + ends es

-- `b` invalidations later the sequence is further by `b`, and the count has followed the beginnings and
-- the ends.
pub record Advanced (vm vm' : Vm) (s e n : ℕ) : Type 0 where
  pub bumps : ℕ
  pub bumps_ends : e ≤ bumps
  pub bumps_le : bumps ≤ n
  pub seq_eq : vm'.instp.mmu_notifier_seq ≡ (vm.instp.mmu_notifier_seq + bumps) % u64_mod
  pub count_eq :
      (vm'.instp.mmu_notifier_count + e) % u64_mod ≡ (vm.instp.mmu_notifier_count + s) % u64_mod
  pub count_word : vm'.instp.mmu_notifier_count < u64_mod

abbrev pub seq_of : ℕ × ℕ × ℕ → ℕ
seq_of t = t.1

abbrev pub count_of : ℕ × ℕ × ℕ → ℕ
count_of t = t.2

step-Advanced :
    (e : Event) (vm : Vm)
    → vm.instp.mmu_notifier_seq < u64_mod
    → vm.instp.mmu_notifier_count < u64_mod
    → Advanced vm (step e vm) (is_start e) (is_end e) 1
unfolding step
step-Advanced (range_start cpu start end) vm h k =
    let c = invalidate_range_start-counters cpu start end vm in
    let a = ap seq_of c in
    let b = ap count_of c in
    record {
      bumps = 0;
      bumps_ends = omega arith;
      bumps_le = omega arith;
      seq_eq = omega (arith, a);
      count_eq = omega (arith, b);
      count_word = omega (arith, b);
    }
step-Advanced range_end vm h k =
    let c = invalidate_range_end-counters vm in
    let a = ap seq_of c in
    let b = ap count_of c in
    record {
      bumps = 1;
      bumps_ends = omega arith;
      bumps_le = omega arith;
      seq_eq = omega (arith, a);
      count_eq = omega (arith, b);
      count_word = omega (arith, b);
    }
step-Advanced (page cpu addr) vm h k = elim (ept_invalidate_page-counters cpu addr vm) [
  | inl c ↦
      let a = ap seq_of c in
      let b = ap count_of c in
      record {
        bumps = 0;
        bumps_ends = omega arith;
        bumps_le = omega arith;
        seq_eq = omega (arith, a);
        count_eq = omega (arith, b);
        count_word = omega (arith, b);
      }
  | inr c ↦
      let a = ap seq_of c in
      let b = ap count_of c in
      record {
        bumps = 1;
        bumps_ends = omega arith;
        bumps_le = omega arith;
        seq_eq = omega (arith, a);
        count_eq = omega (arith, b);
        count_word = omega (arith, b);
      }
]
step-Advanced (commit seq w gpa t) vm h k =
    let c = ept_commit-counters seq w gpa t vm in
    let a = ap seq_of c in
    let b = ap count_of c in
    record {
      bumps = 0;
      bumps_ends = omega arith;
      bumps_le = omega arith;
      seq_eq = omega (arith, a);
      count_eq = omega (arith, b);
      count_word = omega (arith, b);
    }

Advanced-trans :
    (vm₁ vm₂ vm₃ : Vm) (s s' e e' n n' : ℕ)
    → Advanced vm₁ vm₂ s e n
    → Advanced vm₂ vm₃ s' e' n'
    → Advanced vm₁ vm₃ (s + s') (e + e') (n + n')
Advanced-trans vm₁ vm₂ vm₃ s s' e e' n n' a b = record {
  bumps = a.bumps + b.bumps;
  bumps_ends = omega arith;
  bumps_le = omega arith;
  seq_eq = omega arith;
  count_eq = omega arith;
  count_word = b.count_word;
}

one-add : (n : ℕ) → 1 + n ≡ suc n
one-add n = omega arith

run-Advanced :
    (es : List Event) (vm : Vm)
    → vm.instp.mmu_notifier_seq < u64_mod
    → vm.instp.mmu_notifier_count < u64_mod
    → Advanced vm (run es vm) (starts es) (ends es) (length es)
unfolding run
run-Advanced [] vm h k = record {
  bumps = 0;
  bumps_ends = omega arith;
  bumps_le = omega arith;
  seq_eq = omega arith;
  count_eq = refl;
  count_word = k;
}
run-Advanced (e ∷ es) vm h k =
    let a = step-Advanced e vm h k in
    let b = run-Advanced es (step e vm) (omega arith) a.count_word in
    subst (λ k. Advanced vm (run es (step e vm)) (is_start e + starts es) (is_end e + ends es) k)
      (one-add (length es))
      (Advanced-trans vm (step e vm) (run es (step e vm)) (is_start e) (starts es) (is_end e)
        (ends es) 1 (length es) a b)

-- After an invalidation began, the count or the sequence gives it away.
Advanced-retry :
    (vm vm' : Vm) (s e n : ℕ)
    → Advanced vm vm' s e n
    → vm.instp.mmu_notifier_seq < u64_mod
    → 0 < s
    → e ≤ vm.instp.mmu_notifier_count + s
    → vm.instp.mmu_notifier_count + s < u64_mod
    → n < u64_mod
    → mmu_notifier_retry vm'.instp vm.instp.mmu_notifier_seq ≡ true
unfolding mmu_notifier_retry
Advanced-retry vm vm' s e n a h began balanced few short =
    elim (Bool-cases (vm'.instp.mmu_notifier_count == 0)) [
      | inr x ↦ rw x
      | inl x ↦ elim (Bool-cases (vm'.instp.mmu_notifier_seq == vm.instp.mmu_notifier_seq)) [
        | inr y ↦ rw (x, y)
        | inl y ↦ absurd (omega (tests, ==→eq _ _ x, ==→eq _ _ y))
      ]
    ]

-- A fault that read the sequence before an invalidation of a range began writes nothing: the memory and
-- the instance are as the other threads left them, and only the page's reference is given back. It is
-- assumed that no more invalidations end than were under way or began, and that fewer than 2 ^ 64 events
-- come between.
pub ept_commit-run :
    (es : List Event) (make_write : Bool) (gpa : ℕ) (t : Target) (vm : Vm)
    → vm.instp.mmu_notifier_seq < u64_mod
    → 0 < starts es
    → ends es ≤ vm.instp.mmu_notifier_count + starts es
    → vm.instp.mmu_notifier_count + starts es < u64_mod
    → length es < u64_mod
    → ept_commit vm.instp.mmu_notifier_seq make_write gpa t (run es vm)
      ≡ unlock t (run es vm).mem (run es vm)
unfolding ept_commit
ept_commit-run es make_write gpa t vm h began balanced few short =
    let a = run-Advanced es vm h (omega arith) in
    rw
      (Advanced-retry vm (run es vm) (starts es) (ends es) (length es) a h began balanced few short)
