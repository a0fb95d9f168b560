-- ===== src/Svm/Isolated.antt =====
-- No vcpu runs on what another has cached: the invariant of svm.c's address space identifiers.
use slimvm.Base.{
  ap, update-same, update-other, ℕ, ◌+◌, ◌≡◌, ◌≤◌, ◌<◌, ◌^◌, ◌⊎◌, inl, inr, refl, true, false, some,
  arith, update, update_cases, Bool-cases,
}
use slimvm.Svm.Asid.{
  CpuData, SvmVcpu, Cache, System, Step, Steps, load, request, run, start, also, svm_cpu_init,
  svm_create_vcpu, load_vcpu, svm_vcpu_flush_tlb, before_entry, after_exit, seen, filled,
  flush_asid, is_on,
}
use slimvm.Svm.Allotted.{IsCpu, changed, aged}
use slimvm.Svm.Entered.{
  Entered, before_entry-Entered, filled-IsCpu, Entered-within, before_entry-range,
}

abbrev IsSystem : ℕ → System → Type 0
IsSystem n s = (c : ℕ) → IsCpu c n (s.cpus c) s.vcpus (s.caches c)

load_vcpu-cases :
    (v : SvmVcpu) (d : ℕ) → (load_vcpu v d ≡ v) ⊎ ((load_vcpu v d).asid_generation ≡ 0)
unfolding load_vcpu
load_vcpu-cases v d = elim (Bool-cases (is_on v.cpu d)) [
  | inl e ↦ inl (rw e refl)
  | inr e ↦ inr (rw e refl)
]

-- The run, seen from any CPU `d`.
run-IsCpu :
    (n : ℕ) (s : System) (i c : ℕ) (sd : CpuData) (v : SvmVcpu)
    → IsSystem n s
    → Entered c (n + 1) sd s.vcpus (s.caches c) i v
    → (d : ℕ)
    → IsCpu d
        (n + 1)
        (update s.cpus c sd d)
        (update s.vcpus i (after_exit v))
        (update s.caches c (filled v i (s.caches c)) d)
unfolding after_exit
run-IsCpu n s i c sd v g x =
    update_cases s.cpus c sd
      (λ d u.
        IsCpu d (n + 1) u (update s.vcpus i (after_exit v))
          (update s.caches c (filled v i (s.caches c)) d))
      (rw (update-same s.caches c (filled v i (s.caches c))) (
        filled-IsCpu c (n + 1) sd _ (seen v (s.caches c)) i v.control_asid
          (rw (update-same s.vcpus i (after_exit v)) x.current)
          (rw (update-same s.vcpus i (after_exit v)) x.tagged) x.keeps))
      (λ d ne. rw (update-other s.caches c (filled v i (s.caches c)) d ne) (
        aged d n _ _ _ (
          changed d n (s.cpus d) s.vcpus (s.caches d) i _ (g d)
            (λ h. absurd (ne (cc (h, x.current.0)))) (λ h. absurd (ne (cc (h.0, x.current.0)))))))

Step-IsSystem :
    (n : ℕ) (s t : System) → n + 2 < 2 ^ 64 → IsSystem n s → Step s t → IsSystem (n + 1) t
unfolding svm_vcpu_flush_tlb
Step-IsSystem n s t few g (load i d) = λ c. elim (load_vcpu-cases (s.vcpus i) d) [
  | inl e ↦ aged c n _ _ _ (
      changed c n (s.cpus c) s.vcpus (s.caches c) i _ (g c) (rw e ((g c).past i))
        (rw e (λ h. (h, refl))))
  | inr z ↦ aged c n _ _ _ (
      changed c n (s.cpus c) s.vcpus (s.caches c) i _ (g c) (λ h. omega (arith, z))
        (λ h. absurd (omega (arith, z, h.1, (g c).started))))
]
Step-IsSystem n s t few g (request i) = λ c.
    aged c n _ _ _
      (changed c n (s.cpus c) s.vcpus (s.caches c) i _ (g c) (λ h. (g c).past i h) (λ h. (h, refl)))
Step-IsSystem n s t few g (run i c o) =
    run-IsCpu n s i c _ _ g (before_entry-Entered c n (s.cpus c) s.vcpus (s.caches c) i few o (g c))

Steps-IsSystem :
    (s : System) (n : ℕ) (t : System) → n + 1 < 2 ^ 64 → IsSystem 0 s → Steps s n t → IsSystem n t
Steps-IsSystem s n t few g (start z e) = rw (z, e) g
Steps-IsSystem s m u few g (also {n} {t = t} st x q) =
    rw q (Step-IsSystem n t u (omega (arith, q)) (Steps-IsSystem s n t (omega (arith, q)) g st) x)

-- Every CPU is as `svm_cpu_init` leaves it, with a processor that has an identifier beyond those that are
-- reserved, and every vcpu new; the CPUs may have anything cached.
pub record IsFresh (s : System) : Type 0 where
  pub nasid : ℕ
  pub max_sev_asid : ℕ
  pub narrow : nasid < 2 ^ 32
  pub room : max_sev_asid + 2 ≤ nasid
  pub cpus : (c : ℕ) → s.cpus c ≡ svm_cpu_init nasid max_sev_asid
  pub vcpus : (i : ℕ) → s.vcpus i ≡ svm_create_vcpu
  pub caches : (c a j : ℕ) → s.caches c a j ≡ true → a < nasid

IsFresh-IsSystem : (s : System) → IsFresh s → IsSystem 0 s
unfolding svm_cpu_init
IsFresh-IsSystem s f c = record {
  started = rw (f.cpus c) (omega arith);
  counted = rw (f.cpus c) (omega arith);
  narrow = rw (f.cpus c) (omega (arith, f.narrow, f.room));
  room = rw (f.cpus c) (omega (arith, f.narrow, f.room));
  low = rw (f.cpus c) (omega (arith, f.narrow, f.room));
  high = rw (f.cpus c) (omega (arith, f.narrow, f.room));
  past = λ i h. rw (f.cpus c, f.vcpus i) (omega arith);
  within = λ i h. absurd (cc (ap (λ (v : SvmVcpu). v.cpu) (f.vcpus i), h.0));
  distinct = λ i j hi hj e. absurd (cc (ap (λ (v : SvmVcpu). v.cpu) (f.vcpus i), hi.0));
  used = λ a j h. rw (f.cpus c) (omega (arith, f.caches c a j h, f.narrow, f.room));
  owned = λ i j h e. absurd (cc (ap (λ (v : SvmVcpu). v.cpu) (f.vcpus i), h.0));
}

-- What a run of vcpu `i` on CPU `c` finds: of its own identifier, which is one that the processor gives to guests,
-- only its own translations are cached, and none where a flush was asked for.
pub record IsIsolated (sd : CpuData) (svm : SvmVcpu) (i : ℕ) (cached : Cache) : Type 0 where
  pub own :
      (j : ℕ)
      → seen (before_entry sd svm).1 cached (before_entry sd svm).1.control_asid j ≡ true
      → j ≡ i
  pub emptied :
      svm.tlb_ctl ≡ flush_asid
      → (j : ℕ) → seen (before_entry sd svm).1 cached (before_entry sd svm).1.control_asid j ≡ false
  pub lower : sd.min_asid ≤ (before_entry sd svm).1.control_asid
  pub upper : (before_entry sd svm).1.control_asid ≤ sd.max_asid

-- However the vcpus are loaded on CPUs, run and asked for flushes: a vcpu that enters the guest finds no
-- translations under its identifier that another vcpu has cached there, and none of its own where a flush was
-- asked for; the identifier is in the range that the processor has left for guests. The machine starts as
-- `svm_cpu_init` and `svm_create_vcpu` leave it, the processor has an identifier that is not reserved, and
-- fewer than 2 ^ 64 - 2 steps are made.
pub Steps-IsIsolated :
    (n : ℕ) (s t : System) (i c : ℕ)
    → IsFresh s
    → Steps s n t
    → n + 2 < 2 ^ 64
    → (t.vcpus i).cpu ≡ some c
    → IsIsolated (t.cpus c) (t.vcpus i) i (t.caches c)
Steps-IsIsolated n s t i c f st few o =
    let g = Steps-IsSystem s n t (omega (arith, few)) (IsFresh-IsSystem s f) st in
    let x = before_entry-Entered c n (t.cpus c) t.vcpus (t.caches c) i few o (g c) in
    let (low, high) = before_entry-range (t.cpus c) (t.vcpus i) in
    let w = Entered-within c (n + 1) _ t.vcpus (t.caches c) i _ x in
    record {
      own = x.own;
      emptied = x.emptied;
      lower = omega (arith, low, w.0);
      upper = omega (arith, high, w.1, x.keeps.high);
    }
