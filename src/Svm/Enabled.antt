-- ===== src/Svm/Enabled.antt =====
-- The error paths of `svm_hardware_enable_all` (svm.c) leave every CPU as it was, and its success leaves all ready.
use slimvm.Base.{
  ◌+◌, ◌-◌, ◌≡◌, inl, inr, refl, sym, ap, ◌∙◌, subst, Bool, true, false, not, if◌then◌else◌, List,
  [], ◌∷◌, Ret, ok, err, Errno, eio, einval, enomem, ebusy, arith, Bool-cases,
}
use slimvm.Svm.Enable.{
  OneCpu, Machine, Kernel, allocate_cpu_data, svm_hardware_enable, allocate_all, enable_all,
  fail_all, after_enable, after_allocate, svm_hardware_enable_all, svm_hardware_disable_all,
}
use slimvm.Svm.Undone.{
  AreIdle, enabled_if_online, undo, enable_all-cons, allocate_all-undo, allocate_all-cons,
  enable_all-undo,
}

-- A CPU that runs guests if it is online, with data that the module has allocated.
abbrev pub IsReady : OneCpu → Type 0
IsReady c =
    (c.cpu_data ≡ true)
    × (c.online ≡ true → (c.svme ≡ true) × (c.hsave ≡ true) × (c.svm_enabled ≡ true))

abbrev pub AreReady : List OneCpu → Type 0
AreReady [] = Unit {0}
AreReady (c ∷ cs) = IsReady c × AreReady cs

one-IsReady :
    (c : OneCpu)
    → (allocate_cpu_data c).0 ≡ true
    → ((allocate_cpu_data c).1.online ≡ true
        → (svm_hardware_enable (allocate_cpu_data c).1).0 ≡ false)
    → IsReady (enabled_if_online (allocate_cpu_data c).1)
unfolding allocate_cpu_data svm_hardware_enable
one-IsReady c a e = elim (Bool-cases c.online) [
  | inl o ↦
      (let f = e (ground (arith, o)) in (ground (arith, a, o, f), λ h. ground (arith, a, o, f)))
  | inr o ↦ (ground (arith, a, o), λ h. ground (arith, a, o, h))
]

-- Where no CPU that is online fails, the first does not, and the rest do not.
enable_all-cons_fine :
    (c : OneCpu) (cs : List OneCpu)
    → (enable_all (c ∷ cs)).0 ≡ false
    → (c.online ≡ true → (svm_hardware_enable c).0 ≡ false) × ((enable_all cs).0 ≡ false)
unfolding enable_all
enable_all-cons_fine c cs h = elim (Bool-cases c.online) [
  | inl o ↦ (λ q. ground (arith, o, h), ground (arith, o, h))
  | inr o ↦ (λ q. absurd (cc (o, q)), ground (arith, o, h))
]

enable_all-AreReady :
    (cs : List OneCpu)
    → (allocate_all cs).0 ≡ true
    → (enable_all (allocate_all cs).1).0 ≡ false
    → AreReady (enable_all (allocate_all cs).1).1
enable_all-AreReady [] a f = unfold allocate_all enable_all in tt
enable_all-AreReady (c ∷ cs) a f =
    let (a', as', e) = allocate_all-cons c cs a in
    let (f', fs') =
      enable_all-cons_fine (allocate_cpu_data c).1 (allocate_all cs).1
        (ap (λ xs. (enable_all xs).0) (sym e) ∙ f) in
    subst AreReady
      (sym (
        ap (λ xs. (enable_all xs).1) e
        ∙ enable_all-cons (allocate_cpu_data c).1 (allocate_all cs).1))
      (one-IsReady c a' f', enable_all-AreReady cs as' fs')

-- What `svm_hardware_enable_all` leaves.
pub record Settled (m : Machine) (o : Ret (Unit {0}) × Machine) : Type 0 where
  pub unwound : (e : Errno) → o.0 ≡ err e → o.1 ≡ m
  pub ready :
      o.0 ≡ ok tt
      → AreReady o.1.cpus
        × (o.1.msr_bitmaps ≡ m.msr_bitmaps + 1)
        × (o.1.io_bitmaps ≡ m.io_bitmaps + 1)
        × (svm_hardware_disable_all o.1 ≡ m)

fail_all-back :
    (m : Machine) (cs : List OneCpu)
    → undo cs ≡ m.cpus
    → fail_all
        (record { cpus = cs; msr_bitmaps = m.msr_bitmaps + 1; io_bitmaps = m.io_bitmaps + 1 })
      ≡ m
unfolding fail_all
fail_all-back m cs h =
    let a : m.msr_bitmaps + 1 - 1 ≡ m.msr_bitmaps = omega arith in
    let b : m.io_bitmaps + 1 - 1 ≡ m.io_bitmaps = omega arith in
    λ i. record { cpus = h i; msr_bitmaps = a i; io_bitmaps = b i }

disabled-back :
    (m : Machine) (cs : List OneCpu)
    → undo cs ≡ m.cpus
    → svm_hardware_disable_all
        (record { cpus = cs; msr_bitmaps = m.msr_bitmaps + 1; io_bitmaps = m.io_bitmaps + 1 })
      ≡ m
unfolding svm_hardware_disable_all
disabled-back m cs h = unfold fail_all in fail_all-back m cs h

-- A step before the CPUs that may fail.
gate :
    (m : Machine) (b : Bool) (e : Errno) (rest : Ret (Unit {0}) × Machine)
    → Settled m rest
    → Settled m (if not b then (err e, m) else rest)
gate m true e rest s = s
gate m false e rest s = record { unwound = λ e' h. refl; ready = λ h. absurd (cc h) }

unwound-Settled : (m m' : Machine) (e : Errno) → m' ≡ m → Settled m (err e, m')
unwound-Settled m m' e h = record { unwound = λ e' q. h; ready = λ q. absurd (cc q) }

abbrev with_bitmaps : Machine → Machine
with_bitmaps m = record m { msr_bitmaps = m.msr_bitmaps + 1; io_bitmaps = m.io_bitmaps + 1 }

after_enable-Settled :
    (m : Machine)
    → AreIdle m.cpus
    → (allocate_all m.cpus).0 ≡ true
    → Settled m (after_enable (with_bitmaps m) (enable_all (allocate_all m.cpus).1))
after_enable-Settled m i a = elim (Bool-cases (enable_all (allocate_all m.cpus).1).0) [
  | inl e ↦ rw e (unwound-Settled m _ ebusy (fail_all-back m _ (enable_all-undo m.cpus i a)))
  | inr e ↦ rw e (record {
    unwound = λ e' q. absurd (cc q);
    ready = λ q. (
      enable_all-AreReady m.cpus a e,
      refl,
      refl,
      disabled-back m _ (enable_all-undo m.cpus i a),
    );
  })
]

after_allocate-Settled :
    (m : Machine)
    → AreIdle m.cpus
    → Settled m (after_allocate (with_bitmaps m) (allocate_all m.cpus))
after_allocate-Settled m i = elim (Bool-cases (allocate_all m.cpus).0) [
  | inl e ↦ rw e (after_enable-Settled m i e)
  | inr e ↦ rw e (unwound-Settled m _ enomem (fail_all-back m _ (allocate_all-undo m.cpus i)))
]

io_bitmap-Settled :
    (k : Kernel) (m : Machine)
    → AreIdle m.cpus
    → Settled m (
        if not k.gives_io_bitmap
        then (err enomem, record m { msr_bitmaps = m.msr_bitmaps + 1 - 1 })
        else after_allocate (with_bitmaps m) (allocate_all m.cpus))
io_bitmap-Settled k m i = elim (Bool-cases k.gives_io_bitmap) [
  | inl e ↦ rw e (after_allocate-Settled m i)
  | inr e ↦
      let a : m.msr_bitmaps + 1 - 1 ≡ m.msr_bitmaps = omega arith in
      rw e (unwound-Settled m _ enomem λ j. record m { msr_bitmaps = a j })
]

-- `svm_hardware_enable_all`, from CPUs that the module has left alone: when it fails, wherever it does, every CPU is as it
-- was, one on which someone else uses SVM included, and what was allocated is given back. When it succeeds,
-- every possible CPU has its data, SVM is on with a save area on every CPU that is online, and one bitmap of
-- each kind has been allocated; `svm_hardware_disable_all` then takes all of it back.
pub svm_hardware_enable_all-Settled :
    (k : Kernel) (m : Machine) → AreIdle m.cpus → Settled m (svm_hardware_enable_all k m)
unfolding svm_hardware_enable_all
svm_hardware_enable_all-Settled k m i = gate m k.cpu_has_svm eio _ (
    gate m k.has_npt eio _ (
      gate m k.exc_nmi einval _ (
        gate m k.svm_init_syscall einval _ (
          gate m k.exceptions_init einval _ (
            gate m k.setup_vmcb_config eio _
              (gate m k.gives_msr_bitmap enomem _ (io_bitmap-Settled k m i)))))))
