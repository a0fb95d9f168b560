-- ===== src/VcpuTable/Alloc.antt =====
-- What creating a vcpu does to the table of vcpu.c.
use slimvm.Base.{
  ℕ, ◌<◌, ◌≡◌, ◌⊎◌, inl, inr, refl, ap, Bool, true, false, Option, none, some, arith, ltb,
  Bool-cases, Option-cases, update, ltb→lt, ltb→ge, ok, err, Errno, enomem, is_some,
}
use slimvm.State.{Instance, Vcpu, vm_max_vcpus}
use slimvm.Engine.{Engine, IsFindFirstZero}
use slimvm.VcpuTable.{
  vcpu_allocate_vcpu_no, vcpu_free_vcpu_no, adopt_mm, install_vcpu, vcpu_alloc_at, vcpu_alloc_with,
  vcpu_alloc, vcpu_release,
}

-- The instance with a number taken.
abbrev pub taken : Instance → ℕ → Instance
taken instp n = record instp { vcpu_bitmap = update instp.vcpu_bitmap n true }

-- Either all numbers are taken, or the lowest free one is.
pub allocate-cases :
    (find : (ℕ → Bool) → ℕ → ℕ) (instp : Instance)
    → IsFindFirstZero find
    → ((vcpu_allocate_vcpu_no find instp ≡ (none, instp))
        × ((i : ℕ) → i < vm_max_vcpus → instp.vcpu_bitmap i ≡ true))
      ⊎ ((n : ℕ) × (n < vm_max_vcpus)
          × (instp.vcpu_bitmap n ≡ false)
          × (vcpu_allocate_vcpu_no find instp ≡ (some n, taken instp n)))
unfolding vcpu_allocate_vcpu_no
allocate-cases find instp law =
    let m = find instp.vcpu_bitmap vm_max_vcpus in
    elim (Bool-cases (ltb m vm_max_vcpus)) [
      | inl e ↦
          let lt = ltb→lt m vm_max_vcpus e in
          inr (m, lt, law.clear instp.vcpu_bitmap vm_max_vcpus lt, rw e refl)
      | inr e ↦
          let ge = ltb→ge m vm_max_vcpus e in
          inl (rw e refl, λ i lt. law.below instp.vcpu_bitmap vm_max_vcpus i (omega arith) lt)
    ]

pub allocate-some :
    (find : (ℕ → Bool) → ℕ → ℕ) (instp : Instance) (n : ℕ)
    → IsFindFirstZero find
    → (vcpu_allocate_vcpu_no find instp).0 ≡ some n
    → (n < vm_max_vcpus)
      × (instp.vcpu_bitmap n ≡ false)
      × ((vcpu_allocate_vcpu_no find instp).1 ≡ taken instp n)
allocate-some find instp n law h = elim (allocate-cases find instp law) [
  | inl c ↦ absurd (cc (rw c.0 at h))
  | inr c ↦ ground (arith, c.1, c.2, c.3)
]

-- Every vcpu in the table has its bit set.
abbrev pub IsMarked : Instance → Type 0
IsMarked instp = (i : ℕ) → is_some (instp.vcpus i) ≡ true → instp.vcpu_bitmap i ≡ true

-- `n` was free, and `after` is `before` with a vcpu under it.
pub record Added (before after : Instance) (n : ℕ) (created : Option Vcpu) : Type 0 where
  pub in_range : n < vm_max_vcpus
  pub was_free : before.vcpu_bitmap n ≡ false
  pub bits : (i : ℕ) → after.vcpu_bitmap i ≡ update before.vcpu_bitmap n true i
  pub slots : (i : ℕ) → after.vcpus i ≡ update before.vcpus n created i
  pub is_created : is_some created ≡ true
  pub has_mm : is_some after.mm ≡ true

-- Nothing of the table has changed.
pub record Kept (before after : Instance) : Type 0 where
  pub bits : (i : ℕ) → after.vcpu_bitmap i ≡ before.vcpu_bitmap i
  pub slots : (i : ℕ) → after.vcpus i ≡ before.vcpus i
  pub mm : after.mm ≡ before.mm

module _ {Config : Type 0} (find : (ℕ → Bool) → ℕ → ℕ) (law : IsFindFirstZero find)
    (ops : Engine Config) (conf : Config) (mm : ℕ) (instp : Instance) (mm_count : ℕ → ℕ) where
  alloc_at-Added :
      (m n : ℕ)
      → m < vm_max_vcpus
      → instp.vcpu_bitmap m ≡ false
      → (vcpu_alloc_at ops conf mm m (taken instp m, mm_count)).0 ≡ ok n
      → Added instp
          (vcpu_alloc_at ops conf mm m (taken instp m, mm_count)).1
          n
          (ops.create_vcpu conf (taken instp n) n)
  unfolding vcpu_alloc_at install_vcpu adopt_mm
  alloc_at-Added m n lt free h = elim (Option-cases (ops.create_vcpu conf (taken instp m) m)) [
    | inl c ↦ absurd (cc (rw (c, vcpu_alloc_at) at h))
    | inr (v, c) ↦
        let same : m ≡ n = cc (rw (c, vcpu_alloc_at) at h) in
        record {
          in_range = ground arith;
          was_free = ground arith;
          bits = λ i. ground arith;
          slots = λ i. ground arith;
          is_created = ground arith;
          has_mm = ground arith;
        }
  ]

  alloc_at-Kept :
      (m : ℕ) (e : Errno)
      → instp.vcpu_bitmap m ≡ false
      → (vcpu_alloc_at ops conf mm m (taken instp m, mm_count)).0 ≡ err e
      → (e ≡ enomem)
        × Kept instp (vcpu_alloc_at ops conf mm m (taken instp m, mm_count)).1
        × ((vcpu_alloc_at ops conf mm m (taken instp m, mm_count)).2 ≡ mm_count)
        × (ops.create_vcpu conf (taken instp m) m ≡ none)
  unfolding vcpu_alloc_at vcpu_free_vcpu_no
  alloc_at-Kept m e free h = elim (Option-cases (ops.create_vcpu conf (taken instp m) m)) [
    | inl c ↦ (
      ground arith,
      record { bits = λ i. ground arith; slots = λ i. ground arith; mm = ground arith },
      ground arith,
      c,
    )
    | inr (v, c) ↦ absurd (cc (rw (c, vcpu_alloc_at) at h))
  ]

  -- The whole of `vcpu_alloc`, by the number that was taken.
  alloc-with :
      (r : Option ℕ × Instance)
      → vcpu_allocate_vcpu_no find instp ≡ r
      → vcpu_alloc find ops conf mm (instp, mm_count) ≡ vcpu_alloc_with ops conf mm mm_count r
  unfolding vcpu_alloc
  alloc-with r e = ap (vcpu_alloc_with ops conf mm mm_count) e

  -- `vcpu_alloc` that returns a number has added a vcpu made by the engine under a number below
  -- `VM_MAX_VCPUS` that was free, and changed no other entry; the instance has an address space.
  pub vcpu_alloc-Added :
      (n : ℕ)
      → (vcpu_alloc find ops conf mm (instp, mm_count)).0 ≡ ok n
      → Added instp
          (vcpu_alloc find ops conf mm (instp, mm_count)).1
          n
          (ops.create_vcpu conf (taken instp n) n)
  unfolding vcpu_alloc_with
  vcpu_alloc-Added n h = elim (allocate-cases find instp law) [
    | inl c ↦ absurd (cc (rw (alloc-with (none, instp) c.0) at h))
    | inr c ↦
        let e = alloc-with (some c.0, taken instp c.0) c.3 in
        rw e (alloc_at-Added c.0 n c.1 c.2 (rw e at h))
  ]

  -- `vcpu_alloc` that fails returns -ENOMEM and leaves the table, the bits, the address space and its
  -- references as they were; either all numbers are taken, or the engine could not make a vcpu for a free
  -- number.
  pub vcpu_alloc-Kept :
      (e : Errno)
      → (vcpu_alloc find ops conf mm (instp, mm_count)).0 ≡ err e
      → (e ≡ enomem)
        × Kept instp (vcpu_alloc find ops conf mm (instp, mm_count)).1
        × ((vcpu_alloc find ops conf mm (instp, mm_count)).2 ≡ mm_count)
        × (((i : ℕ) → i < vm_max_vcpus → instp.vcpu_bitmap i ≡ true)
            ⊎ ((n : ℕ) × (instp.vcpu_bitmap n ≡ false)
                × (ops.create_vcpu conf (taken instp n) n ≡ none)))
  unfolding vcpu_alloc_with
  vcpu_alloc-Kept e h = elim (allocate-cases find instp law) [
    | inl c ↦
        let w = alloc-with (none, instp) c.0 in
        rw w
          (cc (rw w at h), record { bits = λ i. refl; slots = λ i. refl; mm = refl }, refl, inl c.1)
    | inr c ↦
        let w = alloc-with (some c.0, taken instp c.0) c.3 in
        let k = alloc_at-Kept c.0 e c.2 (rw w at h) in rw w (k.0, k.1, k.2, inr (c.0, c.2, k.3))
  ]

-- Nothing of the table is left of a vcpu, and it is what was destroyed.
pub record Undone (before : Instance) (released : Instance × Option Vcpu) (created : Option Vcpu)
    : Type 0 where
  pub bits : (i : ℕ) → released.0.vcpu_bitmap i ≡ before.vcpu_bitmap i
  pub slots : (i : ℕ) → released.0.vcpus i ≡ before.vcpus i
  pub destroyed : released.1 ≡ created

release-Added :
    (before after : Instance) (n : ℕ) (created : Option Vcpu)
    → IsMarked before
    → Added before after n created
    → Undone before (vcpu_release after n) created
unfolding vcpu_release
release-Added before after n created marked a = elim (Option-cases (after.vcpus n)) [
  | inl e ↦ absurd (ground (arith, a.slots n, a.is_created))
  | inr (v, e) ↦ record {
    bits = λ i. ground (arith, a.bits i, a.slots n, a.was_free);
    slots = λ i. ground (arith, a.slots i, a.was_free, marked i);
    destroyed = ground (arith, a.slots n);
  }
]

-- `vcpu_release` of what `vcpu_alloc` added gives the table and the bits back, and the vcpu to destroy,
-- where before it every vcpu in the table had its bit set.
pub vcpu_release-vcpu_alloc :
    {Config : Type 0} (find : (ℕ → Bool) → ℕ → ℕ) (law : IsFindFirstZero find) (ops : Engine Config)
    (conf : Config) (mm : ℕ) (instp : Instance) (mm_count : ℕ → ℕ) (n : ℕ)
    → IsMarked instp
    → (vcpu_alloc find ops conf mm (instp, mm_count)).0 ≡ ok n
    → Undone instp
        (vcpu_release (vcpu_alloc find ops conf mm (instp, mm_count)).1 n)
        (ops.create_vcpu conf (taken instp n) n)
vcpu_release-vcpu_alloc find law ops conf mm instp mm_count n marked h =
    release-Added instp (vcpu_alloc find ops conf mm (instp, mm_count)).1 n
      (ops.create_vcpu conf (taken instp n) n) marked
      (vcpu_alloc-Added find law ops conf mm instp mm_count n h)
