-- ===== src/VcpuTable.antt =====
-- vcpu.c, and `instance_get_vcpu` of instance.c: the table of an instance's vcpus. The bit of a number says
-- that it is taken, by a vcpu in the table or by a thread that is still creating one.
pub mod Alloc
pub mod Interleaving
use slimvm.Base.{
  ℕ, ◌+◌, ◌<◌, Bool, true, false, if◌then◌else◌, ltb, leb, Option, none, some, update, is_some, Ret,
  ok, err, enomem,
}
use slimvm.State.{Instance, Vcpu, vm_max_vcpus}
use slimvm.Engine.{Engine}

-- `none` is the source's -1. `find` is `find_first_zero_bit`.
unfoldable pub vcpu_allocate_vcpu_no : ((ℕ → Bool) → ℕ → ℕ) → Instance → Option ℕ × Instance
vcpu_allocate_vcpu_no find instp =
    let vcpu_no = find instp.vcpu_bitmap vm_max_vcpus in
    if ltb vcpu_no vm_max_vcpus
    then (some vcpu_no, record instp { vcpu_bitmap = update instp.vcpu_bitmap vcpu_no true })
    else (none, instp)

unfoldable pub vcpu_free_vcpu_no : Instance → ℕ → Instance
vcpu_free_vcpu_no instp vcpu_no = record instp {
  vcpu_bitmap = update instp.vcpu_bitmap vcpu_no false;
}

-- `cmpxchg(&instp->mm, NULL, current->mm)`, and the references taken on an address space, by which
-- `mm_count` grows.
unfoldable pub adopt_mm : ℕ → Instance × (ℕ → ℕ) → Instance × (ℕ → ℕ)
adopt_mm mm (instp, mm_count) = elim instp.mm [
  | none ↦ (record instp { mm = some mm }, update mm_count mm (mm_count mm + 1))
  | some _ ↦ (instp, mm_count)
]

unfoldable pub install_vcpu : Instance → ℕ → Vcpu → Instance
install_vcpu instp vcpu_no vcpu = record instp { vcpus = update instp.vcpus vcpu_no (some vcpu) }

-- The part of `vcpu_alloc` after the number is taken.
unfoldable pub vcpu_alloc_at :
    {Config : Type 0}
    → Engine Config
    → Config
    → ℕ
    → ℕ
    → Instance × (ℕ → ℕ)
    → Ret ℕ × Instance × (ℕ → ℕ)
unfolding vcpu_free_vcpu_no adopt_mm install_vcpu
vcpu_alloc_at ops conf mm vcpu_no (instp, mm_count) = elim (ops.create_vcpu conf instp vcpu_no) [
  | none ↦ (err enomem, vcpu_free_vcpu_no instp vcpu_no, mm_count)
  | some vcpu ↦
      let (adopted, mm_count') = adopt_mm mm (instp, mm_count) in
      (ok vcpu_no, install_vcpu adopted vcpu_no vcpu, mm_count')
]

-- From the answer of `vcpu_allocate_vcpu_no` on; `mm` is `current->mm`.
unfoldable pub vcpu_alloc_with :
    {Config : Type 0}
    → Engine Config
    → Config
    → ℕ
    → (ℕ → ℕ)
    → Option ℕ × Instance
    → Ret ℕ × Instance × (ℕ → ℕ)
unfolding vcpu_alloc_at
vcpu_alloc_with ops conf mm mm_count (none, instp) = (err enomem, instp, mm_count)
vcpu_alloc_with ops conf mm mm_count (some vcpu_no, instp) =
    vcpu_alloc_at ops conf mm vcpu_no (instp, mm_count)

unfoldable pub vcpu_alloc :
    {Config : Type 0}
    → ((ℕ → Bool) → ℕ → ℕ)
    → Engine Config
    → Config
    → ℕ
    → Instance × (ℕ → ℕ)
    → Ret ℕ × Instance × (ℕ → ℕ)
unfolding vcpu_allocate_vcpu_no vcpu_alloc_with
vcpu_alloc find ops conf mm (instp, mm_count) =
    vcpu_alloc_with ops conf mm mm_count (vcpu_allocate_vcpu_no find instp)

-- The instance after it, and the vcpu that is then destroyed, if any.
unfoldable pub vcpu_release : Instance → ℕ → Instance × Option Vcpu
vcpu_release instp vcpu_no = elim (instp.vcpus vcpu_no) [
  | none ↦ (instp, none)
  | some vcpu ↦ (
    record instp {
      vcpu_bitmap = update instp.vcpu_bitmap vcpu_no false;
      vcpus = update instp.vcpus vcpu_no none;
    },
    some vcpu,
  )
]

unfoldable pub vcpu_inject_nmi : {Config : Type 0} → Engine Config → Instance → ℕ → Instance
vcpu_inject_nmi ops instp vcpu_no = elim (instp.vcpus vcpu_no) [
  | none ↦ instp
  | some vcpu ↦ record instp {
    vcpus = update instp.vcpus vcpu_no (some (ops.make_nmi_request vcpu));
  }
]

-- `vcpu_no` is an `int`; a negative one is none of these numbers, and gives the null pointer too.
unfoldable pub instance_get_vcpu : Instance → ℕ → Option Vcpu
instance_get_vcpu instp vcpu_no = if leb vm_max_vcpus vcpu_no then none else instp.vcpus vcpu_no
