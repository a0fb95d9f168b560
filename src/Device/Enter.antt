-- ===== src/Device/Enter.antt =====
-- When core.c enters a vcpu.
use slimvm.Base.{
  ℕ, ◌≡◌, ◌≢◌, ◌<◌, ◌≤◌, inl, inr, refl, true, false, some, arith, Bool-cases, Option-cases,
  if◌then◌else◌, ltb, ◌==◌, ok, err, Errno,
}
use slimvm.State.{Instance, Vcpu, vm_max_vcpus, max_mem_region_num, in_root_mode}
use slimvm.Engine.{Engine}
use slimvm.Mm.{check_mem_region}
use slimvm.Device.{
  Config, User, CInt, nonneg, negative, to_int, vcpu_no_of, register_regions, accept_regions,
  slimvm_enter, enter_at,
}

-- The vcpu that `slimvm_enter` may enter.
pub record CanEnter {R : Type 0} (ops : Engine (Config R)) (conf : Config R) (instp : Instance)
    (n : ℕ) (vcpu : Vcpu) : Type 0 where
  pub in_range : n < vm_max_vcpus
  pub asked : vcpu_no_of (to_int conf.vcpu) ≡ some n
  pub running : instp.shutdown ≡ false
  pub present : instp.vcpus n ≡ some vcpu
  pub alive : ops.vcpu_is_shutdown vcpu ≡ false

vcpu_no_of-bound : (i : CInt) (n : ℕ) → vcpu_no_of i ≡ some n → n < vm_max_vcpus
vcpu_no_of-bound (nonneg m) n h = ground arith
vcpu_no_of-bound (negative m) n h = absurd (cc h)

-- `slimvm_enter` that does not fail has launched the vcpu that the configuration names, in root mode: its
-- number is below `VM_MAX_VCPUS`, it is in the table, and neither it nor the instance was shut down.
pub slimvm_enter-CanEnter :
    {R : Type 0} (ops : Engine (Config R)) (conf : Config R) (instp : Instance)
    → (slimvm_enter ops conf instp).0 ≡ ok tt
    → (n : ℕ) × (vcpu : Vcpu) × CanEnter ops conf instp n vcpu
      × (slimvm_enter ops conf instp
          ≡ ops.launch
              (record instp {
                vcpus = λ j.
                    if j == n then some (ops.set_vcpu_mode vcpu in_root_mode) else instp.vcpus j;
              })
              n
              conf)
unfolding slimvm_enter enter_at
slimvm_enter-CanEnter ops conf instp h = elim (Option-cases (vcpu_no_of (to_int conf.vcpu))) [
  | inl e ↦ absurd (cc (rw (e, slimvm_enter) at h))
  | inr (n, e) ↦ elim (Bool-cases instp.shutdown) [
    | inl s ↦ absurd (cc (rw (e, s, slimvm_enter) at h))
    | inr s ↦ elim (Option-cases (instp.vcpus n)) [
      | inl v ↦ absurd (cc (rw (e, s, v, slimvm_enter) at h))
      | inr (vcpu, v) ↦ elim (Bool-cases (ops.vcpu_is_shutdown vcpu)) [
        | inl d ↦ absurd (cc (rw (e, s, v, d, slimvm_enter) at h))
        | inr d ↦ (
          n,
          vcpu,
          record {
            in_range = vcpu_no_of-bound (to_int conf.vcpu) n e;
            asked = e;
            running = s;
            present = v;
            alive = d;
          },
          ground arith,
        )
      ]
    ]
  ]
]

-- After a run whose regions were accepted but whose page table could not be set up, the next run that can
-- read its configuration skips both: it goes straight on to enter the vcpu.
pub register_regions-again :
    {R : Type 0} (ops : Engine (Config R)) (user later : User R) (conf conf' : Config R)
    (instp : Instance) (e : Errno)
    → instp.mem_region_num ≡ 0
    → ((i : Instance) → (ops.instance_init_pt i).0 ≡ err e)
    → ((i : Instance) → (ops.instance_init_pt i).1.mem_region_num ≡ i.mem_region_num)
    → conf.mem_region_num ≢ 0
    → conf.mem_region_num ≤ max_mem_region_num
    → (user.read_regions conf.mem_region_addr conf.mem_region_num instp.memp).0 ≡ true
    → check_mem_region
        (record instp {
          memp = (user.read_regions conf.mem_region_addr conf.mem_region_num instp.memp).1;
        })
        conf.mem_region_num
      ≡ ok tt
    → ((register_regions ops user conf instp).0 ≡ err e)
      × (register_regions ops later conf' (register_regions ops user conf instp).1
          ≡ (ok tt, (register_regions ops user conf instp).1))
unfolding register_regions accept_regions
register_regions-again ops user later conf conf' instp e fresh fails keeps some_regions fit copied
      sane =
    let memp = (user.read_regions conf.mem_region_addr conf.mem_region_num instp.memp).1 in
    let set = record instp { memp = memp; mem_region_num = conf.mem_region_num; sid = conf.sid } in
    let t0 : (instp.mem_region_num == 0) ≡ true = ground arith in
    let t1 : ltb max_mem_region_num conf.mem_region_num ≡ false = ground arith in
    let first : register_regions ops user conf instp ≡ ops.instance_init_pt set =
      rw (t0, t1, copied, sane) refl in
    let kept = keeps set in
    let t2 : ((ops.instance_init_pt set).1.mem_region_num == 0) ≡ false = ground arith in
    rw first (fails set, rw t2 refl)
