-- ===== src/Device/Regions.antt =====
-- The registered memory regions of core.c.
use slimvm.Base.{
  ℕ, ◌≡◌, ◌≤◌, inl, inr, refl, ◌∙◌, Bool, false, Option, none, some, List, All, take, arith,
  Bool-cases, Option-cases, Ret-cases, add64, sub64, if◌then◌else◌, ltb, ◌==◌, Ret, ok, err, ==→eq,
  ltb→ge,
}
use slimvm.State.{MemRegion, Instance, Vcpu, in_root_mode, max_mem_region_num}
use slimvm.Engine.{Engine}
use slimvm.Mm.{check_mem_region}
use slimvm.Mm.Check.{IsSane, IsWord, check_mem_region_iff}
use slimvm.VcpuTable.{
  vcpu_alloc, vcpu_alloc_with, vcpu_alloc_at, vcpu_allocate_vcpu_no, vcpu_free_vcpu_no, adopt_mm,
  install_vcpu, vcpu_release, vcpu_inject_nmi,
}
use slimvm.Device.{
  Config, User, Task, Request, req_create_vcpu, req_release_vcpu, req_run, req_nmi, req_other,
  req_set_tss_addr, register_regions, accept_regions, run_vcpu, slimvm_run, slimvm_enter, enter_at,
  vcpu_no_of, to_int, slimvm_record_sandbox, ioctl_at, slimvm_dev_ioctl,
}

-- The regions that the translations look at are sane, and no more than fit.
pub record HasSaneRegions (instp : Instance) : Type 0 where
  pub sane : All IsSane (take instp.mem_region_num instp.memp)
  pub bounded : instp.mem_region_num ≤ max_mem_region_num

-- A predicate of the instance that a file holds, if any.
abbrev pub OnFile : (Instance → Type 0) → Option Instance → Type 0
OnFile P none = Unit
OnFile P (some instp) = P instp

-- The engine leaves the regions alone.
pub record KeepsRegions {C : Type 0} (ops : Engine C) : Type 0 where
  pub init_memp : (instp : Instance) → (ops.instance_init_pt instp).1.memp ≡ instp.memp
  pub init_num :
      (instp : Instance) → (ops.instance_init_pt instp).1.mem_region_num ≡ instp.mem_region_num
  pub launch_memp : (instp : Instance) (n : ℕ) (c : C) → (ops.launch instp n c).2.memp ≡ instp.memp
  pub launch_num :
      (instp : Instance) (n : ℕ) (c : C)
      → (ops.launch instp n c).2.mem_region_num ≡ instp.mem_region_num

transfer :
    (a b : Instance)
    → b.memp ≡ a.memp
    → b.mem_region_num ≡ a.mem_region_num
    → HasSaneRegions a
    → HasSaneRegions b
transfer a b m n h = record { sane = rw (m, n) h.sane; bounded = rw n h.bounded }

release-same :
    (instp : Instance) (n : ℕ)
    → ((vcpu_release instp n).0.memp ≡ instp.memp)
      × ((vcpu_release instp n).0.mem_region_num ≡ instp.mem_region_num)
unfolding vcpu_release
release-same instp n = ground arith

inject-same :
    {C : Type 0} (ops : Engine C) (instp : Instance) (n : ℕ)
    → ((vcpu_inject_nmi ops instp n).memp ≡ instp.memp)
      × ((vcpu_inject_nmi ops instp n).mem_region_num ≡ instp.mem_region_num)
unfolding vcpu_inject_nmi
inject-same ops instp n = ground arith

record-same :
    (task : Task) (instp : Instance)
    → ((slimvm_record_sandbox task instp).memp ≡ instp.memp)
      × ((slimvm_record_sandbox task instp).mem_region_num ≡ instp.mem_region_num)
unfolding slimvm_record_sandbox
record-same task instp = ground arith

alloc_with-same :
    {C : Type 0} (ops : Engine C) (conf : C) (mm : ℕ) (mm_count : ℕ → ℕ) (r : Option ℕ × Instance)
    → ((vcpu_alloc_with ops conf mm mm_count r).1.memp ≡ r.1.memp)
      × ((vcpu_alloc_with ops conf mm mm_count r).1.mem_region_num ≡ r.1.mem_region_num)
unfolding vcpu_alloc_with vcpu_alloc_at vcpu_free_vcpu_no adopt_mm install_vcpu
alloc_with-same ops conf mm mm_count (none, instp) = (refl, refl)
alloc_with-same ops conf mm mm_count (some n, instp) = ground arith

alloc-same :
    {C : Type 0} (find : (ℕ → Bool) → ℕ → ℕ) (ops : Engine C) (conf : C) (mm : ℕ) (instp : Instance)
    (mm_count : ℕ → ℕ)
    → ((vcpu_alloc find ops conf mm (instp, mm_count)).1.memp ≡ instp.memp)
      × ((vcpu_alloc find ops conf mm (instp, mm_count)).1.mem_region_num ≡ instp.mem_region_num)
unfolding vcpu_alloc vcpu_allocate_vcpu_no
alloc-same find ops conf mm instp mm_count =
    let w = alloc_with-same ops conf mm mm_count (vcpu_allocate_vcpu_no find instp) in
    let t : ((vcpu_allocate_vcpu_no find instp).1.memp ≡ instp.memp)
        × ((vcpu_allocate_vcpu_no find instp).1.mem_region_num ≡ instp.mem_region_num) =
      ground arith in
    (w.0 ∙ t.0, w.1 ∙ t.1)

-- From a proof that both fields are kept.
transfer_by :
    (a b : Instance)
    → (b.memp ≡ a.memp) × (b.mem_region_num ≡ a.mem_region_num)
    → HasSaneRegions a
    → HasSaneRegions b
transfer_by a b s h = transfer a b s.0 s.1 h

module _ {R : Type 0} (ops : Engine (Config R)) (keeps : KeepsRegions ops) (user : User R)
    (words : (a n : ℕ) (old : List MemRegion) → All IsWord (user.read_regions a n old).1) where
  accept-sane :
      (conf : Config R) (filled : Instance) (r : Ret (Unit {0}))
      → check_mem_region filled conf.mem_region_num ≡ r
      → conf.mem_region_num ≤ max_mem_region_num
      → All IsWord filled.memp
      → filled.mem_region_num ≡ 0
      → HasSaneRegions (accept_regions ops conf filled r).1
  unfolding accept_regions
  accept-sane conf filled (err e) c fits word none_yet = record {
    sane = rw none_yet tt;
    bounded = rw none_yet (omega arith);
  }
  accept-sane conf filled (ok t) c fits word none_yet =
      let set = record filled { mem_region_num = conf.mem_region_num; sid = conf.sid } in
      transfer set (ops.instance_init_pt set).1 (keeps.init_memp set) (keeps.init_num set) (record {
        sane = (check_mem_region_iff filled conf.mem_region_num word).0 c;
        bounded = fits;
      })

  register_regions-sane :
      (conf : Config R) (instp : Instance)
      → HasSaneRegions instp
      → HasSaneRegions (register_regions ops user conf instp).1
  unfolding register_regions
  register_regions-sane conf instp h = elim (Bool-cases (instp.mem_region_num == 0)) [
    | inr e ↦ rw e h
    | inl e ↦ elim (Bool-cases (ltb max_mem_region_num conf.mem_region_num)) [
      | inl l ↦ rw (e, l) h
      | inr l ↦
          let read = user.read_regions conf.mem_region_addr conf.mem_region_num instp.memp in
          let filled = record instp { memp = read.1 } in
          let zero_num = ==→eq instp.mem_region_num 0 e in
          elim (Bool-cases read.0) [
            | inl c ↦
                rw (e, l, c)
                  (accept-sane conf filled (check_mem_region filled conf.mem_region_num) refl
                    (ltb→ge max_mem_region_num conf.mem_region_num l)
                    (words conf.mem_region_addr conf.mem_region_num instp.memp) zero_num)
            | inr c ↦ rw (e, l, c) (record { sane = rw zero_num tt; bounded = h.bounded })
          ]
    ]
  ]

  enter_at-sane :
      (conf : Config R) (n : ℕ) (v : Option Vcpu) (instp : Instance)
      → HasSaneRegions instp
      → HasSaneRegions (enter_at ops conf n v instp).2
  unfolding enter_at
  enter_at-sane conf n none instp h = h
  enter_at-sane conf n (some vcpu) instp h = elim (Bool-cases (ops.vcpu_is_shutdown vcpu)) [
    | inl e ↦ rw e h
    | inr e ↦
        let set = record instp {
          vcpus = λ j. if j == n then some (ops.set_vcpu_mode vcpu in_root_mode) else instp.vcpus j;
        } in
        rw e (
          transfer instp (ops.launch set n conf).2 (keeps.launch_memp set n conf)
            (keeps.launch_num set n conf) h)
  ]

  slimvm_enter-sane :
      (conf : Config R) (instp : Instance)
      → HasSaneRegions instp
      → HasSaneRegions (slimvm_enter ops conf instp).2
  unfolding slimvm_enter
  slimvm_enter-sane conf instp h = elim (Option-cases (vcpu_no_of (to_int conf.vcpu))) [
    | inl e ↦ rw (e, slimvm_enter) h
    | inr (n, e) ↦ elim (Bool-cases instp.shutdown) [
      | inl s ↦ rw (e, s, slimvm_enter) (record { sane = h.sane; bounded = h.bounded })
      | inr s ↦
          rw (e, s, slimvm_enter)
            (enter_at-sane conf n (instp.vcpus n) (record instp { shutdown = false })
              (record { sane = h.sane; bounded = h.bounded }))
    ]
  ]

  run_vcpu-sane :
      (conf : Config R) (instp : Instance)
      → HasSaneRegions instp
      → HasSaneRegions (run_vcpu ops user conf instp).1
  unfolding run_vcpu
  run_vcpu-sane conf instp h =
      let start = record instp { running_vcpus = add64 instp.running_vcpus 1 } in
      let ran = slimvm_enter ops conf start in
      let kept = slimvm_enter-sane conf start (record { sane = h.sane; bounded = h.bounded }) in
      let left : HasSaneRegions (record ran.2 { running_vcpus = sub64 ran.2.running_vcpus 1 }) =
        record { sane = kept.sane; bounded = kept.bounded } in
      elim (Ret-cases ran.0) [
        | inl (a, e) ↦ rw (e, run_vcpu) left
        | inr (x, e) ↦ rw (e, run_vcpu) left
      ]

  slimvm_run-sane :
      (conf : Config R) (instp : Instance)
      → HasSaneRegions instp
      → HasSaneRegions (slimvm_run ops user conf instp).1
  unfolding slimvm_run
  slimvm_run-sane conf instp h =
      let registered = register_regions ops user conf instp in
      let kept = register_regions-sane conf instp h in
      elim (Ret-cases registered.0) [
        | inl (a, e) ↦ rw (e, slimvm_run) (run_vcpu-sane conf registered.1 kept)
        | inr (x, e) ↦ rw (e, slimvm_run) kept
      ]

  ioctl_at-sane :
      (find : (ℕ → Bool) → ℕ → ℕ) (task : Task) (req : Request) (instp : Instance)
      (mm_count : ℕ → ℕ)
      → HasSaneRegions instp
      → HasSaneRegions (ioctl_at find ops user task req (instp, mm_count)).1
  unfolding ioctl_at
  ioctl_at-sane find task req_create_vcpu instp mm_count h = elim (Option-cases user.read_config) [
    | inl e ↦ rw e h
    | inr (conf, e) ↦
        let made = vcpu_alloc find ops conf task.mm (instp, mm_count) in
        let kept = transfer_by instp made.1 (alloc-same find ops conf task.mm instp mm_count) h in
        elim (Ret-cases made.0) [
          | inl (n, r) ↦
              rw (e, r, ioctl_at)
                (transfer_by made.1 (slimvm_record_sandbox task made.1) (record-same task made.1)
                  kept)
          | inr (x, r) ↦ rw (e, r, ioctl_at) kept
        ]
  ]
  ioctl_at-sane find task req_release_vcpu instp mm_count h = elim (Option-cases user.read_int) [
    | inl e ↦ rw e h
    | inr (i, e) ↦ elim (Option-cases (vcpu_no_of i)) [
      | inl v ↦ rw (e, v, ioctl_at) h
      | inr (n, v) ↦
          rw (e, v, ioctl_at) (transfer_by instp (vcpu_release instp n).0 (release-same instp n) h)
    ]
  ]
  ioctl_at-sane find task req_run instp mm_count h = elim (Option-cases user.read_config) [
    | inl e ↦ rw e h
    | inr (conf, e) ↦ rw e (slimvm_run-sane conf instp h)
  ]
  ioctl_at-sane find task (req_set_tss_addr gpa) instp mm_count h = h
  ioctl_at-sane find task req_nmi instp mm_count h = elim (Option-cases user.read_int) [
    | inl e ↦ rw e h
    | inr (i, e) ↦ elim (Option-cases (vcpu_no_of i)) [
      | inl v ↦ rw (e, v, ioctl_at) h
      | inr (n, v) ↦
          rw (e, v, ioctl_at)
            (transfer_by instp (vcpu_inject_nmi ops instp n) (inject-same ops instp n) h)
    ]
  ]
  ioctl_at-sane find task req_other instp mm_count h = h

  -- Whatever request is made on the device file, the registered regions stay at most `MAX_MEM_REGION_NUM`,
  -- each page-sized, page-aligned in the guest and not past 2 ^ 64, where the engine leaves them alone and
  -- what is copied from the user are 64-bit fields.
  pub slimvm_dev_ioctl-HasSaneRegions :
      (find : (ℕ → Bool) → ℕ → ℕ) (task : Task) (req : Request) (private_data : Option Instance)
      (mm_count : ℕ → ℕ)
      → OnFile HasSaneRegions private_data
      → OnFile HasSaneRegions (slimvm_dev_ioctl find ops user task req (private_data, mm_count)).1
  unfolding slimvm_dev_ioctl
  slimvm_dev_ioctl-HasSaneRegions find task req none mm_count h = tt
  slimvm_dev_ioctl-HasSaneRegions find task req (some instp) mm_count h =
      ioctl_at-sane find task req instp mm_count h
