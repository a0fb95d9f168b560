-- ===== src/Device.antt =====
-- core.c: the requests on the device file, for an instance that the file holds. What a thread reads from
-- user memory is a parameter of the request.
pub mod Regions
pub mod Enter
use slimvm.Base.{
  ℕ, ◌+◌, ◌%◌, ◌*◌, ◌^◌, Bool, true, false, not, ◌||◌, if◌then◌else◌, ltb, leb, ◌==◌, Option, none,
  some, List, Ret, ok, err, Errno, eperm, eio, enomem, einval, enotty, u64_mod, add64, sub64,
  page_size,
}
use slimvm.State.{MemRegion, Instance, Vcpu, in_root_mode, vm_max_vcpus, max_mem_region_num}
use slimvm.Engine.{Engine}
use slimvm.Mm.{check_mem_region}
use slimvm.VcpuTable.{vcpu_alloc, vcpu_release, vcpu_inject_nmi}

-- `struct slimvm_config`; `registers` are the two register blocks and the fields that only an engine reads.
pub record Config (Registers : Type 0) : Type 0 where
  pub registers : Registers
  pub sid : ℕ
  pub vcpu : ℕ
  pub mem_region_num : ℕ
  pub mem_region_addr : ℕ

-- An `int`.
pub data CInt : Type 0 where
  nonneg negative : ℕ → CInt

abbrev pub to_int : ℕ → CInt
to_int w = let low = w % 2 ^ 32 in if ltb low (2 ^ 31) then nonneg low else negative low

-- The number of a vcpu, for an `int` that is one.
abbrev pub vcpu_no_of : CInt → Option ℕ
vcpu_no_of (negative n) = none
vcpu_no_of (nonneg n) = if leb vm_max_vcpus n then none else some n

-- What `copy_from_user` and `copy_to_user` do: a value or a fault, for the regions whether all were
-- copied and what the array then holds.
pub record User (Registers : Type 0) : Type 0 where
  pub read_config : Option (Config Registers)
  pub read_int : Option CInt
  pub read_regions : ℕ → ℕ → List MemRegion → Bool × List MemRegion
  pub write_config : Config Registers → Bool

-- The part of the kernel's task that is read: `current->mm`, its tgid, and the task of that tgid.
pub record Task : Type 0 where
  pub mm : ℕ
  pub tgid : ℕ
  pub tsk : Option ℕ

pub data Request : Type 0 where
  req_create_vcpu req_release_vcpu req_run req_nmi req_other : Request
  req_set_tss_addr : ℕ → Request

unfoldable pub enter_at :
    {R : Type 0}
    → Engine (Config R)
    → Config R
    → ℕ
    → Option Vcpu
    → Instance
    → Ret (Unit {0}) × Config R × Instance
enter_at ops conf vcpu_no none instp = (err eperm, conf, instp)
enter_at ops conf vcpu_no (some vcpu) instp =
    if ops.vcpu_is_shutdown vcpu
    then (err eperm, conf, instp)
    else ops.launch
        (record instp {
          vcpus = λ j.
              if j == vcpu_no then some (ops.set_vcpu_mode vcpu in_root_mode) else instp.vcpus j;
        })
        vcpu_no conf

-- The source's -1 is `eperm`.
unfoldable pub slimvm_enter :
    {R : Type 0} → Engine (Config R) → Config R → Instance → Ret (Unit {0}) × Config R × Instance
unfolding enter_at
slimvm_enter ops conf instp = elim (vcpu_no_of (to_int conf.vcpu)) [
  | none ↦ (err eperm, conf, instp)
  | some vcpu_no ↦
      if instp.shutdown
      then (err eperm, conf, instp)
      else enter_at ops conf vcpu_no (instp.vcpus vcpu_no) instp
]

unfoldable pub accept_regions :
    {R : Type 0}
    → Engine (Config R)
    → Config R
    → Instance
    → Ret (Unit {0})
    → Ret (Unit {0}) × Instance
accept_regions ops conf instp (err e) = (err e, instp)
accept_regions ops conf instp (ok _) =
    ops.instance_init_pt (record instp { mem_region_num = conf.mem_region_num; sid = conf.sid })

-- The part of `SLIMVM_RUN` under `mm_mutex`.
unfoldable pub register_regions :
    {R : Type 0} → Engine (Config R) → User R → Config R → Instance → Ret (Unit {0}) × Instance
unfolding accept_regions
register_regions ops user conf instp =
    if not (instp.mem_region_num == 0)
    then (ok tt, instp)
    else if ltb max_mem_region_num conf.mem_region_num
    then (err einval, instp)
    else let (copied, memp) =
        user.read_regions conf.mem_region_addr conf.mem_region_num instp.memp in
      let filled = record instp { memp = memp } in
      if copied
      then accept_regions ops conf filled (check_mem_region filled conf.mem_region_num)
      else (err eio, filled)

-- From the label `slimvm_enter` on.
unfoldable pub run_vcpu :
    {R : Type 0} → Engine (Config R) → User R → Config R → Instance → Ret ℕ × Instance
unfolding slimvm_enter
run_vcpu ops user conf instp =
    let (r, conf', after) =
      slimvm_enter ops conf (record instp { running_vcpus = add64 instp.running_vcpus 1 }) in
    let left = record after { running_vcpus = sub64 after.running_vcpus 1 } in
    elim r [
      | err e ↦ (err e, left)
      | ok _ ↦ (if user.write_config conf' then ok 0 else err eio, left)
    ]

unfoldable pub slimvm_run :
    {R : Type 0} → Engine (Config R) → User R → Config R → Instance → Ret ℕ × Instance
unfolding register_regions run_vcpu
slimvm_run ops user conf instp =
    let (r, registered) = register_regions ops user conf instp in
    let ran = run_vcpu ops user conf registered in
    elim r [ err e ↦ (err e, registered) | ok _ ↦ ran ]

-- `slimvm_record_sandbox` of instance.c.
unfoldable pub slimvm_record_sandbox : Task → Instance → Instance
slimvm_record_sandbox task instp = elim instp.sandbox_tsk [
  | some _ ↦ instp
  | none ↦ record instp { sandbox_pid = task.tgid; sandbox_tsk = task.tsk }
]

-- The requests, at the instance of the file, with the references of address spaces.
unfoldable pub ioctl_at :
    {R : Type 0}
    → ((ℕ → Bool) → ℕ → ℕ)
    → Engine (Config R)
    → User R
    → Task
    → Request
    → Instance × (ℕ → ℕ)
    → Ret ℕ × Instance × (ℕ → ℕ)
unfolding vcpu_alloc vcpu_release vcpu_inject_nmi slimvm_run slimvm_record_sandbox
ioctl_at find ops user task req_create_vcpu (instp, mm_count) = elim user.read_config [
  | none ↦ (err eio, instp, mm_count)
  | some conf ↦
      let (r, after, mm_count') = vcpu_alloc find ops conf task.mm (instp, mm_count) in
      elim r [
        | err _ ↦ (err enomem, after, mm_count')
        | ok vcpu_no ↦ (ok vcpu_no, slimvm_record_sandbox task after, mm_count')
      ]
]
ioctl_at find ops user task req_release_vcpu (instp, mm_count) = elim user.read_int [
  | none ↦ (err eio, instp, mm_count)
  | some n ↦ elim (vcpu_no_of n) [
    | none ↦ (err einval, instp, mm_count)
    | some vcpu_no ↦ (ok 0, (vcpu_release instp vcpu_no).0, mm_count)
  ]
]
ioctl_at find ops user task req_run (instp, mm_count) = elim user.read_config [
  | none ↦ (err eio, instp, mm_count)
  | some conf ↦ let (r, after) = slimvm_run ops user conf instp in (r, after, mm_count)
]
ioctl_at find ops user task (req_set_tss_addr gpa) (instp, mm_count) = (ok 0, instp, mm_count)
ioctl_at find ops user task req_nmi (instp, mm_count) = elim user.read_int [
  | none ↦ (err eio, instp, mm_count)
  | some n ↦ elim (vcpu_no_of n) [
    | none ↦ (err einval, instp, mm_count)
    | some vcpu_no ↦ (ok 0, vcpu_inject_nmi ops instp vcpu_no, mm_count)
  ]
]
ioctl_at find ops user task req_other (instp, mm_count) = (err enotty, instp, mm_count)

abbrev pub no_instance_errno : Request → Errno
no_instance_errno req_other = enotty
no_instance_errno _ = einval

-- `private_data` is `none` when the instance could not be made.
unfoldable pub slimvm_dev_ioctl :
    {R : Type 0}
    → ((ℕ → Bool) → ℕ → ℕ)
    → Engine (Config R)
    → User R
    → Task
    → Request
    → Option Instance × (ℕ → ℕ)
    → Ret ℕ × Option Instance × (ℕ → ℕ)
unfolding ioctl_at
slimvm_dev_ioctl find ops user task req (none, mm_count) =
    (err (no_instance_errno req), none, mm_count)
slimvm_dev_ioctl find ops user task req (some instp, mm_count) =
    let (r, after, mm_count') = ioctl_at find ops user task req (instp, mm_count) in
    (r, some after, mm_count')
