-- ===== src/Vmx/Create.antt =====
-- `vmx_create_vcpu` and `vmx_destroy_vcpu` of vmx.c: what a vcpu takes from the kernel and the table of virtual
-- processor ids, with the labels by which a failing creation gives it back. What the creation writes to
-- registers and the VMCS is not modelled.
use slimvm.Base.{
  ℕ, ◌+◌, ◌-◌, Bool, true, false, not, ◌&&◌, Option, none, some, if◌then◌else◌, ltb, ◌==◌, update,
}

-- `VMX_NR_VPIDS` of the kernel's header
abbrev pub vmx_nr_vpids : ℕ
vmx_nr_vpids = 65536

-- `vmx_vpid_bitmap`, the numbers of live allocations of each kind, and `vmx_local_vcpu` of this CPU, a vcpu
-- by its address.
pub record Machine : Type 0 where
  pub vmx_vpid_bitmap : ℕ → Bool
  pub vcpus : ℕ
  pub vmcs : ℕ
  pub guest_msrs : ℕ
  pub host_msrs : ℕ
  pub vmx_local_vcpu : Option ℕ

-- Which of the allocations succeed, and whether `vmx_setup_initial_guest_state` does.
pub record Kernel : Type 0 where
  pub vcpu : Bool
  pub vmcs : Bool
  pub guest_msrs : Bool
  pub host_msrs : Bool
  pub initial_guest_state : Bool
  pub find_first_zero_bit : (ℕ → Bool) → ℕ → ℕ

-- The vcpu that is made, by its address.
pub record VmxVcpu : Type 0 where
  pub address : ℕ
  pub vcpu_no : ℕ
  pub vpid : ℕ

-- The vpid, 0 where none is left, and the bitmap.
unfoldable pub vmx_allocate_vpid : Kernel → (ℕ → Bool) → ℕ × (ℕ → Bool)
vmx_allocate_vpid k bits =
    let vpid = k.find_first_zero_bit bits vmx_nr_vpids in
    if ltb vpid vmx_nr_vpids then (vpid, update bits vpid true) else (0, bits)

unfoldable pub vmx_free_vpid : ℕ → (ℕ → Bool) → ℕ → Bool
vmx_free_vpid vpid bits =
    if not (vpid == 0) && ltb vpid vmx_nr_vpids then update bits vpid false else bits

abbrev pub free_vpid : ℕ → Machine → Machine
free_vpid vpid m = record m { vmx_vpid_bitmap = vmx_free_vpid vpid m.vmx_vpid_bitmap }

-- The labels, from the last to the first.
abbrev pub fail_vmcs : Machine → Machine
fail_vmcs m = record m { vcpus = m.vcpus - 1 }

abbrev pub fail_vpid : Machine → Machine
fail_vpid m = fail_vmcs (record m { vmcs = m.vmcs - 1 })

abbrev pub fail_guest_msrs : ℕ → Machine → Machine
fail_guest_msrs vpid m = fail_vpid (free_vpid vpid m)

abbrev pub fail_host_msrs : ℕ → Machine → Machine
fail_host_msrs vpid m = fail_guest_msrs vpid (record m { guest_msrs = m.guest_msrs - 1 })

abbrev pub fail_initial_guest_state : ℕ → Machine → Machine
fail_initial_guest_state vpid m = fail_host_msrs vpid (record m { host_msrs = m.host_msrs - 1 })

-- `vmx_get_cpu` makes the vcpu the CPU's.
abbrev pub vmx_get_cpu : ℕ → Machine → Machine
vmx_get_cpu p m = record m { vmx_local_vcpu = some p }

abbrev pub create_with_msrs : Kernel → ℕ → ℕ → ℕ → Machine → Option VmxVcpu × Machine
create_with_msrs k p vcpu_no vpid m =
    if not k.initial_guest_state
    then (none, fail_initial_guest_state vpid (vmx_get_cpu p m))
    else (some (record { address = p; vcpu_no = vcpu_no; vpid = vpid }), vmx_get_cpu p m)

abbrev pub create_with_vpid : Kernel → ℕ → ℕ → ℕ → Machine → Option VmxVcpu × Machine
create_with_vpid k p vcpu_no vpid m =
    let m₁ = record m { guest_msrs = m.guest_msrs + 1 } in
    let m₂ = record m₁ { host_msrs = m₁.host_msrs + 1 } in
    if not k.guest_msrs
    then (none, fail_guest_msrs vpid m)
    else if not k.host_msrs
    then (none, fail_host_msrs vpid m₁)
    else create_with_msrs k p vcpu_no vpid m₂

abbrev pub create_with_vmcs : Kernel → ℕ → ℕ → Machine → Option VmxVcpu × Machine
create_with_vmcs k p vcpu_no m =
    let (vpid, bits) = vmx_allocate_vpid k m.vmx_vpid_bitmap in
    let m₁ = record m { vmx_vpid_bitmap = bits } in
    if vpid == 0 then (none, fail_vpid m₁) else create_with_vpid k p vcpu_no vpid m₁

-- `p` is the address that `kzalloc` gives, if it succeeds.
unfoldable pub vmx_create_vcpu : Kernel → ℕ → ℕ → Machine → Option VmxVcpu × Machine
unfolding vmx_allocate_vpid vmx_free_vpid
vmx_create_vcpu k p vcpu_no m =
    let m₁ = record m { vcpus = m.vcpus + 1 } in
    let m₂ = record m₁ { vmcs = m₁.vmcs + 1 } in
    if not k.vcpu
    then (none, m)
    else if not k.vmcs
    then (none, fail_vmcs m₁)
    else create_with_vmcs k p vcpu_no m₂

unfoldable pub vmx_destroy_vcpu : VmxVcpu → Machine → Machine
unfolding vmx_free_vpid
vmx_destroy_vcpu v m =
    let cleared = record (vmx_get_cpu v.address m) { vmx_local_vcpu = none } in
    let unnumbered = free_vpid v.vpid cleared in
    record unnumbered {
      vmcs = unnumbered.vmcs - 1;
      host_msrs = unnumbered.host_msrs - 1;
      guest_msrs = unnumbered.guest_msrs - 1;
      vcpus = unnumbered.vcpus - 1;
    }
