-- ===== src/Vmx/Requests.antt =====
-- The requests and the mode of a vcpu (vmx.c, vmx.h): how other threads ask a running vcpu for something, and
-- what `vmx_launch` tests before it enters the guest.
use slimvm.Base.{Bool, true, false, not, ◌||◌, if◌then◌else◌}
use slimvm.State.{
  Vcpu, Mode, outside_root_mode, in_root_mode, outside_guest_mode, in_guest_mode,
  exiting_guest_mode,
}

abbrev pub same_mode : Mode → Mode → Bool
same_mode outside_root_mode outside_root_mode = true
same_mode in_root_mode in_root_mode = true
same_mode outside_guest_mode outside_guest_mode = true
same_mode in_guest_mode in_guest_mode = true
same_mode exiting_guest_mode exiting_guest_mode = true
same_mode _ _ = false

unfoldable pub vmx_set_vcpu_mode : Vcpu → Mode → Vcpu
vmx_set_vcpu_mode v mode = record v { mode = mode }

unfoldable pub vmx_check_vcpu_mode : Vcpu → Mode → Bool
vmx_check_vcpu_mode v mode = same_mode v.mode mode

-- `vmx_check_request` for each of the two requests.
unfoldable pub vmx_check_request_flush : Vcpu → Bool × Vcpu
vmx_check_request_flush v =
    if v.requests.tlb_flush
    then (true, record v { requests = record v.requests { tlb_flush = false } })
    else (false, v)

unfoldable pub vmx_check_request_nmi : Vcpu → Bool × Vcpu
vmx_check_request_nmi v =
    if v.requests.nmi
    then (true, record v { requests = record v.requests { nmi = false } })
    else (false, v)

unfoldable pub vmx_process_nmi : Vcpu → Vcpu
vmx_process_nmi v = record v { nmi_pending = true }

-- `vcpu->requests` as a truth value
abbrev pub has_requests : Vcpu → Bool
has_requests v = v.requests.tlb_flush || v.requests.nmi

abbrev process_nmi_if : Bool × Vcpu → Vcpu
process_nmi_if (true, v) = vmx_process_nmi v
process_nmi_if (false, v) = v

-- The vcpu after it, and whether `vmx_vcpu_flush_tlb` is called.
unfoldable pub vmx_process_vcpu_requests : Vcpu → Bool × Vcpu
unfolding vmx_check_request_flush vmx_check_request_nmi vmx_process_nmi
vmx_process_vcpu_requests v =
    if has_requests v
    then (let (flush, v') = vmx_check_request_flush v in
        (flush, process_nmi_if (vmx_check_request_nmi v')))
    else (false, v)

-- The test of `vmx_launch` with interrupts disabled and the mode set, before it enters the guest.
unfoldable pub may_enter : Bool → Vcpu → Bool
unfolding vmx_check_vcpu_mode
may_enter need_resched v =
    not (vmx_check_vcpu_mode v exiting_guest_mode || has_requests v || need_resched)
