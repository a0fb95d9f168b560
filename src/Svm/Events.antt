-- ===== src/Svm/Events.antt =====
-- The events that are injected into the guest (svm.c, svm.h): one that an exit interrupted, the bounce vector, an
-- NMI. A field of the VMCB with several bits is a number, and `|` of disjoint bits a sum.
use slimvm.Base.{ℕ, ◌+◌, ◌*◌, ◌/◌, ◌%◌, ◌^◌, Bool, true, false, not, if◌then◌else◌, ◌==◌}

-- Of `struct svm_vcpu` and its VMCB what the injection of events needs. `nmi_masked` is `HF_NMI_MASK` of `hflags`;
-- `intercept_iret` and `intercept_vintr` are two of the intercepts; `v_irq` and `v_intr_prio` are parts of
-- `int_ctl`.
pub record Events : Type 0 where
  pub event_inj : ℕ
  pub event_inj_err : ℕ
  pub rip : ℕ
  pub next_rip : ℕ
  pub rflags : ℕ
  pub int_state : ℕ
  pub bounce_pending : Bool
  pub nmi_pending : Bool
  pub nmi_masked : Bool
  pub intercept_iret : Bool
  pub intercept_vintr : Bool
  pub int_vector : ℕ
  pub v_irq : Bool
  pub v_intr_prio : ℕ

-- `SVM_EVTINJ_VALID | SVM_EVTINJ_TYPE_NMI`
abbrev pub nmi_event : ℕ
nmi_event = 2 ^ 31 + 2 * 2 ^ 8

-- `SVM_EVTINJ_VALID | SVM_EVTINJ_TYPE_INTR | VIRTUAL_EXCEPTION_VECTOR`
abbrev pub bounce_event : ℕ
bounce_event = 2 ^ 31 + 20

-- `X86_EFLAGS_IF` is bit 9, and `SVM_INTERRUPT_SHADOW_MASK` bit 0.
unfoldable pub svm_interrupt_allowed : Events → Bool
svm_interrupt_allowed e =
    if not (e.rflags / 2 ^ 9 % 2 == 1) then false else not (e.int_state % 2 == 1)

unfoldable pub svm_nmi_allowed : Events → Bool
svm_nmi_allowed e = not (e.int_state % 2 == 1)

-- `SVM_EXITINTINFO_VALID`
abbrev pub is_valid : ℕ → Bool
is_valid info = info / 2 ^ 31 % 2 == 1

-- With `exit_int_info` and `exit_int_info_err`. The type is in the bits 8 to 10, and 4 is `SVM_EXITINTINFO_TYPE_SOFT`;
-- `SVM_EXITINTINFO_VALID_ERR` is bit 11.
unfoldable pub svm_handle_interrupt_events : Events → ℕ → ℕ → Events
svm_handle_interrupt_events e info info_err =
    if is_valid info
    then record e {
      next_rip = if info / 2 ^ 8 % 8 == 4 then e.rip else e.next_rip;
      event_inj_err = if info / 2 ^ 11 % 2 == 1 then info_err else e.event_inj_err;
      event_inj = info;
    }
    else e

unfoldable pub iret_interception : Events → Events
iret_interception e = record e { intercept_iret = false; nmi_masked = false }

-- The result says whether it returns 0.
unfoldable pub svm_inject_nmi : Events → Bool × Events
unfolding svm_nmi_allowed
svm_inject_nmi e =
    if not (svm_nmi_allowed e)
    then (false, e)
    else if not e.nmi_masked
    then (
      true,
      record e {
        intercept_iret = true;
        nmi_masked = true;
        event_inj = nmi_event;
        nmi_pending = false;
      },
    )
    else (true, e)

unfoldable pub svm_set_vintr : Events → Events
svm_set_vintr e = record e {
  intercept_vintr = true;
  int_vector = 0;
  v_irq = true;
  v_intr_prio = 15;
}

unfoldable pub svm_clear_vintr : Events → Events
svm_clear_vintr e = record e {
  intercept_vintr = false;
  int_vector = 0;
  v_irq = false;
  v_intr_prio = 0;
}

-- `svm_inject_vector(svm, VIRTUAL_EXCEPTION_VECTOR)`; it always returns 0.
unfoldable pub svm_inject_event : Events → Events
svm_inject_event e = record e { event_inj = bounce_event }

unfoldable pub svm_inject_bounce : Events → Events
unfolding svm_interrupt_allowed svm_set_vintr svm_clear_vintr svm_inject_event
svm_inject_bounce e =
    if not (svm_interrupt_allowed e)
    then svm_set_vintr e
    else record (svm_inject_event (svm_clear_vintr e)) { bounce_pending = false }

-- What `svm_launch` injects before it enters the guest; it leaves the loop where the result is `false`.
unfoldable pub inject_pending : Events → Bool × Events
unfolding svm_inject_bounce svm_inject_nmi
inject_pending e =
    let e' = if e.bounce_pending then svm_inject_bounce e else e in
    if e'.nmi_pending then svm_inject_nmi e' else (true, e')
