-- ===== src/Svm/Injected.antt =====
-- What becomes of the events that are pending when `svm_launch` enters the guest (svm.c), and of one that an exit has
-- interrupted.
use slimvm.Base.{ℕ, ◌/◌, ◌%◌, ◌^◌, ◌≡◌, ◌≢◌, ◌⊎◌, Bool, true, false}
use slimvm.Svm.Events.{Events, nmi_event, bounce_event, iret_interception, inject_pending}

-- The guest can take an interrupt: `IF` is set in its flags, and there is no interrupt shadow.
abbrev pub TakesInterrupt : Events → Type 0
TakesInterrupt e = (e.rflags / 2 ^ 9 % 2 ≡ 1) × (e.int_state % 2 ≡ 0)

-- What `svm_launch` injects later, when the guest has run and its flags and its interrupt shadow are others.
abbrev pub inject_later : Events → ℕ → ℕ → Events
inject_later e flags state = (inject_pending (record e { rflags = flags; int_state = state })).1

-- What becomes of a pending bounce: it is injected, or it stays pending with an interrupt window asked for, and is
-- injected, and the window closed, at the first entry where the guest can take it.
pub record BounceKept (e e' : Events) : Type 0 where
  pub injected :
      TakesInterrupt e
      → (e'.event_inj ≡ bounce_event) × (e'.bounce_pending ≡ false) × (e'.intercept_vintr ≡ false)
  pub waits :
      (e.rflags / 2 ^ 9 % 2 ≡ 0) ⊎ (e.int_state % 2 ≡ 1)
      → (e'.event_inj ≡ e.event_inj)
        × (e'.bounce_pending ≡ true)
        × (e'.intercept_vintr ≡ true)
        × (e'.v_irq ≡ true)
  pub later :
      (flags state : ℕ)
      → (e.rflags / 2 ^ 9 % 2 ≡ 0) ⊎ (e.int_state % 2 ≡ 1)
      → flags / 2 ^ 9 % 2 ≡ 1
      → state % 2 ≡ 0
      → ((inject_later e' flags state).event_inj ≡ bounce_event)
        × ((inject_later e' flags state).bounce_pending ≡ false)
        × ((inject_later e' flags state).intercept_vintr ≡ false)

-- What becomes of a pending NMI: it is injected and masked until the next `IRET`, or it stays pending, behind an
-- earlier NMI or with the loop left. One that waits behind an earlier NMI is injected at the first entry without an
-- interrupt shadow after the guest's `IRET`.
pub record NmiKept (e : Events) (stays : Bool) (e' : Events) : Type 0 where
  pub injected :
      e.int_state % 2 ≡ 0
      → e.nmi_masked ≡ false
      → (stays ≡ true)
        × (e'.event_inj ≡ nmi_event)
        × (e'.nmi_pending ≡ false)
        × (e'.nmi_masked ≡ true)
        × (e'.intercept_iret ≡ true)
  pub shadowed :
      e.int_state % 2 ≡ 1 → (stays ≡ false) × (e'.nmi_pending ≡ true) × (e'.event_inj ≡ e.event_inj)
  pub behind :
      e.int_state % 2 ≡ 0
      → e.nmi_masked ≡ true
      → (stays ≡ true) × (e'.nmi_pending ≡ true) × (e'.event_inj ≡ e.event_inj)
  pub later :
      (flags state : ℕ)
      → (e.int_state % 2 ≡ 1) ⊎ (e.nmi_masked ≡ true)
      → state % 2 ≡ 0
      → ((inject_later (iret_interception e') flags state).event_inj ≡ nmi_event)
        × ((inject_later (iret_interception e') flags state).nmi_pending ≡ false)
        × ((inject_later (iret_interception e') flags state).intercept_iret ≡ true)

-- The interrupted event is put back, in `put`, and `after` does not inject it.
pub record Lost (e : Events) (info info_err : ℕ) (put after : Events) : Type 0 where
  pub put_back : put.event_inj ≡ info
  pub with_error : info / 2 ^ 11 % 2 ≡ 1 → put.event_inj_err ≡ info_err
  pub event_lost : after.event_inj ≢ info
  pub bounce_lost :
      e.nmi_pending ≡ true
      → e.nmi_masked ≡ false
      → (after.event_inj ≢ bounce_event) × (after.bounce_pending ≡ false)
