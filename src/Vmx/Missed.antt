-- ===== src/Vmx/Missed.antt =====
-- Whether a vcpu that enters the guest can miss a flush (vmx.c, ept.c): it can just where no full barrier follows the
-- store of its mode.
use slimvm.Base.{
  ◌≡◌, ◌⊎◌, ◌↔◌, inl, inr, refl, sym, ap, ◌∙◌, Bool, true, false, List, [], ◌∷◌, ◌++◌, arith,
}
use slimvm.State.{Mode, outside_guest_mode, in_guest_mode}
use slimvm.Ept.Flush.{
  vmx_make_request_flush, vmx_vcpu_exiting_guest_mode, exiting, is_outside_guest,
}
use slimvm.Vmx.Requests.{vmx_set_vcpu_mode, vmx_check_vcpu_mode, vmx_check_request_flush, may_enter}
use slimvm.Vmx.Guard.{
  outside, syncing, entering, inside, interrupts_on, System, last_or, own, Step, take, sync, pass,
  set_mode, run, back, exit, drain, deliver, make_request, exchange, Steps, start, also,
}

last_or-append : (m : Mode) (xs : List Mode) (y : Mode) → last_or m (xs ++ (y ∷ [])) ≡ y
last_or-append m [] y = refl
last_or-append m (x ∷ xs) y = last_or-append x xs y

last_or-exiting :
    (m : Mode) (xs : List Mode)
    → is_outside_guest (last_or m xs) ≡ false
    → is_outside_guest (last_or (exiting m) xs) ≡ false
last_or-exiting m [] h = ground (arith, h)
last_or-exiting m (x ∷ xs) h = h

-- A stale TLB is known: the request is pending, or was taken and the flush follows. In the guest the memory has
-- the mode.
pub record IsGuarded (s : System) : Type 0 where
  pub known : s.stale ≡ true → (s.vcpu.requests.tlb_flush ≡ true) ⊎ (s.place ≡ syncing)
  pub mode_entering : s.place ≡ entering → is_outside_guest (own s).mode ≡ false
  pub mode_inside : s.place ≡ inside → (s.stores ≡ []) × (is_outside_guest s.vcpu.mode ≡ false)
  pub kicked :
      s.place ≡ inside → s.vcpu.requests.tlb_flush ≡ true → (s.remote ≡ true) ⊎ (s.ipi ≡ true)

Step-IsGuarded : (s t : System) → IsGuarded s → Step true s t → IsGuarded t
unfolding vmx_check_request_flush vmx_set_vcpu_mode may_enter vmx_check_vcpu_mode
    vmx_make_request_flush vmx_vcpu_exiting_guest_mode
Step-IsGuarded s t g (take p r) = record {
  known = λ h. inr refl;
  mode_entering = λ h. absurd (cc h);
  mode_inside = λ h. absurd (cc h);
  kicked = λ h q. absurd (cc h);
}
Step-IsGuarded s t g (sync p) = record {
  known = λ h. absurd (cc h);
  mode_entering = λ h. absurd (cc h);
  mode_inside = λ h. absurd (cc h);
  kicked = λ h q. absurd (cc h);
}
Step-IsGuarded s t g (pass p r) = record {
  known = λ h. ground (arith, g.known h);
  mode_entering = λ h. absurd (cc h);
  mode_inside = λ h. absurd (cc h);
  kicked = λ h q. absurd (cc h);
}
Step-IsGuarded s t g (set_mode p) = record {
  known = λ h. ground (arith, g.known h);
  mode_entering = λ h. ap is_outside_guest (last_or-append s.vcpu.mode s.stores in_guest_mode);
  mode_inside = λ h. absurd (cc h);
  kicked = λ h q. absurd (cc h);
}
Step-IsGuarded s t g (run p f r) = record {
  known = λ h. ground (arith, g.known h);
  mode_entering = λ h. absurd (cc h);
  mode_inside = λ h. (
    f refl,
    ap (λ xs. is_outside_guest (last_or s.vcpu.mode xs)) (sym (f refl)) ∙ g.mode_entering p,
  );
  kicked = λ h q. ground arith;
}
Step-IsGuarded s t g (back p) = record {
  known = λ h. ground (arith, g.known h);
  mode_entering = λ h. absurd (cc h);
  mode_inside = λ h. absurd (cc h);
  kicked = λ h q. absurd (cc h);
}
Step-IsGuarded s t g (exit p) = record {
  known = λ h. ground (arith, g.known h);
  mode_entering = λ h. absurd (cc h);
  mode_inside = λ h. absurd (cc h);
  kicked = λ h q. absurd (cc h);
}
Step-IsGuarded s t g (drain m rest e) = record {
  known = g.known;
  mode_entering =
      λ h. ap (λ xs. is_outside_guest (last_or s.vcpu.mode xs)) (sym e) ∙ g.mode_entering h;
  mode_inside = λ h. absurd (cc (e, (g.mode_inside h).0));
  kicked = g.kicked;
}
Step-IsGuarded s t g (deliver p) = record {
  known = g.known;
  mode_entering = g.mode_entering;
  mode_inside = g.mode_inside;
  kicked = λ h q. absurd (cc (ap interrupts_on h, p));
}
Step-IsGuarded s t g (make_request p) = record {
  known = λ h. inl refl;
  mode_entering = g.mode_entering;
  mode_inside = g.mode_inside;
  kicked = λ h q. inl refl;
}
Step-IsGuarded s t g (exchange p) = record {
  known = g.known;
  mode_entering = λ h. last_or-exiting s.vcpu.mode s.stores (g.mode_entering h);
  mode_inside = λ h. ((g.mode_inside h).0, last_or-exiting s.vcpu.mode [] (g.mode_inside h).1);
  kicked = λ h q. inr (ground (arith, (g.mode_inside h).1));
}

pub Steps-IsGuarded : (s t : System) → IsGuarded s → Steps true s t → IsGuarded t
Steps-IsGuarded s t g (start e) = rw e g
Steps-IsGuarded s u g (also {t} st x) = Step-IsGuarded t u (Steps-IsGuarded s t g st) x

-- A vcpu outside of the guest, with nothing asked of it and no store under way.
pub record IsQuiet (s : System) : Type 0 where
  pub at : s.place ≡ outside
  pub mode : s.vcpu.mode ≡ outside_guest_mode
  pub no_flush : s.vcpu.requests.tlb_flush ≡ false
  pub no_nmi : s.vcpu.requests.nmi ≡ false
  pub no_stores : s.stores ≡ []
  pub not_remote : s.remote ≡ false
  pub no_ipi : s.ipi ≡ false
  pub fresh : s.stale ≡ false

-- A vcpu that runs in the guest with a flush asked for and not yet done, and is not about to be interrupted: the
-- flushing thread is through, and no interrupt is on its way.
pub record IsMissed (t : System) : Type 0 where
  pub at : t.place ≡ inside
  pub stale : t.stale ≡ true
  pub not_remote : t.remote ≡ false
  pub no_ipi : t.ipi ≡ false

Steps-guarded : (s t : System) → IsQuiet s → Steps true s t → ¬ IsMissed t
Steps-guarded s t q st m =
    let g : IsGuarded s = record {
      known = λ h. absurd (cc (q.fresh, h));
      mode_entering = λ h. absurd (cc (q.at, h));
      mode_inside = λ h. absurd (cc (q.at, h));
      kicked = λ h p. absurd (cc (q.at, h));
    } in
    let h = Steps-IsGuarded s t g st in
    elim (h.known m.stale) [
      | inl p ↦ elim (h.kicked m.at p) [ inl r ↦ cc (r, m.not_remote) | inr i ↦ cc (i, m.no_ipi) ]
      | inr p ↦ cc (m.at, p)
    ]

-- Without the barrier: the vcpu enters the guest while the store of its mode waits, and the flushing thread, which
-- still reads the old mode, sends no interrupt.
Steps-IsMissed : (s : System) → IsQuiet s → (t : System) × Steps false s t × IsMissed t
unfolding vmx_check_request_flush vmx_set_vcpu_mode may_enter vmx_check_vcpu_mode
    vmx_make_request_flush vmx_vcpu_exiting_guest_mode
Steps-IsMissed s q =
    let enter : may_enter false
          (record s.vcpu { mode = last_or s.vcpu.mode (s.stores ++ (in_guest_mode ∷ [])) })
        ≡ true =
      ap (λ m. may_enter false (record s.vcpu { mode = m }))
        (last_or-append s.vcpu.mode s.stores in_guest_mode)
      ∙ ground (arith, q.no_flush, q.no_nmi) in
    (
      _,
      also
          (also
            (also
              (also (also (start refl) (pass q.at (ground (arith, q.no_flush)))) (set_mode refl))
              (run refl (λ f. absurd (cc f)) enter))
            (make_request q.not_remote))
          (exchange refl),
      record {
        at = refl;
        stale = refl;
        not_remote = refl;
        no_ipi = ground (arith, q.no_ipi, q.mode);
      },
    )

-- A vcpu and a flushing thread start with nothing under way. In every order of the steps no vcpu is left in the guest
-- on translations from before the change, with the flushing thread through and no interrupt on its way, just if a
-- full barrier makes the store of the mode visible before the requests are read. Without it, as `vmx_launch` is on
-- x86, such a state is reached.
pub Steps-IsMissed_iff :
    (fenced : Bool) (s : System)
    → IsQuiet s
    → ((t : System) → Steps fenced s t → ¬ IsMissed t) ↔ (fenced ≡ true)
Steps-IsMissed_iff true s q = (λ h. refl, λ e t st. Steps-guarded s t q st)
Steps-IsMissed_iff false s q =
    let (t, st, m) = Steps-IsMissed s q in (λ h. absurd (h t st m), λ e. absurd (cc e))
