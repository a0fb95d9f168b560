-- ===== src/Vmx/Stop.antt =====
-- What a shutdown of an instance leaves (vmx.c).
use slimvm.Base.{
  ℕ, IsIn, zero, suc, ◌+◌, ◌≤◌, ◌<◌, ◌≡◌, ◌≢◌, inl, inr, refl, sym, ap, ◌∙◌, Bool, true, false, not,
  if◌then◌else◌, ◌==◌, Option, none, some, List, [], arith, Bool-cases, ==→eq, ==→ne, subst,
  update-same, update-other,
}
use slimvm.State.{vm_max_vcpus, Instance, Vcpu, outside_root_mode}
use slimvm.Ept.Flush.{Cpu}
use slimvm.Vmx.Requests.{vmx_check_vcpu_mode}
use slimvm.Vmx.Shutdown.{
  shutdown_vcpu, add_cpu, Marks, shutdown_round, shutdown_loop, vmx_shutdown_all_vcpus, Look,
  prepare_enter_guestmode, leaves_loop,
}

IsIn-add_cpu : (c : ℕ) (o : Option ℕ) (cpus : List ℕ) → IsIn c cpus → IsIn c (add_cpu o cpus)
IsIn-add_cpu c none cpus h = h
IsIn-add_cpu c (some d) cpus h = inr h

-- The loop's part of it, in the table and in the list of CPUs.
record Stopped (cpu : Cpu) (j : ℕ) (v : Vcpu) (vcpus : ℕ → Option Vcpu) (cpus : List ℕ)
    : Type 0 where
  pub marked : vcpus j ≡ some (record v { is_shutdown = true })
  pub interrupted :
      (c : ℕ)
      → v.cpu ≡ some c
      → c ≢ cpu.me
      → vmx_check_vcpu_mode v outside_root_mode ≡ false
      → cpu.cpus_allocated ≡ true
      → IsIn c cpus

shutdown_vcpu-ipi :
    (cpu : Cpu) (v : Vcpu) (c : ℕ)
    → v.cpu ≡ some c
    → c ≢ cpu.me
    → vmx_check_vcpu_mode v outside_root_mode ≡ false
    → cpu.cpus_allocated ≡ true
    → (shutdown_vcpu cpu v).1 ≡ some c
unfolding shutdown_vcpu vmx_check_vcpu_mode
shutdown_vcpu-ipi cpu v c e n o a = ground arith

module _ (cpu : Cpu) (bits : ℕ → Bool) where
  round-Stopped :
      (b : Bool) (o : Option Vcpu) (i : ℕ) (st : Marks) (j : ℕ) (v : Vcpu)
      → j ≢ i
      → Stopped cpu j v st.0 st.1
      → Stopped cpu j v (shutdown_round cpu b o i st).0 (shutdown_round cpu b o i st).1
  unfolding shutdown_round
  round-Stopped true (some w) i (vcpus, cpus) j v n h = record {
    marked = update-other vcpus i (some (shutdown_vcpu cpu w).0) j n ∙ h.marked;
    interrupted =
        λ c e m o a. IsIn-add_cpu c (shutdown_vcpu cpu w).1 cpus (h.interrupted c e m o a);
  }
  round-Stopped true none i st j v n h = h
  round-Stopped false o i st j v n h = h

  round_self :
      (v : Vcpu) (i : ℕ) (st : Marks)
      → Stopped cpu i v
          (shutdown_round cpu true (some v) i st).0
          (shutdown_round cpu true (some v) i st).1
  unfolding shutdown_round
  round_self v i (vcpus, cpus) = record {
    marked = unfold shutdown_vcpu in update-same vcpus i (some (record v { is_shutdown = true }));
    interrupted = λ c e m o a. rw (shutdown_vcpu-ipi cpu v c e m o a) (inl refl);
  }

  round_at :
      (b : Bool) (o : Option Vcpu) (v : Vcpu) (i : ℕ) (st : Marks)
      → b ≡ true
      → o ≡ some v
      → Stopped cpu i v (shutdown_round cpu b o i st).0 (shutdown_round cpu b o i st).1
  round_at b o v i st e h = rw (e, h) (round_self v i st)

  round_other :
      (b : Bool) (o : Option Vcpu) (i : ℕ) (st : Marks) (j : ℕ)
      → j ≢ i
      → (shutdown_round cpu b o i st).0 j ≡ st.0 j
  unfolding shutdown_round
  round_other true (some v) i (vcpus, cpus) j n =
      update-other vcpus i (some (shutdown_vcpu cpu v).0) j n
  round_other true none i st j n = refl
  round_other false o i st j n = refl

  -- A vcpu that the loop has passed stays stopped, and one that it comes to is stopped.
  loop_passed :
      (k i : ℕ) (st : Marks) (j : ℕ) (v : Vcpu)
      → j < i
      → Stopped cpu j v st.0 st.1
      → Stopped cpu j v (shutdown_loop cpu bits k i st).0 (shutdown_loop cpu bits k i st).1
  unfolding shutdown_loop
  loop_passed zero i st j v lt h = h
  loop_passed (suc k) i (vcpus, cpus) j v lt h =
      loop_passed k (i + 1) (shutdown_round cpu (bits i) (vcpus i) i (vcpus, cpus)) j v
        (omega arith)
        (round-Stopped (bits i) (vcpus i) i (vcpus, cpus) j v (λ e. omega (arith, e)) h)

  loop-Stopped :
      (k i : ℕ) (st : Marks) (j : ℕ) (v : Vcpu)
      → i ≤ j
      → j < i + k
      → bits j ≡ true
      → st.0 j ≡ some v
      → Stopped cpu j v (shutdown_loop cpu bits k i st).0 (shutdown_loop cpu bits k i st).1
  unfolding shutdown_loop
  loop-Stopped zero i st j v lo hi b e = absurd (omega arith)
  loop-Stopped (suc k) i (vcpus, cpus) j v lo hi b e =
      let next = shutdown_round cpu (bits i) (vcpus i) i (vcpus, cpus) in
      elim (Bool-cases (j == i)) [
        | inl s ↦
            let same : i ≡ j = sym (==→eq j i s) in
            loop_passed k (i + 1) next j v (omega (arith, same)) (
              subst (λ x. Stopped cpu x v next.0 next.1) same
                (round_at (bits i) (vcpus i) v i (vcpus, cpus) (ap bits same ∙ b)
                  (ap vcpus same ∙ e)))
        | inr s ↦
            loop-Stopped k (i + 1) next j v (ground arith) (omega arith) b
              (round_other (bits i) (vcpus i) i (vcpus, cpus) j (==→ne j i s) ∙ e)
      ]

-- What a shutdown owes a vcpu, with the CPUs that are interrupted in the end.
pub record Shut (cpu : Cpu) (online : List ℕ) (j : ℕ) (v : Vcpu) (vcpus : ℕ → Option Vcpu)
    (ipis : List ℕ) : Type 0 where
  pub marked : (v' : Vcpu) × (vcpus j ≡ some v') × ((done : Bool) → leaves_loop done v' ≡ true)
  pub interrupted :
      (c : ℕ)
      → v.cpu ≡ some c
      → c ≢ cpu.me
      → vmx_check_vcpu_mode v outside_root_mode ≡ false
      → cpu.cpus_allocated ≡ true
      → IsIn c ipis
  pub everyone : cpu.cpus_allocated ≡ false → ipis ≡ online

marked-leaves_loop :
    (v : Vcpu) (done : Bool) → leaves_loop done (record v { is_shutdown = true }) ≡ true
unfolding leaves_loop
marked-leaves_loop v true = refl
marked-leaves_loop v false = refl

Stopped-Shut :
    (cpu : Cpu) (online : List ℕ) (j : ℕ) (v : Vcpu) (st : Marks) (b : Bool)
    → cpu.cpus_allocated ≡ b
    → Stopped cpu j v st.0 st.1
    → Shut cpu online j v st.0 (if not b then online else st.1)
Stopped-Shut cpu online j v st true a h = record {
  marked = (_, h.marked, marked-leaves_loop v);
  interrupted = h.interrupted;
  everyone = λ f. absurd (cc (a, f));
}
Stopped-Shut cpu online j v st false a h = record {
  marked = (_, h.marked, marked-leaves_loop v);
  interrupted = λ c e n o t. absurd (cc (a, t));
  everyone = λ f. refl;
}

refused :
    (w : Vcpu) (instp : Instance) (looks : List Look) (status : ℕ)
    → instp.shutdown ≡ true
    → prepare_enter_guestmode w instp looks status ≡ (false, status)
unfolding prepare_enter_guestmode
refused w instp looks status h = ground arith

-- After `vmx_shutdown_all_vcpus` the instance is shut down. Every vcpu of its table is marked, so that it leaves the
-- loop of `vmx_launch` after its next exit; the CPU of one in root mode on another CPU is interrupted, and all that
-- are online where the mask of CPUs was not allocated. A vcpu that comes to `prepare_enter_guestmode` afterwards
-- is turned back whatever the thread's flags, with its status as it was. (One that has passed that test before may
-- still enter the guest once.)
pub vmx_shutdown_all_vcpus-Shut :
    (cpu : Cpu) (online : List ℕ) (instp : Instance) (j : ℕ) (v w : Vcpu) (looks : List Look)
    (status : ℕ)
    → j < vm_max_vcpus
    → instp.vcpu_bitmap j ≡ true
    → instp.vcpus j ≡ some v
    → ((vmx_shutdown_all_vcpus cpu online instp).0.shutdown ≡ true)
      × Shut cpu online j v
          (vmx_shutdown_all_vcpus cpu online instp).0.vcpus
          (vmx_shutdown_all_vcpus cpu online instp).1
      × (prepare_enter_guestmode w (vmx_shutdown_all_vcpus cpu online instp).0 looks status
          ≡ (false, status))
unfolding vmx_shutdown_all_vcpus
vmx_shutdown_all_vcpus-Shut cpu online instp j v w looks status lt b e = (
  refl,
  Stopped-Shut cpu online j v _ cpu.cpus_allocated refl (
      loop-Stopped cpu instp.vcpu_bitmap vm_max_vcpus 0 (instp.vcpus, []) j v (omega arith)
        (omega arith) b e),
  refused w (vmx_shutdown_all_vcpus cpu online instp).0 looks status refl,
)
