-- ===== src/Vmx/Shutdown.antt =====
-- How an instance is stopped (vmx.c): `vmx_shutdown_all_vcpus` marks every vcpu and interrupts the CPUs they run
-- on, and `prepare_enter_guestmode` refuses a vcpu that is marked.
use slimvm.Base.{
  ℕ, zero, suc, ◌+◌, Bool, true, false, not, ◌&&◌, ◌||◌, if◌then◌else◌, Option, none, some, List,
  [], ◌∷◌, update,
}
use slimvm.State.{vm_max_vcpus, Instance, Vcpu, outside_root_mode}
use slimvm.Ept.Flush.{Cpu, remote_cpu}
use slimvm.Vmx.Requests.{vmx_check_vcpu_mode}

-- What is done to one vcpu, and the CPU that is to be interrupted for it, if any.
unfoldable pub shutdown_vcpu : Cpu → Vcpu → Vcpu × Option ℕ
unfolding vmx_check_vcpu_mode
shutdown_vcpu cpu v =
    let stopped = record v { is_shutdown = true } in
    (
      stopped,
      elim (remote_cpu cpu.me stopped.cpu) [
        | none ↦ none
        | some c ↦
            if cpu.cpus_allocated && not (vmx_check_vcpu_mode stopped outside_root_mode)
            then some c
            else none
      ],
    )

abbrev pub add_cpu : Option ℕ → List ℕ → List ℕ
add_cpu none cpus = cpus
add_cpu (some c) cpus = c ∷ cpus

abbrev pub Marks : Type 0
Marks = (ℕ → Option Vcpu) × List ℕ

-- One round: a number whose bit is set, at a vcpu that is there.
unfoldable pub shutdown_round : Cpu → Bool → Option Vcpu → ℕ → Marks → Marks
unfolding shutdown_vcpu
shutdown_round cpu true (some v) i (vcpus, cpus) =
    let (v', ipi) = shutdown_vcpu cpu v in (update vcpus i (some v'), add_cpu ipi cpus)
shutdown_round cpu _ _ i st = st

-- `for_each_set_bit`: the `k` numbers from `i` on.
unfoldable pub shutdown_loop : Cpu → (ℕ → Bool) → ℕ → ℕ → Marks → Marks
unfolding shutdown_round
shutdown_loop cpu bits zero i st = st
shutdown_loop cpu bits (suc k) i (vcpus, cpus) =
    shutdown_loop cpu bits k (i + 1) (shutdown_round cpu (bits i) (vcpus i) i (vcpus, cpus))

-- The instance after it, and the CPUs that are interrupted: all that are online where the mask is missing.
unfoldable pub vmx_shutdown_all_vcpus : Cpu → List ℕ → Instance → Instance × List ℕ
unfolding shutdown_loop
vmx_shutdown_all_vcpus cpu online instp =
    let (vcpus, cpus) = shutdown_loop cpu instp.vcpu_bitmap vm_max_vcpus 0 (instp.vcpus, []) in
    (
      record instp { vcpus = vcpus; shutdown = true },
      if not cpu.cpus_allocated then online else cpus,
    )

-- What the thread finds at one look at its flags, while one of them is set: whether a signal is pending, whether
-- one that kills, and whether `slimvm_signal_handler` is to leave.
pub record Look : Type 0 where
  pub sigpending : Bool
  pub fatal : Bool
  pub handler : Bool

-- `SLIMVM_RET_INTR`
abbrev pub slimvm_ret_intr : ℕ
slimvm_ret_intr = 0xa

-- The list is of the looks with a flag set; after it none is. The result says whether it returns 0, with
-- `vcpu->status` after it.
unfoldable pub enter_guestmode_loop : List Look → ℕ → Bool × ℕ
enter_guestmode_loop [] status = (true, status)
enter_guestmode_loop (l ∷ ls) status =
    let rest = enter_guestmode_loop ls status in
    if l.sigpending && (l.fatal || l.handler) then (false, slimvm_ret_intr) else rest

unfoldable pub prepare_enter_guestmode : Vcpu → Instance → List Look → ℕ → Bool × ℕ
unfolding enter_guestmode_loop
prepare_enter_guestmode v instp looks status =
    if v.is_shutdown || instp.shutdown then (false, status) else enter_guestmode_loop looks status

-- The test at the end of a round of `vmx_launch`: whether the loop is left.
unfoldable pub leaves_loop : Bool → Vcpu → Bool
leaves_loop done v = done || v.is_shutdown
