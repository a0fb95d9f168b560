-- ===== src/Engine.antt =====
-- engine.h: the table of engine operations, through which the shared code reaches the engine of the CPU's
-- vendor, and the kernel's bitmap search, which both the vcpu table and the instance table use.
use slimvm.Base.{ℕ, ◌<◌, ◌≡◌, Bool, true, false, Option, Ret}
use slimvm.State.{Instance, Vcpu, Mode}

-- `struct slimvm_engine_ops`, less the hardware entry points and `name`. An operation on a vcpu gives the
-- vcpu after it; `launch` runs the vcpu of a number and gives its result, the configuration and the instance
-- after it. `create_vcpu` is applied to the configuration's fields as the engine reads them.
-- `instance_alloc_ptp` and `instance_init_pt` give the instance after them and their result.
pub record Engine (Config : Type 0) : Type 0 where
  pub create_vcpu : Config → Instance → ℕ → Option Vcpu
  pub launch : Instance → ℕ → Config → Ret (Unit {0}) × Config × Instance
  pub set_vcpu_mode : Vcpu → Mode → Vcpu
  pub vcpu_is_shutdown : Vcpu → Bool
  pub make_nmi_request : Vcpu → Vcpu
  pub shutdown_all_vcpus : Instance → Instance
  pub sync_all_vcpus : Instance → Instance
  pub instance_alloc_ptp : Instance → Bool × Instance
  pub instance_init_pt : Instance → Ret (Unit {0}) × Instance
  pub instance_destroy_pt : Instance → Instance

-- What the kernel documents of `find_first_zero_bit` at a size: the lowest clear bit below the size, or
-- a number that is not below it when all bits are set.
pub record IsFindFirstZero (find : (ℕ → Bool) → ℕ → ℕ) : Type 0 where
  pub clear : (bits : ℕ → Bool) (size : ℕ) → find bits size < size → bits (find bits size) ≡ false
  pub below : (bits : ℕ → Bool) (size i : ℕ) → i < find bits size → i < size → bits i ≡ true
