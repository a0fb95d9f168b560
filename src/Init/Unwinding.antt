-- ===== src/Init/Unwinding.antt =====
-- What a failed load leaves behind, and what an unload does (core.c).
use slimvm.Base.{
  ◌≡◌, ◌∙◌, arith, refl, inl, inr, true, false, Option, none, some, Ret, ok, err, Errno, Bool-cases,
}
use slimvm.Init.{
  Answers, Module, slimvm_engine_init, slimvm_engine_exit, register, with_engine, slimvm_init,
  slimvm_exit, IsIdle, IsLoaded, kind_of, enable, bind, Kind,
}

-- What a result of the loading goes with.
abbrev pub Leaves : Ret (Unit {0}) × Module → Type 0
Leaves (ok _, m) = IsLoaded m × (IsIdle (slimvm_exit m))
Leaves (err _, m) = IsIdle m

exit-hardware : (m : Module) (k : Kind) → m.ops ≡ some k → (slimvm_engine_exit m).hardware ≡ false
unfolding slimvm_engine_exit
exit-hardware m k o = ground arith

exit-device : (m : Module) (k : Kind) → m.ops ≡ some k → (slimvm_engine_exit m).device ≡ m.device
unfolding slimvm_engine_exit
exit-device m k o = ground arith

register-Leaves :
    (o : Option Errno) (m : Module) (k : Kind)
    → m.ops ≡ some k
    → m.sysctl ≡ true
    → m.hardware ≡ true
    → m.device ≡ false
    → Leaves (register o m)
unfolding register slimvm_engine_exit slimvm_exit
register-Leaves none m k o s h d = (
  record { has_sysctl = s; has_hardware = h; has_device = refl },
  record { no_sysctl = rw o refl; no_hardware = rw o refl; no_device = rw o refl },
)
register-Leaves (some e) m k o s h d = record {
  no_sysctl = refl;
  no_hardware = exit-hardware m k o;
  no_device = exit-device m k o ∙ d;
}

enable-Leaves :
    (a : Answers) (r : Option Errno) (m : Module) (k : Kind)
    → m.ops ≡ some k
    → m.sysctl ≡ true
    → m.hardware ≡ false
    → m.device ≡ false
    → Leaves (with_engine a (enable r m))
unfolding with_engine
enable-Leaves a (some e) m k o s h d = record { no_sysctl = refl; no_hardware = h; no_device = d }
enable-Leaves a none m k o s h d =
    register-Leaves a.misc_register (record m { hardware = true }) k o s refl d

bind-Leaves :
    (a : Answers) (o : Option Kind) (m : Module)
    → m.sysctl ≡ true
    → m.hardware ≡ false
    → m.device ≡ false
    → Leaves (with_engine a (bind a o m))
unfolding with_engine
bind-Leaves a none m s h d = record { no_sysctl = refl; no_hardware = h; no_device = d }
bind-Leaves a (some k) m s h d =
    enable-Leaves a (a.hardware_enable_all k) (record m { ops = some k }) k refl s h d

-- `slimvm_init` from a module with nothing set up: when it fails, nothing is left set up; when it succeeds,
-- all three parts are, and `slimvm_exit` takes them all down.
pub slimvm_init-Leaves : (a : Answers) (m : Module) → IsIdle m → Leaves (slimvm_init a m)
unfolding slimvm_init slimvm_engine_init
slimvm_init-Leaves a m idle = elim (Bool-cases a.sysctl_init) [
  | inr e ↦ rw e idle
  | inl e ↦ rw e (
      bind-Leaves (record a { sysctl_init = true }) (kind_of a.have_svm a.vendor)
        (record m { sysctl = true }) refl idle.no_hardware idle.no_device)
]
