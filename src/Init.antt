-- ===== src/Init.antt =====
-- The loading and unloading of the module in core.c: which of its three parts are set up. The result of
-- `m_init`, which looks up a kernel symbol, is ignored there.
pub mod Unwinding
use slimvm.Base.{
  ◌≡◌, refl, Bool, true, false, if◌then◌else◌, Option, none, some, Ret, ok, err, Errno, eio, eperm,
  arith,
}

pub data Vendor : Type 0 where
  intel amd hygon other_vendor : Vendor

-- `vmx_ops` and `svm_ops`
pub data Kind : Type 0 where
  vmx svm : Kind

-- `ops` is `slimvm_ops`; the others say whether the sysctl entries are registered, the hardware is enabled on
-- all CPUs, and the device is registered.
pub record Module : Type 0 where
  pub ops : Option Kind
  pub sysctl : Bool
  pub hardware : Bool
  pub device : Bool

-- What the kernel and the engines answer; `none` is 0. An engine that cannot be enabled on all CPUs is
-- enabled on none.
pub record Answers : Type 0 where
  pub vendor : Vendor
  pub have_svm : Bool
  pub sysctl_init : Bool
  pub hardware_enable_all : Kind → Option Errno
  pub misc_register : Option Errno

abbrev pub kind_of : Bool → Vendor → Option Kind
kind_of have_svm intel = some vmx
kind_of true amd = some svm
kind_of true hygon = some svm
kind_of _ _ = none

abbrev pub enable : Option Errno → Module → Ret (Unit {0}) × Module
enable none m = (ok tt, record m { hardware = true })
enable (some e) m = (err e, m)

abbrev pub bind : Answers → Option Kind → Module → Ret (Unit {0}) × Module
bind a none m = (err eio, m)
bind a (some k) m = enable (a.hardware_enable_all k) (record m { ops = some k })

unfoldable pub slimvm_engine_init : Answers → Module → Ret (Unit {0}) × Module
slimvm_engine_init a m = bind a (kind_of a.have_svm a.vendor) m

unfoldable pub slimvm_engine_exit : Module → Module
slimvm_engine_exit m = elim m.ops [ none ↦ m | some k ↦ record m { hardware = false } ]

abbrev pub sysctl_exit : Module → Module
sysctl_exit m = record m { sysctl = false }

unfoldable pub register : Option Errno → Module → Ret (Unit {0}) × Module
unfolding slimvm_engine_exit
register none m = (ok tt, record m { device = true })
register (some e) m = (err e, sysctl_exit (slimvm_engine_exit m))

unfoldable pub with_engine : Answers → Ret (Unit {0}) × Module → Ret (Unit {0}) × Module
unfolding register
with_engine a (err e, m) = (err e, sysctl_exit m)
with_engine a (ok _, m) = register a.misc_register m

-- The source's -1 is `eperm`.
unfoldable pub slimvm_init : Answers → Module → Ret (Unit {0}) × Module
unfolding slimvm_engine_init with_engine
slimvm_init a m =
    if a.sysctl_init
    then with_engine a (slimvm_engine_init a (record m { sysctl = true }))
    else (err eperm, m)

unfoldable pub slimvm_exit : Module → Module
unfolding slimvm_engine_exit
slimvm_exit m = slimvm_engine_exit (record m { sysctl = false; device = false })

-- Nothing is set up; everything is.
pub record IsIdle (m : Module) : Type 0 where
  pub no_sysctl : m.sysctl ≡ false
  pub no_hardware : m.hardware ≡ false
  pub no_device : m.device ≡ false

pub record IsLoaded (m : Module) : Type 0 where
  pub has_sysctl : m.sysctl ≡ true
  pub has_hardware : m.hardware ≡ true
  pub has_device : m.device ≡ true
