-- ===== src/Seccomp.antt =====
-- seccomp.c: the seccomp filters of the host task, run on a system call of the guest. The kernel's
-- `CONFIG_SECCOMP_FILTER` is set. The registers are a function of the indices of engine.h. A filter is what
-- its program returns for the data of a call, a 32-bit number, and the chain of filters a list, the newest
-- first; an empty list is the null pointer.
pub mod Lowest
pub mod Verdict
use slimvm.Base.{
  ℕ, ◌*◌, ◌/◌, ◌%◌, ◌^◌, ◌&&◌, ◌||◌, Bool, List, [], ◌∷◌, if◌then◌else◌, ltb, leb, ◌==◌, Ret, ok,
  err, einval,
}

-- `VCPU_REGS_*`, the registers that are read.
abbrev pub rax : ℕ
rax = 0

abbrev pub rdx : ℕ
rdx = 2

abbrev pub rsi : ℕ
rsi = 6

abbrev pub rdi : ℕ
rdi = 7

abbrev pub r8 : ℕ
r8 = 8

abbrev pub r9 : ℕ
r9 = 9

abbrev pub r10 : ℕ
r10 = 10

abbrev pub rip : ℕ
rip = 16

-- `struct seccomp_data`
pub record SeccompData : Type 0 where
  pub nr : ℕ
  pub instruction_pointer : ℕ
  pub arch : ℕ
  pub args : List ℕ

-- The return values of a filter in the kernel's user interface.
abbrev pub ret_kill : ℕ
ret_kill = 0

abbrev pub ret_trap : ℕ
ret_trap = 196608

abbrev pub ret_errno : ℕ
ret_errno = 327680

abbrev pub ret_trace : ℕ
ret_trace = 2146435072

abbrev pub ret_allow : ℕ
ret_allow = 2147418112

-- `ret & SECCOMP_RET_ACTION`, the mask 0x7fff0000.
abbrev pub action : ℕ → ℕ
action ret = ret / 65536 % 32768 * 65536

-- What differs between kernels: the number of system calls, the number of `restart_syscall`, and the
-- architecture that `syscall_get_arch` names.
pub record Kernel : Type 0 where
  pub nr_syscalls : ℕ
  pub nr_restart_syscall : ℕ
  pub arch : ℕ

-- `sd.nr` is a signed 32-bit number, so that a value from 2 ^ 31 on is below `NR_syscalls`.
unfoldable pub is_unchecked : Kernel → ℕ → Bool
is_unchecked k nr = (ltb nr (2 ^ 31) && leb k.nr_syscalls nr) || (nr == k.nr_restart_syscall)

unfoldable pub seccomp_data : Kernel → (ℕ → ℕ) → SeccompData
seccomp_data k regs = record {
  nr = regs rax % 2 ^ 32;
  instruction_pointer = regs rip;
  arch = k.arch;
  args = regs rdi ∷ regs rsi ∷ regs rdx ∷ regs r10 ∷ regs r8 ∷ regs r9 ∷ [];
}

-- The loop over the filters, from the value chosen so far.
unfoldable pub evaluate : SeccompData → List (SeccompData → ℕ) → ℕ → ℕ
evaluate sd [] ret = ret
evaluate sd (f ∷ fs) ret =
    let cur_ret = f sd in
    evaluate sd fs (if ltb (action cur_ret) (action ret) then cur_ret else ret)

-- The switch on the chosen value.
unfoldable pub conclude : Kernel → (ℕ → ℕ) → ℕ → Ret (Unit {0}) × (ℕ → ℕ)
conclude k regs ret =
    if ret == ret_errno
    then (ok tt, λ r. if r == rax then k.nr_syscalls else regs r)
    else if ret == ret_allow
    then (ok tt, regs)
    else if (ret == ret_kill) || (ret == ret_trap) || (ret == ret_trace)
    then (err einval, regs)
    else (ok tt, regs)

unfoldable pub do_seccomp_filter :
    Kernel → List (SeccompData → ℕ) → (ℕ → ℕ) → Ret (Unit {0}) × (ℕ → ℕ)
unfolding is_unchecked seccomp_data evaluate conclude
do_seccomp_filter k [] regs = (ok tt, regs)
do_seccomp_filter k (f ∷ fs) regs =
    let sd = seccomp_data k regs in
    if is_unchecked k sd.nr then (ok tt, regs) else conclude k regs (evaluate sd (f ∷ fs) ret_allow)
