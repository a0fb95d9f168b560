-- ===== src/Vmx/Syscall.antt =====
-- `vmx_handle_syscall` of vmx.c: a system call of the guest, run by the host's table, with the restart that a
-- kernel owes a call that a signal interrupted. A negative result is its 64-bit two's complement.
use slimvm.Base.{
  ℕ, ◌-◌, ◌^◌, ◌<◌, ◌≡◌, ◌≢◌, ◌⊎◌, Bool, ◌||◌, arith, if◌then◌else◌, leb, ◌==◌, update, sub64,
  u64_mod,
}
use slimvm.Seccomp.{rax}

-- The registers of the guest by the indices of engine.h, and `GUEST_RIP`.
pub record Guest : Type 0 where
  pub regs : ℕ → ℕ
  pub rip : ℕ

-- The kernel's system calls: their number, the function of each (its result for the registers), and whether
-- a signal is pending after the call.
pub record Kernel : Type 0 where
  pub nr_syscalls : ℕ
  pub syscall_table : ℕ → (ℕ → ℕ) → ℕ
  pub signal_pending : Bool

abbrev pub neg : ℕ → ℕ
neg e = u64_mod - e

abbrev pub eintr : ℕ
eintr = 4

abbrev pub enosys : ℕ
enosys = 38

abbrev pub erestartsys : ℕ
erestartsys = 512

abbrev pub erestartnointr : ℕ
erestartnointr = 513

abbrev pub erestartnohand : ℕ
erestartnohand = 514

abbrev pub erestart_restartblock : ℕ
erestart_restartblock = 516

abbrev pub nr_futex : ℕ
nr_futex = 202

abbrev pub nr_ppoll : ℕ
nr_ppoll = 271

abbrev pub nr_restart_syscall : ℕ
nr_restart_syscall = 219

abbrev pub set_rax : ℕ → Guest → Guest
set_rax v g = record g { regs = update g.regs rax v }

-- The call instruction is issued again, with `nr` in `RAX`; it is three bytes long.
abbrev pub reissue : ℕ → Guest → Guest
reissue nr g = record g { regs = update g.regs rax nr; rip = sub64 g.rip 3 }

-- The switch where a signal is pending.
unfoldable pub after_signal : ℕ → Guest → Guest
after_signal orig_rax g =
    let ret = g.regs rax in
    if ret == neg erestartnohand || ret == neg erestart_restartblock
    then set_rax (neg eintr) g
    else if ret == neg erestartsys
    then if orig_rax == nr_futex || orig_rax == nr_ppoll
      then set_rax (neg eintr) g
      else reissue orig_rax g
    else if ret == neg erestartnointr
    then reissue orig_rax g
    else g

-- The switch where none is.
unfoldable pub without_signal : ℕ → Guest → Guest
without_signal orig_rax g =
    let ret = g.regs rax in
    if ret == neg erestartnohand || ret == neg erestartsys || ret == neg erestartnointr
    then reissue orig_rax g
    else if ret == neg erestart_restartblock
    then reissue nr_restart_syscall g
    else g

unfoldable pub vmx_handle_syscall : Kernel → Guest → Guest
unfolding after_signal without_signal
vmx_handle_syscall k g =
    let orig_rax = g.regs rax in
    let called = set_rax (k.syscall_table orig_rax g.regs) g in
    if leb k.nr_syscalls orig_rax
    then set_rax (neg enosys) g
    else if k.signal_pending
    then after_signal orig_rax called
    else without_signal orig_rax called

-- One of the codes by which the kernel tells itself to restart a call.
abbrev pub IsRestartCode : ℕ → Type 0
IsRestartCode v =
    (v ≡ neg erestartsys)
    ⊎ (v ≡ neg erestartnointr)
    ⊎ (v ≡ neg erestartnohand)
    ⊎ (v ≡ neg erestart_restartblock)

-- What the guest sees of a call: no code of the kernel's own, the other registers as they were, and either the
-- next instruction, or the same one again with a call's number in `RAX`.
pub record Handled (g g' : Guest) : Type 0 where
  pub hidden : ¬ IsRestartCode (g'.regs rax)
  pub others : (r : ℕ) → r ≢ rax → g'.regs r ≡ g.regs r
  pub resumes :
      (g'.rip ≡ g.rip)
      ⊎ ((g'.rip ≡ sub64 g.rip 3)
          × ((g'.regs rax ≡ g.regs rax) ⊎ (g'.regs rax ≡ nr_restart_syscall)))

-- A system call never shows the guest one of the kernel's restart codes, changes no register but `RAX`, and goes
-- on after the call unless the call, or `restart_syscall`, is to be issued again; the instruction pointer is
-- set back only then. It is assumed that there are fewer than 2 ^ 32 system calls.
pub vmx_handle_syscall-Handled :
    (k : Kernel) (g : Guest) → k.nr_syscalls < 2 ^ 32 → Handled g (vmx_handle_syscall k g)
unfolding vmx_handle_syscall after_signal without_signal
vmx_handle_syscall-Handled k g h = record {
  hidden = λ c. ground (arith, c);
  others = λ r n. ground arith;
  resumes = ground arith;
}
