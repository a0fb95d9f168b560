-- ===== src/Tests/Seccomp.antt =====
-- Runs of the seccomp filters.
use slimvm.Base.{
  ℕ, ◌≡◌, ◌≤◌, refl, inl, inr, [], ◌∷◌, All, arith, ok, err, einval, false, if◌then◌else◌, ◌==◌,
}
use slimvm.Seccomp.{
  SeccompData, Kernel, action, evaluate, ret_allow, ret_trap, rax, is_unchecked, seccomp_data,
  conclude, do_seccomp_filter,
}
use slimvm.Seccomp.Lowest.{IsFirst}
use slimvm.Seccomp.Verdict.{
  IsRefusal, do_seccomp_filter-refused, do_seccomp_filter-allowed, do_seccomp_filter-numbered,
}

abbrev kernel : Kernel
kernel = record { nr_syscalls = 451; nr_restart_syscall = 219; arch = 0xC000003E }

-- The call `open`, number 2.
abbrev regs : ℕ → ℕ
regs r = if r == rax then 2 else 0

abbrev allow_all : SeccompData → ℕ
allow_all sd = ret_allow

abbrev trap_open : SeccompData → ℕ
trap_open sd = if sd.nr == 2 then ret_trap else ret_allow

-- ERRNO with the number EACCES.
abbrev deny_open : SeccompData → ℕ
deny_open sd = if sd.nr == 2 then 327693 else ret_allow

refused : (do_seccomp_filter kernel (allow_all ∷ trap_open ∷ []) regs).0 ≡ err einval
unfolding do_seccomp_filter conclude evaluate is_unchecked seccomp_data
refused = refl

do_seccomp_filter-refused_example :
    (ret : ℕ) × IsRefusal ret
    × IsFirst (seccomp_data kernel regs) (allow_all ∷ trap_open ∷ []) ret
    × All (λ g. action ret ≤ action (g (seccomp_data kernel regs))) (allow_all ∷ trap_open ∷ [])
do_seccomp_filter-refused_example =
    do_seccomp_filter-refused kernel (allow_all ∷ trap_open ∷ []) regs refused

checked : is_unchecked kernel (seccomp_data kernel regs).nr ≡ false
unfolding is_unchecked seccomp_data
checked = refl

let_through : (do_seccomp_filter kernel (allow_all ∷ allow_all ∷ []) regs).0 ≡ ok tt
unfolding do_seccomp_filter conclude evaluate is_unchecked seccomp_data
let_through = refl

unchanged : (do_seccomp_filter kernel (allow_all ∷ allow_all ∷ []) regs).1 rax ≡ regs rax
unfolding do_seccomp_filter conclude evaluate is_unchecked seccomp_data
unchanged = refl

do_seccomp_filter-allowed_example :
    All (λ g. g (seccomp_data kernel regs) ≡ ret_allow) (allow_all ∷ allow_all ∷ [])
do_seccomp_filter-allowed_example =
    do_seccomp_filter-allowed kernel (allow_all ∷ allow_all ∷ []) regs (ground arith) checked
      (inr (inl refl), (inr (inl refl), tt)) let_through unchanged

denies : deny_open (seccomp_data kernel regs) ≡ 327693
unfolding seccomp_data
denies = refl

do_seccomp_filter-numbered_example :
    do_seccomp_filter kernel (allow_all ∷ deny_open ∷ []) regs ≡ (ok tt, regs)
do_seccomp_filter-numbered_example =
    do_seccomp_filter-numbered kernel (allow_all ∷ deny_open ∷ []) regs checked
      (inr (inl (rw denies refl))) (ground arith, (omega (arith, denies), tt))
      (ground arith, ((λ e. omega (arith, denies, e)), tt))
