-- ===== src/Seccomp/Verdict.antt =====
-- What `do_seccomp_filter` decides, by what the filters return.
use slimvm.Base.{
  ℕ, ◌≤◌, ◌<◌, ◌≡◌, ◌≢◌, ◌⊎◌, ◌^◌, inl, inr, refl, false, List, [], ◌∷◌, ◌++◌, arith, All,
  Bool-cases, subst, ok, err, einval,
}
use slimvm.Seccomp.{
  SeccompData, Kernel, action, evaluate, ret_kill, ret_trap, ret_errno, ret_trace, ret_allow,
  conclude, seccomp_data, is_unchecked, do_seccomp_filter, rax,
}
use slimvm.Seccomp.Lowest.{IsFirst, evaluate-IsLowest}

-- The values for which a call is refused.
abbrev pub IsRefusal : ℕ → Type 0
IsRefusal ret = (ret ≡ ret_kill) ⊎ (ret ≡ ret_trap) ⊎ (ret ≡ ret_trace)

-- The values that the switch names.
abbrev pub IsPlain : ℕ → Type 0
IsPlain ret = (ret ≡ ret_errno) ⊎ (ret ≡ ret_allow) ⊎ IsRefusal ret

-- Some filter returns the action ERRNO.
abbrev pub HasErrno : SeccompData → List (SeccompData → ℕ) → Type 0
HasErrno sd [] = ⊥
HasErrno sd (f ∷ fs) = (action (f sd) ≡ ret_errno) ⊎ HasErrno sd fs

conclude-IsRefusal :
    (k : Kernel) (regs : ℕ → ℕ) (ret : ℕ) → (conclude k regs ret).0 ≡ err einval → IsRefusal ret
unfolding conclude
conclude-IsRefusal k regs ret h = ground arith

conclude-allow :
    (k : Kernel) (regs : ℕ → ℕ) (ret : ℕ)
    → regs rax ≢ k.nr_syscalls
    → IsPlain ret
    → (conclude k regs ret).0 ≡ ok tt
    → (conclude k regs ret).1 rax ≡ regs rax
    → ret ≡ ret_allow
unfolding conclude
conclude-allow k regs ret n (inl e) h same = ground arith
conclude-allow k regs ret n (inr (inl e)) h same = e
conclude-allow k regs ret n (inr (inr r)) h same = ground arith

IsRefusal-allow : (ret : ℕ) → IsRefusal ret → ret ≢ ret_allow
IsRefusal-allow ret (inl e) a = omega arith
IsRefusal-allow ret (inr (inl e)) a = omega arith
IsRefusal-allow ret (inr (inr e)) a = omega arith

errno-allow : (ret : ℕ) → action ret ≤ ret_errno → ret ≢ ret_allow
errno-allow ret u a = omega (arith, rw a at u)

-- A checked call's number is not the one that stands for an invalid call.
checked-other :
    (k : Kernel) (regs : ℕ → ℕ)
    → k.nr_syscalls < 2 ^ 31
    → is_unchecked k (seccomp_data k regs).nr ≡ false
    → regs rax ≢ k.nr_syscalls
unfolding is_unchecked seccomp_data
checked-other k regs bound checked e = ground arith

conclude-data :
    (k : Kernel) (regs : ℕ → ℕ) (ret : ℕ)
    → action ret ≡ ret_errno
    → ret ≢ ret_errno
    → conclude k regs ret ≡ (ok tt, regs)
unfolding conclude
conclude-data k regs ret h n = ground arith

All-middle :
    (P : (SeccompData → ℕ) → Type 0) (before after : List (SeccompData → ℕ)) (f : SeccompData → ℕ)
    → All P (before ++ (f ∷ after))
    → P f
All-middle P [] after f h = h.0
All-middle P (x ∷ before) after f h = All-middle P before after f h.1

-- What holds of each filter's value holds of the first's with the lowest action.
All-IsFirst :
    (P : ℕ → Type 0) (sd : SeccompData) (fs : List (SeccompData → ℕ)) (ret : ℕ)
    → All (λ g. P (g sd)) fs
    → IsFirst sd fs ret
    → P ret
All-IsFirst P sd fs ret h first = subst P first.returned (
    All-middle (λ g. P (g sd)) first.before first.after first.filter
      (subst (λ l. All (λ g. P (g sd)) l) first.split h))

lower-HasErrno :
    (sd : SeccompData) (fs : List (SeccompData → ℕ)) (a : ℕ)
    → HasErrno sd fs
    → All (λ g. a ≤ action (g sd)) fs
    → a ≤ ret_errno
lower-HasErrno sd [] a h low = absurd h
lower-HasErrno sd (f ∷ fs) a (inl e) low = rw e at low.0
lower-HasErrno sd (f ∷ fs) a (inr h) low = lower-HasErrno sd fs a h low.1

All-allow :
    (sd : SeccompData) (fs : List (SeccompData → ℕ))
    → All (λ g. IsPlain (g sd)) fs
    → All (λ g. action ret_allow ≤ action (g sd)) fs
    → All (λ g. g sd ≡ ret_allow) fs
All-allow sd [] plain low = tt
All-allow sd (f ∷ fs) plain low = (ground arith, All-allow sd fs plain.1 low.1)

-- A call that `do_seccomp_filter` refuses is refused by a filter: the first whose action is the lowest
-- returns KILL, TRAP or TRACE with no data, and the action of no filter is lower than its.
pub do_seccomp_filter-refused :
    (k : Kernel) (fs : List (SeccompData → ℕ)) (regs : ℕ → ℕ)
    → (do_seccomp_filter k fs regs).0 ≡ err einval
    → (ret : ℕ) × IsRefusal ret
      × IsFirst (seccomp_data k regs) fs ret
      × All (λ g. action ret ≤ action (g (seccomp_data k regs))) fs
unfolding do_seccomp_filter
do_seccomp_filter-refused k [] regs h = absurd (cc h)
do_seccomp_filter-refused k (f ∷ fs) regs h =
    elim (Bool-cases (is_unchecked k (seccomp_data k regs).nr)) [
      | inl e ↦ absurd (cc (rw e at h))
      | inr e ↦
          let low = evaluate-IsLowest (seccomp_data k regs) (f ∷ fs) ret_allow in
          let refusal =
            conclude-IsRefusal k regs (evaluate (seccomp_data k regs) (f ∷ fs) ret_allow)
              (rw e at h) in
          (
            evaluate (seccomp_data k regs) (f ∷ fs) ret_allow,
            refusal,
            elim low.origin [
              | inl a ↦
                  absurd
                    (IsRefusal-allow (evaluate (seccomp_data k regs) (f ∷ fs) ret_allow) refusal a)
              | inr first ↦ first.0
            ],
            low.lower,
          )
    ]

-- Among filters that return only the values the switch names, a checked call that is let through with its
-- number unchanged is one that every filter allows.
pub do_seccomp_filter-allowed :
    (k : Kernel) (fs : List (SeccompData → ℕ)) (regs : ℕ → ℕ)
    → k.nr_syscalls < 2 ^ 31
    → is_unchecked k (seccomp_data k regs).nr ≡ false
    → All (λ g. IsPlain (g (seccomp_data k regs))) fs
    → (do_seccomp_filter k fs regs).0 ≡ ok tt
    → (do_seccomp_filter k fs regs).1 rax ≡ regs rax
    → All (λ g. g (seccomp_data k regs) ≡ ret_allow) fs
unfolding do_seccomp_filter
do_seccomp_filter-allowed k [] regs bound checked plain h same = tt
do_seccomp_filter-allowed k (f ∷ fs) regs bound checked plain h same =
    let sd = seccomp_data k regs in
    let low = evaluate-IsLowest sd (f ∷ fs) ret_allow in
    elim low.origin [
      | inl a ↦
          All-allow sd (f ∷ fs) plain
            (subst (λ r. All (λ g. action r ≤ action (g sd)) (f ∷ fs)) a low.lower)
      | inr first ↦
          let p = All-IsFirst IsPlain sd (f ∷ fs) (evaluate sd (f ∷ fs) ret_allow) plain first.0 in
          let n = checked-other k regs bound checked in
          let a =
            conclude-allow k regs (evaluate sd (f ∷ fs) ret_allow) n p (rw checked at h)
              (rw checked at same) in
          All-allow sd (f ∷ fs) plain
            (subst (λ r. All (λ g. action r ≤ action (g sd)) (f ∷ fs)) a low.lower)
    ]

-- A checked call on which a filter returns ERRNO with an error number, and every filter an action that is no
-- lower, is let through with its registers unchanged when no filter returns ERRNO without a number: the
-- switch compares the whole value, data included, with `SECCOMP_RET_ERRNO`.
pub do_seccomp_filter-numbered :
    (k : Kernel) (fs : List (SeccompData → ℕ)) (regs : ℕ → ℕ)
    → is_unchecked k (seccomp_data k regs).nr ≡ false
    → HasErrno (seccomp_data k regs) fs
    → All (λ g. ret_errno ≤ action (g (seccomp_data k regs))) fs
    → All (λ g. g (seccomp_data k regs) ≢ ret_errno) fs
    → do_seccomp_filter k fs regs ≡ (ok tt, regs)
unfolding do_seccomp_filter
do_seccomp_filter-numbered k [] regs checked some_errno low numbered = refl
do_seccomp_filter-numbered k (f ∷ fs) regs checked some_errno low numbered =
    let sd = seccomp_data k regs in
    let ret = evaluate sd (f ∷ fs) ret_allow in
    let lowest = evaluate-IsLowest sd (f ∷ fs) ret_allow in
    let upper : action ret ≤ ret_errno =
      lower-HasErrno sd (f ∷ fs) (action ret) some_errno lowest.lower in
    elim lowest.origin [
      | inl a ↦ absurd (errno-allow ret upper a)
      | inr first ↦
          let lower = All-IsFirst (λ r. ret_errno ≤ action r) sd (f ∷ fs) ret low first.0 in
          let other = All-IsFirst (λ r. r ≢ ret_errno) sd (f ∷ fs) ret numbered first.0 in
          rw checked (conclude-data k regs ret (omega arith) other)
    ]
