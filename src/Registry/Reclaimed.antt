-- ===== src/Registry/Reclaimed.antt =====
-- Which instances a pass of `slimvm_reclaim_leaked_instances` reclaims (instance.c).
use slimvm.Base.{
  ℕ, ◌%◌, ◌^◌, ◌≡◌, Bool, ◌≢◌, ◌⊎◌, ◌↔◌, inl, inr, refl, sym, ◌∙◌, ap, subst, true, false,
  if◌then◌else◌, ◌==◌, Option, none, some, List, [], ◌∷◌, ==→eq, ==→ne, update-same, arith,
  Bool-cases, Option-cases,
}
use slimvm.State.{Instance}
use slimvm.Registry.{Registry}
use slimvm.Registry.Users.{IsIn}
use slimvm.Registry.Reclaim.{
  is_exited, same_task, running_of, is_leaked, mark_leaked, mark_at, leaks, mark_loop,
  slimvm_reclaim_leaked_instances, fputs,
}
use slimvm.Registry.Marked.{
  All-IsIn, mark_at-other, mark_loop-cleans, mark_loop-none, mark_loop_complete, mark_loop_sound,
}

-- The file of the instance at `q` is put `n` times.
abbrev pub IsPut : List (ℕ × ℕ) → ℕ → ℕ → Type 0
IsPut [] q n = ⊥
IsPut ((p, m) ∷ ps) q n = ((p ≡ q) × (m ≡ n)) ⊎ IsPut ps q n

-- The task that the instance recorded is no longer the one with the recorded process id, and no earlier pass has
-- reclaimed the instance.
pub record HasExited (task_of : ℕ → Option ℕ) (instp : Instance) : Type 0 where
  pub recorded : (tsk : ℕ) × (instp.sandbox_tsk ≡ some tsk) × (task_of instp.sandbox_pid ≢ some tsk)
  pub has_pid : instp.sandbox_pid ≢ 0
  pub not_forced : instp.force_release ≡ false

same_task-some : (o : Option ℕ) (t : ℕ) → same_task o t ≡ true → o ≡ some t
same_task-some none t e = absurd (cc e)
same_task-some (some s) t e = ap some (==→eq s t e)

some-same_task : (o : Option ℕ) (t : ℕ) → o ≡ some t → same_task o t ≡ true
some-same_task o t e = rw e (ground arith)

is_exited-recorded :
    (task_of : ℕ → Option ℕ) (o : Option ℕ) (pid : ℕ) (forced : Bool)
    → is_exited task_of o pid forced ≡ true
    → ((tsk : ℕ) × (o ≡ some tsk) × (task_of pid ≢ some tsk)) × (pid ≢ 0) × (forced ≡ false)
is_exited-recorded task_of none pid forced e = absurd (cc e)
is_exited-recorded task_of (some tsk) pid forced e = (
  (tsk, refl, λ same. ground (arith, e, some-same_task (task_of pid) tsk same)),
  ground (arith, e),
  ground (arith, e),
)

recorded-is_exited :
    (task_of : ℕ → Option ℕ) (pid : ℕ) (tsk : ℕ)
    → task_of pid ≢ some tsk
    → pid ≢ 0
    → is_exited task_of (some tsk) pid false ≡ true
recorded-is_exited task_of pid tsk n z = elim (Bool-cases (same_task (task_of pid) tsk)) [
  | inl e ↦ absurd (n (same_task-some (task_of pid) tsk e))
  | inr e ↦ rw e (ground arith)
]

-- The tests of the loop find the instances whose sandbox has exited.
is_leaked-HasExited :
    (task_of : ℕ → Option ℕ) (instp : Instance)
    → is_leaked task_of instp ≡ true ↔ HasExited task_of instp
unfolding is_leaked
is_leaked-HasExited task_of instp = (
  λ e.
      let r =
        is_exited-recorded task_of instp.sandbox_tsk instp.sandbox_pid instp.force_release e in
      record { recorded = r.0; has_pid = r.1; not_forced = r.2 },
  λ h.
      rw (h.recorded.1, h.not_forced)
        (recorded-is_exited task_of instp.sandbox_pid h.recorded.0 h.recorded.2 h.has_pid),
)

-- The loop leaves the count of running vcpus.
mark_leaked-running :
    (task_of : ℕ → Option ℕ) (instp : Instance)
    → (mark_leaked task_of instp).running_vcpus ≡ instp.running_vcpus
unfolding mark_leaked
mark_leaked-running task_of instp = ground arith

mark_at-running :
    (task_of : ℕ → Option ℕ) (p q : ℕ) (heap : ℕ → Option Instance)
    → running_of (mark_at task_of p (heap p) heap q) ≡ running_of (heap q)
mark_at-running task_of p q heap = elim (Bool-cases (q == p)) [
  | inr e ↦ ap running_of (mark_at-other task_of p q heap (==→ne q p e))
  | inl e ↦ rw (==→eq q p e) (elim (Option-cases (heap p)) [
    | inl n ↦ rw (n, n) refl
    | inr (instp, s) ↦
        rw
          (
            s,
            update-same heap p (some (mark_leaked task_of instp)),
            mark_leaked-running task_of instp,
          )
          refl
  ])
]

mark_loop-running :
    (task_of : ℕ → Option ℕ) (ps : List ℕ) (heap : ℕ → Option Instance) (rs : List ℕ) (q : ℕ)
    → running_of ((mark_loop task_of ps (heap, rs)).0 q) ≡ running_of (heap q)
unfolding mark_loop
mark_loop-running task_of [] heap rs q = refl
mark_loop-running task_of (p ∷ ps) heap rs q =
    mark_loop-running task_of ps (mark_at task_of p (heap p) heap)
      (if leaks task_of (heap p) then p ∷ rs else rs) q
    ∙ mark_at-running task_of p q heap

fputs-IsPut :
    (heap : ℕ → Option Instance) (rs : List ℕ) (q n : ℕ)
    → IsPut (fputs heap rs) q n ↔ (IsIn q rs × (n ≡ running_of (heap q)))
fputs-IsPut heap [] q n = (λ h. absurd h, λ h. h.0)
fputs-IsPut heap (r ∷ rs) q n =
    let rest = fputs-IsPut heap rs q n in
    (
      λ h. elim h [
        | inl e ↦ (inl e.0, sym e.1 ∙ ap (λ x. running_of (heap x)) e.0)
        | inr l ↦ (inr (rest.0 l).0, (rest.0 l).1)
      ],
      λ h. elim h.0 [
        | inl e ↦ inl (e, ap (λ x. running_of (heap x)) e ∙ sym h.1)
        | inr l ↦ inr (rest.1 (l, h.1))
      ],
    )

-- The instance at the address is leaked, with its count of running vcpus.
leaks-HasExited :
    (task_of : ℕ → Option ℕ) (o : Option Instance) (n : ℕ)
    → ((leaks task_of o ≡ true) × (n ≡ running_of o)) ↔ (
        (instp : Instance) × (o ≡ some instp)
        × HasExited task_of instp
        × (n ≡ instp.running_vcpus % 2 ^ 32))
leaks-HasExited task_of none n = (λ h. absurd (cc h.0), λ h. absurd (cc h.1))
leaks-HasExited task_of (some instp) n = (
  λ h. (instp, refl, (is_leaked-HasExited task_of instp).0 h.0, h.1),
  λ h. (
    subst (λ o. leaks task_of o ≡ true) (sym h.1) ((is_leaked-HasExited task_of h.0).1 h.2),
    h.3 ∙ sym (ap running_of h.1),
  ),
)

-- A pass of `slimvm_reclaim_leaked_instances` puts the file of an instance if and only if the instance is listed,
-- it has recorded a sandbox task and a process id, that process id no longer belongs to that task, and no earlier
-- pass has reclaimed it. It puts the file as often as the instance has running vcpus, modulo 2 ^ 32.
pub slimvm_reclaim_leaked_instances-HasExited :
    (task_of : ℕ → Option ℕ) (st : Registry) (q n : ℕ)
    → IsPut (slimvm_reclaim_leaked_instances task_of st).1 q n ↔ (
        IsIn q st.instances_list
        × ((instp : Instance) × (st.heap q ≡ some instp)
            × HasExited task_of instp
            × (n ≡ instp.running_vcpus % 2 ^ 32)))
unfolding slimvm_reclaim_leaked_instances
slimvm_reclaim_leaked_instances-HasExited task_of st q n =
    let ps = st.instances_list in
    let loop = mark_loop task_of ps (st.heap, []) in
    let put = fputs-IsPut loop.0 loop.1 q n in
    let count = mark_loop-running task_of ps st.heap [] q in
    let exited = leaks-HasExited task_of (st.heap q) n in
    (
      λ h. elim (mark_loop_sound task_of ps st.heap [] q (put.0 h).0) [
        | inl none_listed ↦ absurd none_listed
        | inr r ↦ (r.0, exited.0 (r.1, (put.0 h).1 ∙ count))
      ],
      λ h.
          let leaked = exited.1 h.1 in
          put.1 (mark_loop_complete task_of ps st.heap [] q h.0 leaked.0, leaked.1 ∙ sym count),
    )

-- A second pass, with the same tasks running, reclaims nothing: an instance is reclaimed once.
pub slimvm_reclaim_leaked_instances_once :
    (task_of : ℕ → Option ℕ) (st : Registry)
    → (slimvm_reclaim_leaked_instances task_of (slimvm_reclaim_leaked_instances task_of st).0).1
      ≡ []
unfolding slimvm_reclaim_leaked_instances
slimvm_reclaim_leaked_instances_once task_of st =
    let loop = mark_loop task_of st.instances_list (st.heap, []) in
    let again = mark_loop-none task_of st.instances_list loop.0 [] (
      All-IsIn st.instances_list
        (λ q h. mark_loop-cleans task_of st.instances_list st.heap [] q h)) in
    ap (fputs (mark_loop task_of st.instances_list (loop.0, [])).0) again
