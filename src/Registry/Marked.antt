-- ===== src/Registry/Marked.antt =====
-- Which instances the loop of `slimvm_reclaim_leaked_instances` marks and lists (instance.c).
use slimvm.Base.{
  ℕ, ◌≡◌, ◌≢◌, ◌⊎◌, inl, inr, refl, sym, ◌∙◌, ap, subst, true, false, if◌then◌else◌, ◌==◌, Option,
  none, some, List, [], ◌∷◌, ==→eq, ==→ne, All, All-map, update-same, update-other, arith,
  Bool-cases, Option-cases,
}
use slimvm.State.{Instance}
use slimvm.Registry.Users.{IsIn}
use slimvm.Registry.Reclaim.{is_leaked, mark_leaked, mark_at, leaks, mark_loop}

pub All-IsIn : {P : ℕ → Type 0} (ps : List ℕ) → ((q : ℕ) → IsIn q ps → P q) → All P ps
All-IsIn [] f = tt
All-IsIn (p ∷ ps) f = (f p (inl refl), All-IsIn ps (λ q h. f q (inr h)))

-- A marked instance is not leaked any more, and neither is one that was not marked.
forced-is_leaked :
    (task_of : ℕ → Option ℕ) (instp : Instance)
    → is_leaked task_of (record instp { force_release = true }) ≡ false
unfolding is_leaked
forced-is_leaked task_of instp = ground arith

mark_leaked-is_leaked :
    (task_of : ℕ → Option ℕ) (instp : Instance)
    → is_leaked task_of (mark_leaked task_of instp) ≡ false
unfolding mark_leaked
mark_leaked-is_leaked task_of instp = elim (Bool-cases (is_leaked task_of instp)) [
  | inl e ↦ rw (e, mark_leaked) (forced-is_leaked task_of instp)
  | inr e ↦ rw (e, mark_leaked) e
]

module _ (task_of : ℕ → Option ℕ) where
  mark_at_result :
      (p : ℕ) (heap : ℕ → Option Instance) (o : Option Instance)
      → heap p ≡ o
      → leaks task_of (mark_at task_of p o heap p) ≡ false
  mark_at_result p heap none e = rw e refl
  mark_at_result p heap (some instp) e =
      rw (update-same heap p (some (mark_leaked task_of instp)))
        (mark_leaked-is_leaked task_of instp)

  mark_at_self :
      (p : ℕ) (heap : ℕ → Option Instance)
      → leaks task_of (mark_at task_of p (heap p) heap p) ≡ false
  mark_at_self p heap = mark_at_result p heap (heap p) refl

  pub mark_at-other :
      (p q : ℕ) (heap : ℕ → Option Instance) → q ≢ p → mark_at task_of p (heap p) heap q ≡ heap q
  mark_at-other p q heap n = elim (Option-cases (heap p)) [
    | inl e ↦ rw e refl
    | inr (instp, e) ↦ rw e (update-other heap p (some (mark_leaked task_of instp)) q n)
  ]

  mark_at-clean :
      (p q : ℕ) (heap : ℕ → Option Instance)
      → leaks task_of (heap q) ≡ false
      → leaks task_of (mark_at task_of p (heap p) heap q) ≡ false
  mark_at-clean p q heap c = elim (Bool-cases (q == p)) [
    | inl e ↦ rw (==→eq q p e) (mark_at_self p heap)
    | inr e ↦ rw (mark_at-other p q heap (==→ne q p e)) c
  ]

  mark_loop-clean :
      (ps : List ℕ) (heap : ℕ → Option Instance) (rs : List ℕ) (q : ℕ)
      → leaks task_of (heap q) ≡ false
      → leaks task_of ((mark_loop task_of ps (heap, rs)).0 q) ≡ false
  unfolding mark_loop
  mark_loop-clean [] heap rs q c = c
  mark_loop-clean (p ∷ ps) heap rs q c =
      mark_loop-clean ps (mark_at task_of p (heap p) heap)
        (if leaks task_of (heap p) then p ∷ rs else rs) q (mark_at-clean p q heap c)

  -- No listed instance is leaked after the loop.
  pub mark_loop-cleans :
      (ps : List ℕ) (heap : ℕ → Option Instance) (rs : List ℕ) (q : ℕ)
      → IsIn q ps
      → leaks task_of ((mark_loop task_of ps (heap, rs)).0 q) ≡ false
  unfolding mark_loop
  mark_loop-cleans [] heap rs q h = absurd h
  mark_loop-cleans (p ∷ ps) heap rs q (inl e) =
      mark_loop-clean ps (mark_at task_of p (heap p) heap)
        (if leaks task_of (heap p) then p ∷ rs else rs) q
        (subst (λ x. leaks task_of (mark_at task_of p (heap p) heap x) ≡ false) e
          (mark_at_self p heap))
  mark_loop-cleans (p ∷ ps) heap rs q (inr h) =
      mark_loop-cleans ps (mark_at task_of p (heap p) heap)
        (if leaks task_of (heap p) then p ∷ rs else rs) q h

  -- The loop reclaims nothing where nothing is leaked.
  pub mark_loop-none :
      (ps : List ℕ) (heap : ℕ → Option Instance) (rs : List ℕ)
      → All (λ p. leaks task_of (heap p) ≡ false) ps
      → (mark_loop task_of ps (heap, rs)).1 ≡ rs
  unfolding mark_loop
  mark_loop-none [] heap rs c = refl
  mark_loop-none (p ∷ ps) heap rs c =
      let marked = mark_at task_of p (heap p) heap in
      ap (λ b. (mark_loop task_of ps (marked, if b then p ∷ rs else rs)).1) c.0
      ∙ mark_loop-none ps marked rs (All-map ps (λ q h. mark_at-clean p q heap h) c.1)

  -- What was to be reclaimed still is.
  mark_loop-kept :
      (ps : List ℕ) (heap : ℕ → Option Instance) (rs : List ℕ) (q : ℕ)
      → IsIn q rs
      → IsIn q (mark_loop task_of ps (heap, rs)).1
  unfolding mark_loop
  mark_loop-kept [] heap rs q h = h
  mark_loop-kept (p ∷ ps) heap rs q h =
      mark_loop-kept ps (mark_at task_of p (heap p) heap)
        (if leaks task_of (heap p) then p ∷ rs else rs) q
        (elim (Bool-cases (leaks task_of (heap p))) [ inl e ↦ rw e (inr h) | inr e ↦ rw e h ])

  -- Each leaked instance of the list is reclaimed.
  pub mark_loop_complete :
      (ps : List ℕ) (heap : ℕ → Option Instance) (rs : List ℕ) (q : ℕ)
      → IsIn q ps
      → leaks task_of (heap q) ≡ true
      → IsIn q (mark_loop task_of ps (heap, rs)).1
  unfolding mark_loop
  mark_loop_complete [] heap rs q h l = absurd h
  mark_loop_complete (p ∷ ps) heap rs q h l = elim (Bool-cases (q == p)) [
    | inl e ↦
        let here : leaks task_of (heap p) ≡ true =
          subst (λ x. leaks task_of (heap x) ≡ true) (==→eq q p e) l in
        let marked = mark_at task_of p (heap p) heap in
        subst (λ b. IsIn q (mark_loop task_of ps (marked, if b then p ∷ rs else rs)).1) (sym here)
          (mark_loop-kept ps marked (p ∷ rs) q (inl (sym (==→eq q p e))))
    | inr e ↦ elim h [
      | inl same ↦ absurd (==→ne q p e (sym same))
      | inr later ↦
          mark_loop_complete ps (mark_at task_of p (heap p) heap)
            (if leaks task_of (heap p) then p ∷ rs else rs) q later
            (rw (mark_at-other p q heap (==→ne q p e)) l)
    ]
  ]

  head_sound :
      (p : ℕ) (ps : List ℕ) (heap : ℕ → Option Instance) (rs : List ℕ) (q : ℕ)
      → IsIn q (if leaks task_of (heap p) then p ∷ rs else rs)
      → IsIn q rs ⊎ (IsIn q (p ∷ ps) × (leaks task_of (heap q) ≡ true))
  head_sound p ps heap rs q r = elim (Bool-cases (leaks task_of (heap p))) [
    | inr e ↦ inl (rw e at r)
    | inl e ↦
        let here : IsIn q (p ∷ rs) = rw e at r in
        elim here [
          | inl same ↦ inr (inl same, subst (λ x. leaks task_of (heap x) ≡ true) same e)
          | inr later ↦ inl later
        ]
  ]

  -- Only leaked instances of the list are reclaimed.
  pub mark_loop_sound :
      (ps : List ℕ) (heap : ℕ → Option Instance) (rs : List ℕ) (q : ℕ)
      → IsIn q (mark_loop task_of ps (heap, rs)).1
      → IsIn q rs ⊎ (IsIn q ps × (leaks task_of (heap q) ≡ true))
  unfolding mark_loop
  mark_loop_sound [] heap rs q h = inl h
  mark_loop_sound (p ∷ ps) heap rs q h =
      let marked = mark_at task_of p (heap p) heap in
      elim (mark_loop_sound ps marked (if leaks task_of (heap p) then p ∷ rs else rs) q h) [
        | inl r ↦ head_sound p ps heap rs q r
        | inr r ↦ elim (Bool-cases (leaks task_of (heap q))) [
          | inl t ↦ inr (inr r.0, t)
          | inr f ↦ let clean = mark_at-clean p q heap f in absurd (cc (r.1, clean))
        ]
      ]
