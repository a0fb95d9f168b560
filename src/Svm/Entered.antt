-- ===== src/Svm/Entered.antt =====
-- What a vcpu finds of the cached translations when `svm_run_vcpu` of svm.c enters the guest, and what it leaves.
use slimvm.Base.{
  ap, update-same, ℕ, ◌+◌, ◌≡◌, ◌≤◌, ◌<◌, ◌^◌, inl, inr, subst, refl, true, false, some, arith,
  ◌==◌, update, update_cases, inc32, Bool-cases, ==→eq, ltb, ltb→ge,
}
use slimvm.Svm.Asid.{
  CpuData, SvmVcpu, Cache, TlbCtl, svm_update_asid, before_entry, after_exit, seen, flush,
  do_nothing, flush_asid, flush_all_asid, bump,
}
use slimvm.Svm.Allotted.{IsCurrent, IsCpu, changed, shrunk, aged, bumped, allotted}

flush_less :
    (t : TlbCtl) (asid : ℕ) (cached : Cache) (a j : ℕ)
    → flush t asid cached a j ≡ true
    → cached a j ≡ true
flush_less do_nothing asid cached a j h = h
flush_less flush_asid asid cached a j h = ground arith
flush_less flush_all_asid asid cached a j h = absurd (cc h)

-- What vcpu `i` of CPU `c` finds when it enters the guest with `v`, and the CPU with `sd`.
pub record Entered (c n : ℕ) (sd : CpuData) (vs : ℕ → SvmVcpu) (cached : Cache) (i : ℕ)
    (v : SvmVcpu) : Type 0 where
  pub keeps : IsCpu c n sd (update vs i (after_exit v)) (seen v cached)
  pub current : IsCurrent c sd v
  pub tagged : v.control_asid ≡ v.asid
  pub own : (j : ℕ) → seen v cached v.control_asid j ≡ true → j ≡ i
  pub emptied : (vs i).tlb_ctl ≡ flush_asid → (j : ℕ) → seen v cached v.control_asid j ≡ false

pub before_entry-Entered :
    (c n : ℕ) (sd : CpuData) (vs : ℕ → SvmVcpu) (cached : Cache) (i : ℕ)
    → n + 2 < 2 ^ 64
    → (vs i).cpu ≡ some c
    → IsCpu c n sd vs cached
    → Entered c (n + 1) (before_entry sd (vs i)).0 vs cached i (before_entry sd (vs i)).1
unfolding before_entry svm_update_asid after_exit
before_entry-Entered c n sd vs cached i few o g =
    elim (Bool-cases ((vs i).asid_generation == sd.asid_generation)) [
      | inl same ↦ rw same (record {
        keeps = shrunk c (n + 1) sd _ cached _ (flush_less (vs i).tlb_ctl (vs i).asid cached) (
            aged c n sd _ cached
              (changed c n sd vs cached i _ g (λ h. g.past i h) (λ h. (h, refl))));
        current = (o, ==→eq _ _ same);
        tagged = refl;
        own = λ j h.
            g.owned i j (o, ==→eq _ _ same)
              (flush_less (vs i).tlb_ctl (vs i).asid cached (vs i).asid j h);
        emptied = λ f j. rw f (ap (λ w. w j) (update-same cached (vs i).asid (λ owner. false)));
      })
      | inr differs ↦ elim (Bool-cases (ltb sd.max_asid sd.next_asid)) [
        | inl full ↦
            rw (differs, full)
              (record {
                keeps =
                    allotted c (n + 1) (bump sd) vs _ i _ g.room refl refl
                      (bumped c n sd vs cached few g);
                current = (o, refl);
                tagged = refl;
                own = λ j h. absurd (cc h);
                emptied = λ f j. refl;
              })
        | inr room ↦
            rw (differs, room)
              (record {
                keeps =
                    shrunk c (n + 1) (record sd { next_asid = inc32 sd.next_asid }) _ cached _
                      (flush_less (vs i).tlb_ctl sd.next_asid cached)
                      (aged c n _ _ cached
                        (allotted c n sd vs cached i _ (ltb→ge _ _ room) refl refl g));
                current = (o, refl);
                tagged = refl;
                emptied =
                    λ f j. rw f (ap (λ w. w j) (update-same cached sd.next_asid (λ owner. false)));
                own = λ j h. absurd (
                    omega (
                      arith,
                      g.used sd.next_asid j
                          (flush_less (vs i).tlb_ctl sd.next_asid cached sd.next_asid j h),
                    ));
              })
      ]
    ]

-- What the guest has cached while it ran.
pub filled-IsCpu :
    (c n : ℕ) (sd : CpuData) (vs : ℕ → SvmVcpu) (left : Cache) (i tag : ℕ)
    → IsCurrent c sd (vs i)
    → tag ≡ (vs i).asid
    → IsCpu c n sd vs left
    → IsCpu c n sd vs (update left tag (update (left tag) i true))
filled-IsCpu c n sd vs left i tag cur e g = record {
  started = g.started;
  counted = g.counted;
  narrow = g.narrow;
  room = g.room;
  low = g.low;
  high = g.high;
  past = g.past;
  within = g.within;
  distinct = g.distinct;
  used =
      update_cases left tag _ (λ a w. (j : ℕ) → w j ≡ true → a < sd.next_asid)
        (λ j h. omega (arith, e, (g.within i cur).1)) (λ a ne j h. g.used a j h);
  owned = λ x j hx.
      update_cases left tag _ (λ a w. a ≡ (vs x).asid → w j ≡ true → j ≡ x)
        (λ q.
          let same : i ≡ x = g.distinct i x cur hx (cc (e, q)) in
          update_cases (left tag) i true (λ k b. b ≡ true → k ≡ x) (λ h. same)
            (λ k ne h. g.owned x k hx (cc (e, q, h))) j)
        (λ a ne q h. g.owned x j hx (cc (q, h))) (vs x).asid refl;
}

pub Entered-within :
    (c n : ℕ) (sd : CpuData) (vs : ℕ → SvmVcpu) (cached : Cache) (i : ℕ) (v : SvmVcpu)
    → Entered c n sd vs cached i v
    → (sd.min_asid ≤ v.control_asid) × (v.control_asid < sd.next_asid)
unfolding after_exit
Entered-within c n sd vs cached i v x =
    let e = update-same vs i (after_exit v) in
    let w : (sd.min_asid ≤ v.asid) × (v.asid < sd.next_asid) =
      subst (λ (u : SvmVcpu). (sd.min_asid ≤ u.asid) × (u.asid < sd.next_asid)) e
        (x.keeps.within i (rw e x.current)) in
    rw x.tagged w

pub before_entry-range :
    (sd : CpuData) (svm : SvmVcpu)
    → ((before_entry sd svm).0.min_asid ≡ sd.min_asid)
      × ((before_entry sd svm).0.max_asid ≡ sd.max_asid)
unfolding before_entry svm_update_asid
before_entry-range sd svm = ground arith
