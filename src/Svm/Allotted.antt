-- ===== src/Svm/Allotted.antt =====
-- The invariant of one CPU's address space identifiers (svm.c), and what giving one out does to it.
use slimvm.Base.{
  ℕ, ◌+◌, ◌≡◌, ◌≤◌, ◌<◌, ◌^◌, refl, true, false, some, arith, update, update_cases, add64, inc32,
}
use slimvm.Svm.Asid.{CpuData, SvmVcpu, Cache, bump}

-- Vcpu `v` runs on CPU `c` with the identifier that it has.
abbrev pub IsCurrent : ℕ → CpuData → SvmVcpu → Type 0
IsCurrent c sd v = (v.cpu ≡ some c) × (v.asid_generation ≡ sd.asid_generation)

-- What holds of CPU `c` after `n` steps.
pub record IsCpu (c n : ℕ) (sd : CpuData) (vs : ℕ → SvmVcpu) (cached : Cache) : Type 0 where
  pub started : 1 ≤ sd.asid_generation
  pub counted : sd.asid_generation ≤ n + 1
  pub narrow : sd.max_asid + 1 < 2 ^ 32
  pub room : sd.min_asid ≤ sd.max_asid
  pub low : sd.min_asid ≤ sd.next_asid
  pub high : sd.next_asid ≤ sd.max_asid + 1
  pub past : (i : ℕ) → (vs i).cpu ≡ some c → (vs i).asid_generation ≤ sd.asid_generation
  pub within :
      (i : ℕ) → IsCurrent c sd (vs i) → (sd.min_asid ≤ (vs i).asid) × ((vs i).asid < sd.next_asid)
  pub distinct :
      (i j : ℕ) → IsCurrent c sd (vs i) → IsCurrent c sd (vs j) → (vs i).asid ≡ (vs j).asid → i ≡ j
  pub used : (a j : ℕ) → cached a j ≡ true → a < sd.next_asid
  pub owned : (i j : ℕ) → IsCurrent c sd (vs i) → cached (vs i).asid j ≡ true → j ≡ i

-- Where vcpu `i` becomes `v`, which is current only if it was: whoever is current was, with the same identifier.
was-IsCurrent :
    (c : ℕ) (sd : CpuData) (vs : ℕ → SvmVcpu) (i : ℕ) (v : SvmVcpu)
    → (IsCurrent c sd v → IsCurrent c sd (vs i) × (v.asid ≡ (vs i).asid))
    → (x : ℕ) → IsCurrent c sd (update vs i v x)
    → IsCurrent c sd (vs x) × ((update vs i v x).asid ≡ (vs x).asid)
was-IsCurrent c sd vs i v k =
    update_cases vs i v (λ x u. IsCurrent c sd u → IsCurrent c sd (vs x) × (u.asid ≡ (vs x).asid)) k
      (λ x n h. (h, refl))

-- A vcpu changes, and if it is current on the CPU, was it and has the identifier it had.
pub changed :
    (c n : ℕ) (sd : CpuData) (vs : ℕ → SvmVcpu) (cached : Cache) (i : ℕ) (v : SvmVcpu)
    → IsCpu c n sd vs cached
    → (v.cpu ≡ some c → v.asid_generation ≤ sd.asid_generation)
    → (IsCurrent c sd v → IsCurrent c sd (vs i) × (v.asid ≡ (vs i).asid))
    → IsCpu c n sd (update vs i v) cached
changed c n sd vs cached i v g p k =
    let w = was-IsCurrent c sd vs i v k in
    record {
      started = g.started;
      counted = g.counted;
      narrow = g.narrow;
      room = g.room;
      low = g.low;
      high = g.high;
      past = λ x h. ground (arith, p, g.past x);
      within = λ x h. let (o, e) = w x h in rw e (g.within x o);
      distinct = λ x y hx hy e.
          let (ox, ex) = w x hx in let (oy, ey) = w y hy in g.distinct x y ox oy (cc (e, ex, ey));
      used = g.used;
      owned = λ x j h e. let (o, q) = w x h in g.owned x j o (cc (e, q));
    }

-- Less is cached.
pub shrunk :
    (c n : ℕ) (sd : CpuData) (vs : ℕ → SvmVcpu) (cached cached' : Cache)
    → ((a j : ℕ) → cached' a j ≡ true → cached a j ≡ true)
    → IsCpu c n sd vs cached
    → IsCpu c n sd vs cached'
shrunk c n sd vs cached cached' less g = record {
  started = g.started;
  counted = g.counted;
  narrow = g.narrow;
  room = g.room;
  low = g.low;
  high = g.high;
  past = g.past;
  within = g.within;
  distinct = g.distinct;
  used = λ a j h. g.used a j (less a j h);
  owned = λ i j h e. g.owned i j h (less (vs i).asid j e);
}

pub aged :
    (c n : ℕ) (sd : CpuData) (vs : ℕ → SvmVcpu) (cached : Cache)
    → IsCpu c n sd vs cached
    → IsCpu c (n + 1) sd vs cached
aged c n sd vs cached g = record {
  started = g.started;
  counted = omega (arith, g.counted);
  narrow = g.narrow;
  room = g.room;
  low = g.low;
  high = g.high;
  past = g.past;
  within = g.within;
  distinct = g.distinct;
  used = g.used;
  owned = g.owned;
}

-- A new generation, with nothing cached.
pub bumped :
    (c n : ℕ) (sd : CpuData) (vs : ℕ → SvmVcpu) (cached : Cache)
    → n + 2 < 2 ^ 64
    → IsCpu c n sd vs cached
    → IsCpu c (n + 1) (bump sd) vs (λ a j. false)
bumped c n sd vs cached few g =
    let e : add64 sd.asid_generation 1 ≡ sd.asid_generation + 1 = omega (arith, g.counted) in
    let none_current : (i : ℕ) → IsCurrent c (bump sd) (vs i) → 1 ≤ 0 =
      λ i (o, q). omega (arith, g.past i o, q, e) in
    record {
      started = omega (arith, e);
      counted = omega (arith, e, g.counted);
      narrow = g.narrow;
      room = g.room;
      low = omega arith;
      high = omega (arith, g.room);
      past = λ i o. omega (arith, g.past i o, e);
      within = λ i h. absurd (omega (arith, none_current i h));
      distinct = λ i j hi hj q. absurd (omega (arith, none_current i hi));
      used = λ a j h. absurd (cc h);
      owned = λ i j h q. absurd (cc q);
    }

-- Nobody else has the next identifier.
taken_once :
    (c n : ℕ) (sd : CpuData) (vs : ℕ → SvmVcpu) (cached : Cache) (i : ℕ) (v : SvmVcpu)
    → v.asid ≡ sd.next_asid
    → IsCpu c n sd vs cached
    → (x y : ℕ) → IsCurrent c sd (update vs i v x)
    → IsCurrent c sd (update vs i v y)
    → (update vs i v x).asid ≡ (update vs i v y).asid
    → x ≡ y
taken_once c n sd vs cached i v a g x y =
    update_cases vs i v
      (λ x u.
        IsCurrent c sd u
        → IsCurrent c sd (update vs i v y)
        → u.asid ≡ (update vs i v y).asid
        → x ≡ y)
      (update_cases vs i v (λ y w. IsCurrent c sd v → IsCurrent c sd w → v.asid ≡ w.asid → i ≡ y)
        (λ hx hy q. refl) (λ z ne hx hz q. absurd (omega (arith, a, q, (g.within z hz).1))) y)
      (λ z ne.
        update_cases vs i v
          (λ y w. IsCurrent c sd (vs z) → IsCurrent c sd w → (vs z).asid ≡ w.asid → z ≡ y)
          (λ hz hy q. absurd (omega (arith, a, q, (g.within z hz).1)))
          (λ y ne' hz hy q. g.distinct z y hz hy q) y)
      x

-- Vcpu `i` takes the next identifier.
pub allotted :
    (c n : ℕ) (sd : CpuData) (vs : ℕ → SvmVcpu) (cached : Cache) (i : ℕ) (v : SvmVcpu)
    → sd.next_asid ≤ sd.max_asid
    → v.asid ≡ sd.next_asid
    → v.asid_generation ≡ sd.asid_generation
    → IsCpu c n sd vs cached
    → IsCpu c n (record sd { next_asid = inc32 sd.next_asid }) (update vs i v) cached
allotted c n sd vs cached i v left a k g =
    let e : inc32 sd.next_asid ≡ sd.next_asid + 1 = omega (arith, g.narrow) in
    record {
      started = g.started;
      counted = g.counted;
      narrow = g.narrow;
      room = g.room;
      low = omega (arith, e, g.low);
      high = omega (arith, e);
      past =
          update_cases vs i v (λ x u. u.cpu ≡ some c → u.asid_generation ≤ sd.asid_generation)
            (λ o. omega arith) (λ x ne. g.past x);
      within =
          update_cases vs i v
            (λ x u. IsCurrent c sd u → (sd.min_asid ≤ u.asid) × (u.asid < inc32 sd.next_asid))
            (λ h. (omega (arith, g.low), omega arith))
            (λ x ne h. ((g.within x h).0, omega (arith, (g.within x h).1)));
      distinct = taken_once c n sd vs cached i v a g;
      used = λ b j h. omega (arith, g.used b j h, e);
      owned = λ x j.
          update_cases vs i v (λ x u. IsCurrent c sd u → cached u.asid j ≡ true → j ≡ x)
            (λ h q. absurd (omega (arith, a, g.used v.asid j q))) (λ x ne. g.owned x j) x;
    }
