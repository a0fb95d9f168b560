-- ===== src/Svm/Direct.antt =====
-- The registers that the guest accesses directly: the permission map as `svm_init` of svm.c sets it up.
use slimvm.Base.{
  ℕ, ◌+◌, ◌-◌, ◌*◌, ◌/◌, ◌%◌, ◌≡◌, ◌≢◌, refl, Bool, true, false, not, ◌||◌, Option, none, some,
  List, [], ◌∷◌, ltb, if◌then◌else◌, ◌==◌, arith, Bool-cases, sym, ap, subst, ◌∙◌, inl, inr, ◌<◌,
  ◌≤◌, ==→eq, ==→ne,
}
use slimvm.Svm.Msrpm.{
  Range, low, mid, high, SetOnly, intercepted, set_msr_interception, set_msr_interception-SetOnly,
}

-- `MSR_FS_BASE`, `MSR_GS_BASE`, `MSR_STAR`, `MSR_LSTAR`, `MSR_CSTAR`, `MSR_SYSCALL_MASK` and `MSR_KERNEL_GS_BASE`, in the
-- order of the calls.
abbrev pub direct_msrs : List ℕ
direct_msrs =
    0xc0000100 ∷ 0xc0000101 ∷ 0xc0000081 ∷ 0xc0000082 ∷ 0xc0000083 ∷ 0xc0000084 ∷ 0xc0000102 ∷ []

-- A call `set_msr_interception(msr_bitmap, msr, 1, 1)` for each register.
unfoldable pub pass_through : (ℕ → ℕ → Bool) → List ℕ → Option (ℕ → ℕ → Bool)
pass_through msrpm [] = some msrpm
pass_through msrpm (msr ∷ msrs) = elim (set_msr_interception msrpm msr true true) [
  | none ↦ none
  | some msrpm' ↦ pass_through msrpm' msrs
]

-- `memset(msr_bitmap, 0xff, MSRPM_SIZE)` and the calls
unfoldable pub svm_init_msrpm : Option (ℕ → ℕ → Bool)
unfolding pass_through
svm_init_msrpm = pass_through (λ offset bit. true) direct_msrs

abbrev pub listed : ℕ → List ℕ → Bool
listed msr [] = false
listed msr (x ∷ xs) = x == msr || listed msr xs

-- The register that a place of the map belongs to.
abbrev register_at : ℕ → ℕ
register_at n =
    if ltb n 0x4000
    then n / 2
    else if ltb n 0x8000
    then 0xc0000000 + (n - 0x4000) / 2
    else 0xc0010000 + (n - 0x8000) / 2

Range-register_at :
    (msr first bits : ℕ)
    → Range msr first bits
    → (register_at (bits + 2 * (msr - first)) ≡ msr) × ((bits + 2 * (msr - first)) % 2 ≡ 0)
Range-register_at msr first bits (low l f b) = ground (arith, f, b, l)
Range-register_at msr first bits (mid g l f b) = ground (arith, f, b, g, l)
Range-register_at msr first bits (high g l f b) = ground (arith, f, b, g, l)

abbrev place_of : ℕ → ℕ
place_of msr =
    if ltb msr 0x2000
    then 2 * msr
    else if ltb msr 0xc0002000
    then 0x4000 + 2 * (msr - 0xc0000000)
    else 0x8000 + 2 * (msr - 0xc0010000)

Range-place_of :
    (msr first bits : ℕ) → Range msr first bits → bits + 2 * (msr - first) ≡ place_of msr
Range-place_of msr first bits (low l f b) = ground (arith, f, b, l)
Range-place_of msr first bits (mid g l f b) = ground (arith, f, b, g, l)
Range-place_of msr first bits (high g l f b) = ground (arith, f, b, g, l)

-- The places of two registers are apart.
Range-apart :
    (msr first bits msr' first' bits' k k' : ℕ)
    → Range msr first bits
    → Range msr' first' bits'
    → k < 2
    → k' < 2
    → msr ≢ msr'
    → bits + 2 * (msr - first) + k ≢ bits' + 2 * (msr' - first') + k'
Range-apart msr first bits msr' first' bits' k k' r r' b b' ne q =
    let (a, e) = Range-register_at msr first bits r in
    let (a', e') = Range-register_at msr' first' bits' r' in
    let same : bits + 2 * (msr - first) ≡ bits' + 2 * (msr' - first') =
      omega (arith, e, e', q, b, b') in
    ne (sym a ∙ ap register_at same ∙ a')

pub data AreInMap : List ℕ → Type 0 where
  nothing : {xs : List ℕ} → xs ≡ [] → AreInMap xs
  more :
      {xs rest : List ℕ} {x first bits : ℕ}
      → Range x first bits
      → AreInMap rest
      → xs ≡ x ∷ rest
      → AreInMap xs

-- Of the registers of the map just those of the list lose the interception, of reads (`k` is 0) and writes (`k` is 1).
pub record PassesOnly (msrpm msrpm' : ℕ → ℕ → Bool) (xs : List ℕ) : Type 0 where
  pub bits_of :
      (msr first bits k : ℕ)
      → Range msr first bits
      → k < 2
      → intercepted msrpm' (bits + 2 * (msr - first) + k)
        ≡ (if listed msr xs then false else intercepted msrpm (bits + 2 * (msr - first) + k))

if_same : (b : Bool) → (if b then false else false) ≡ false
if_same true = refl
if_same false = refl

SetOnly-bit :
    (m m1 : ℕ → ℕ → Bool) (n k : ℕ)
    → SetOnly m m1 n true true
    → k < 2
    → intercepted m1 (n + k) ≡ false
SetOnly-bit m m1 n k s l = elim (Bool-cases (k == 0)) [
  | inl z ↦
      (let e : n ≡ n + k = omega (arith, ==→eq k 0 z) in
        subst (λ t. intercepted m1 t ≡ false) e s.read_bit)
  | inr z ↦
      (let e : n + 1 ≡ n + k = omega (arith, ==→ne k 0 z, l) in
        subst (λ t. intercepted m1 t ≡ false) e s.write_bit)
]

-- The first call and the rest.
PassesOnly-more :
    (m m1 m' : ℕ → ℕ → Bool) (x first bits : ℕ) (xs : List ℕ)
    → Range x first bits
    → SetOnly m m1 (bits + 2 * (x - first)) true true
    → PassesOnly m1 m' xs
    → PassesOnly m m' (x ∷ xs)
PassesOnly-more m m1 m' x first bits xs r s p = record {
  bits_of = λ msr f b k q l. elim (Bool-cases (x == msr)) [
    | inl e ↦
        (let places =
            Range-place_of msr f b q
            ∙ ap place_of (sym (==→eq x msr e))
            ∙ sym (Range-place_of x first bits r) in
          let h : intercepted m1 (b + 2 * (msr - f) + k) ≡ false =
            rw places (SetOnly-bit m m1 _ k s l) in
          rw (e, p.bits_of msr f b k q l, h) (if_same (listed msr xs)))
    | inr e ↦
        (let o = λ (k' : ℕ) (l' : k' < 2).
            Range-apart msr f b x first bits k k' q r l l' (λ z. ==→ne x msr e (sym z)) in
          let h =
            s.others (b + 2 * (msr - f) + k) (λ z. o 0 (omega arith) (omega (arith, z)))
              (o 1 (omega arith)) in
          rw (e, p.bits_of msr f b k q l, h) refl)
  ];
}

pass_through-PassesOnly :
    (m : ℕ → ℕ → Bool) (xs : List ℕ)
    → AreInMap xs
    → (m' : ℕ → ℕ → Bool) × (pass_through m xs ≡ some m') × PassesOnly m m' xs
unfolding pass_through
pass_through-PassesOnly m xs (nothing e) =
    rw e (m, refl, record { bits_of = λ msr f b k q l. refl })
pass_through-PassesOnly m xs (more {rest = rest} {x = x} {first = first} {bits = bits} r a e) =
    let (m1, h, s) = (set_msr_interception-SetOnly m x true true).0 first bits r in
    let (m', h', p) = pass_through-PassesOnly m1 rest a in
    rw e (m', rw (pass_through, h) h', PassesOnly-more m m1 m' x first bits rest r s p)

mid_more :
    (x : ℕ) (rest : List ℕ) → 0xc0000000 ≤ x → x < 0xc0002000 → AreInMap rest → AreInMap (x ∷ rest)
mid_more x rest a b r = more (mid a b refl refl) r refl

direct_msrs-AreInMap : AreInMap direct_msrs
direct_msrs-AreInMap = mid_more _ _ (omega arith) (omega arith) (
    mid_more _ _ (omega arith) (omega arith) (
      mid_more _ _ (omega arith) (omega arith) (
        mid_more _ _ (omega arith) (omega arith) (
          mid_more _ _ (omega arith) (omega arith) (
            mid_more _ _ (omega arith) (omega arith)
              (mid_more _ _ (omega arith) (omega arith) (nothing refl)))))))

not_listed : (b : Bool) → (if b then false else true) ≡ not b
not_listed true = refl
not_listed false = refl

-- The module's permission map can be set up, and with it the processor intercepts every access to a register of the
-- map's three ranges, reads (`k` is 0) and writes (`k` is 1) alike, but for the seven registers that the
-- calls name.
pub svm_init_msrpm-direct :
    (msrpm : ℕ → ℕ → Bool) × (svm_init_msrpm ≡ some msrpm)
    × ((msr first bits k : ℕ)
        → Range msr first bits
        → k < 2
        → intercepted msrpm (bits + 2 * (msr - first) + k) ≡ not (listed msr direct_msrs))
unfolding svm_init_msrpm
svm_init_msrpm-direct =
    let (m, h, p) = pass_through-PassesOnly (λ offset bit. true) direct_msrs direct_msrs-AreInMap in
    (
      m,
      h,
      λ msr first bits k r l. p.bits_of msr first bits k r l ∙ not_listed (listed msr direct_msrs),
    )
