-- ===== src/Svm/Msrpm.antt =====
-- The permission map of the model-specific registers (svm.c): which accesses of the guest are intercepted. A word
-- of the map is a function from the number of the bit. Intercepts is the processor's reading of the map, from
-- the architecture.
use slimvm.Base.{
  ℕ, ◌+◌, ◌-◌, ◌*◌, ◌/◌, ◌%◌, ◌≡◌, ◌≢◌, ◌≤◌, ◌<◌, ◌⊎◌, inl, inr, refl, Bool, not, ◌||◌, Option,
  none, some, List, [], ◌∷◌, ltb, ltb→lt, ltb→ge, Bool-cases, leb, if◌then◌else◌, arith, update,
}

-- `msrpm_ranges`
abbrev pub msrpm_ranges : List ℕ
msrpm_ranges = 0 ∷ 0xc0000000 ∷ 0xc0010000 ∷ []

abbrev pub msrs_range_size : ℕ
msrs_range_size = 2048

abbrev pub msrs_in_range : ℕ
msrs_in_range = msrs_range_size * 8 / 2

-- The loop of `svm_msrpm_offset` from range `i` on; `MSR_INVALID` is `none`.
unfoldable pub find_range : List ℕ → ℕ → ℕ → Option ℕ
find_range [] i msr = none
find_range (r ∷ ranges) i msr =
    let rest = find_range ranges (i + 1) msr in
    if ltb msr r || leb (r + msrs_in_range) msr
    then rest
    else some (((msr - r) / 4 + i * msrs_range_size) / 4)

unfoldable pub svm_msrpm_offset : ℕ → Option ℕ
unfolding find_range
svm_msrpm_offset msr = find_range msrpm_ranges 0 msr

-- A word with the two bits of a register.
abbrev pub set_word : (ℕ → Bool) → ℕ → Bool → Bool → ℕ → Bool
set_word tmp msr read write =
    update (update tmp (2 * (msr % 16)) (not read)) (2 * (msr % 16) + 1) (not write)

-- `none` is the `BUG_ON`.
unfoldable pub set_msr_interception : (ℕ → ℕ → Bool) → ℕ → Bool → Bool → Option (ℕ → ℕ → Bool)
unfolding svm_msrpm_offset
set_msr_interception msrpm msr read write = elim (svm_msrpm_offset msr) [
  | none ↦ none
  | some offset ↦ some (update msrpm offset (set_word (msrpm offset) msr read write))
]

-- The three ranges of registers that the map has bits for, and where the bits of a range begin.
pub data Range : ℕ → ℕ → ℕ → Type 0 where
  low : {msr bits first : ℕ} → msr < 0x2000 → first ≡ 0 → bits ≡ 0 → Range msr first bits
  mid :
      {msr bits first : ℕ}
      → 0xc0000000 ≤ msr
      → msr < 0xc0002000
      → first ≡ 0xc0000000
      → bits ≡ 0x4000
      → Range msr first bits
  high :
      {msr bits first : ℕ}
      → 0xc0010000 ≤ msr
      → msr < 0xc0012000
      → first ≡ 0xc0010000
      → bits ≡ 0x8000
      → Range msr first bits

svm_msrpm_offset-Range :
    (msr first bits : ℕ)
    → Range msr first bits
    → (svm_msrpm_offset msr ≡ some ((bits + 2 * (msr - first)) / 32))
      × (2 * (msr % 16) ≡ (bits + 2 * (msr - first)) % 32)
unfolding svm_msrpm_offset find_range
svm_msrpm_offset-Range msr first bits (low l f b) = ground (arith, f, b, l)
svm_msrpm_offset-Range msr first bits (mid g l f b) = ground (arith, f, b, g, l)
svm_msrpm_offset-Range msr first bits (high g l f b) = ground (arith, f, b, g, l)

outside : (n lo hi : ℕ) → (lo ≤ n → ¬ n < hi) → (n < lo) ⊎ (hi ≤ n)
outside n lo hi f = elim (Bool-cases (ltb n lo)) [
  | inl l ↦ inl (ltb→lt n lo l)
  | inr g ↦ elim (Bool-cases (ltb n hi)) [
    | inl l ↦ absurd (f (ltb→ge n lo g) (ltb→lt n hi l))
    | inr h ↦ inr (ltb→ge n hi h)
  ]
]

outside_below : (n hi : ℕ) → (¬ n < hi) → hi ≤ n
outside_below n hi f = omega (arith, f)

svm_msrpm_offset-none :
    (msr : ℕ) → ((first bits : ℕ) → ¬ Range msr first bits) → svm_msrpm_offset msr ≡ none
unfolding svm_msrpm_offset find_range
svm_msrpm_offset-none msr n =
    let a : 0x2000 ≤ msr = outside_below msr 0x2000 λ l. n 0 0 (low l refl refl) in
    let b : (msr < 0xc0000000) ⊎ (0xc0002000 ≤ msr) =
      outside msr 0xc0000000 0xc0002000 λ g l. n 0xc0000000 0x4000 (mid g l refl refl) in
    let c : (msr < 0xc0010000) ⊎ (0xc0012000 ≤ msr) =
      outside msr 0xc0010000 0xc0012000 λ g l. n 0xc0010000 0x8000 (high g l refl refl) in
    ground (arith, a, b, c)

-- The processor's reading of bit `n` of the map: whether the access is intercepted.
abbrev pub intercepted : (ℕ → ℕ → Bool) → ℕ → Bool
intercepted msrpm n = msrpm (n / 32) (n % 32)

-- The bits of one register, from `n` on, are set, and no others.
pub record SetOnly (msrpm msrpm' : ℕ → ℕ → Bool) (n : ℕ) (read write : Bool) : Type 0 where
  pub read_bit : intercepted msrpm' n ≡ not read
  pub write_bit : intercepted msrpm' (n + 1) ≡ not write
  pub others : (k : ℕ) → k ≢ n → k ≢ n + 1 → intercepted msrpm' k ≡ intercepted msrpm k

set_word-SetOnly :
    (msrpm : ℕ → ℕ → Bool) (msr n : ℕ) (read write : Bool)
    → 2 * (msr % 16) ≡ n % 32
    → SetOnly msrpm (update msrpm (n / 32) (set_word (msrpm (n / 32)) msr read write)) n read write
set_word-SetOnly msrpm msr n read write e = record {
  read_bit = ground (arith, e);
  write_bit = ground (arith, e);
  others = λ k h h'. ground (arith, e, h, h');
}

-- Setting the interception of a register sets its two bits of the map, at the place where the processor reads
-- them, and no other bit, so that the accesses to every other register stay as they were. A register that is
-- in none of the map's three ranges is refused.
pub set_msr_interception-SetOnly :
    (msrpm : ℕ → ℕ → Bool) (msr : ℕ) (read write : Bool)
    → ((first bits : ℕ)
        → Range msr first bits
        → (msrpm' : ℕ → ℕ → Bool) × (set_msr_interception msrpm msr read write ≡ some msrpm')
          × SetOnly msrpm msrpm' (bits + 2 * (msr - first)) read write)
      × (((first bits : ℕ) → ¬ Range msr first bits)
          → set_msr_interception msrpm msr read write ≡ none)
unfolding set_msr_interception
set_msr_interception-SetOnly msrpm msr read write = (
  λ first bits r.
      let (o, e) = svm_msrpm_offset-Range msr first bits r in
      (
        _,
        rw (set_msr_interception, o) refl,
        set_word-SetOnly msrpm msr (bits + 2 * (msr - first)) read write e,
      ),
  λ n. rw (set_msr_interception, svm_msrpm_offset-none msr n) refl,
)
