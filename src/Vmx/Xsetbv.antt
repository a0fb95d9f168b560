-- ===== src/Vmx/Xsetbv.antt =====
-- `handle_xsetbv` of vmx.c: the guest sets `XCR0`, which the host loads when the guest runs.
use slimvm.Base.{
  ℕ, ◌+◌, ◌*◌, ◌/◌, ◌%◌, ◌^◌, ◌≡◌, ◌↔◌, Bool, true, false, not, ◌&&◌, ◌||◌, arith, if◌then◌else◌,
  ◌==◌,
}
use slimvm.Seccomp.{rax, rdx}
use slimvm.Vmx.Msr.{rcx, low32}

-- `xcr0 & (1 << i)`
abbrev pub has_bit : ℕ → ℕ → Bool
has_bit x i = x / 2 ^ i % 2 == 1

abbrev same_bool : Bool → Bool → Bool
same_bool true b = b
same_bool false b = not b

-- `XFEATURE_MASK_FP`, `SSE`, `YMM`, `BNDREGS` and `BNDCSR` are the bits 0 to 4, and `XFEATURE_MASK_AVX512` the bits
-- 5 to 7. The tests in the order of the source; `true` where it returns 1.
unfoldable pub refuses_xcr0 : ℕ → Bool
refuses_xcr0 xcr0 =
    if not (has_bit xcr0 0)
    then true
    else if has_bit xcr0 2 && not (has_bit xcr0 1)
    then true
    else if not (same_bool (has_bit xcr0 3) (has_bit xcr0 4))
    then true
    else if has_bit xcr0 5 || has_bit xcr0 6 || has_bit xcr0 7
    then if not (has_bit xcr0 2)
      then true
      else not (has_bit xcr0 5 && has_bit xcr0 6 && has_bit xcr0 7)
    else false

-- `vcpu->xcr0` after it, and whether it returns 0. The index `XCR_XFEATURE_ENABLED_MASK` is 0.
unfoldable pub handle_xsetbv : (ℕ → ℕ) → ℕ → Bool × ℕ
unfolding refuses_xcr0
handle_xsetbv regs xcr0 =
    let new = low32 (regs rax) + low32 (regs rdx) * 2 ^ 32 in
    if not (low32 (regs rcx) == 0)
    then (false, xcr0)
    else if refuses_xcr0 new
    then (false, xcr0)
    else (true, new)

-- The rules of the architecture for the state components 0 to 7 of `XCR0`: x87 is always on, AVX needs SSE, the
-- two MPX components go together, and so do the three of AVX-512, which need AVX.
pub record IsXcr0 (x : ℕ) : Type 0 where
  pub x87 : has_bit x 0 ≡ true
  pub avx : has_bit x 2 ≡ true → has_bit x 1 ≡ true
  pub mpx : has_bit x 3 ≡ has_bit x 4
  pub avx512_mask : has_bit x 5 ≡ has_bit x 6
  pub avx512_upper : has_bit x 6 ≡ has_bit x 7
  pub avx512 : has_bit x 5 ≡ true → has_bit x 2 ≡ true

refuses_xcr0-IsXcr0 : (x : ℕ) → refuses_xcr0 x ≡ false → IsXcr0 x
unfolding refuses_xcr0
refuses_xcr0-IsXcr0 x h = record {
  x87 = ground arith;
  avx = λ a. ground arith;
  mpx = ground arith;
  avx512_mask = ground arith;
  avx512_upper = ground arith;
  avx512 = λ a. ground arith;
}

IsXcr0-accepted : (x : ℕ) → IsXcr0 x → refuses_xcr0 x ≡ false
unfolding refuses_xcr0
IsXcr0-accepted x v = ground (arith, v.x87, v.avx, v.mpx, v.avx512_mask, v.avx512_upper, v.avx512)

-- The write is taken over just where it names `XCR0` and its value keeps the architecture's rules for the
-- components 0 to 7; otherwise the value is left as it was. Higher components are not looked at.
pub handle_xsetbv_iff :
    (regs : ℕ → ℕ) (xcr0 : ℕ)
    → (((handle_xsetbv regs xcr0).0 ≡ true)
        ↔ ((low32 (regs rcx) ≡ 0) × IsXcr0 (low32 (regs rax) + low32 (regs rdx) * 2 ^ 32)))
      × ((handle_xsetbv regs xcr0).1 ≡ (
          if (handle_xsetbv regs xcr0).0
          then low32 (regs rax) + low32 (regs rdx) * 2 ^ 32
          else xcr0))
unfolding handle_xsetbv
handle_xsetbv_iff regs xcr0 =
    let new = low32 (regs rax) + low32 (regs rdx) * 2 ^ 32 in
    (
      (
        λ h. (ground arith, refuses_xcr0-IsXcr0 new (ground arith)),
        λ (i, v). ground (arith, IsXcr0-accepted new v),
      ),
      ground arith,
    )
