-- ===== src/Base/Word.antt =====
-- 64-bit and 32-bit words as natural numbers: an operation that can wrap does so explicitly, a shift
-- is a division or a product, and a mask of low bits a remainder.
use Prim.Native.Nat.{ℕ, ◌+◌, ◌-◌, ◌*◌, ◌/◌, ◌%◌, ◌^◌}

abbrev pub u64_mod : ℕ
u64_mod = 2 ^ 64

abbrev pub add64 : ℕ → ℕ → ℕ
add64 a b = (a + b) % u64_mod

abbrev pub sub64 : ℕ → ℕ → ℕ
sub64 a b = (a + u64_mod - b) % u64_mod

-- `atomic_inc` and `atomic_dec`, on 32 bits.
abbrev pub inc32 : ℕ → ℕ
inc32 a = (a + 1) % 2 ^ 32

abbrev pub dec32 : ℕ → ℕ
dec32 a = (a + 2 ^ 32 - 1) % 2 ^ 32

-- `x & ~(a - 1)` for `a` a power of two.
abbrev pub align_down : ℕ → ℕ → ℕ
align_down x a = x / a * a

abbrev pub page_size : ℕ
page_size = 4096

-- `SLIMVM_HPAGE_2M_SIZE`
abbrev pub hpage_size : ℕ
hpage_size = 2097152

-- `ADDR_INVAL`, `(unsigned long)-1`
abbrev pub addr_inval : ℕ
addr_inval = u64_mod - 1
