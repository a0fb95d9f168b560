-- ===== src/Base/Maps.antt =====
-- Arrays and tables as functions of the index, with their bits.
use Prim.Native.Nat.{ℕ}
use mathlib.Core.Path.{◌≡◌}
use mathlib.Core.Logic.{◌≢◌, inl, inr}
use mathlib.Core.Bool.{Bool, true, false}
use native.Mathlib.Omega.{arith}
use slimvm.Base.Tests.{◌==◌, if◌then◌else◌, Bool-cases, ==→eq, ==→ne}

abbrev pub update {ℓ} : {A : Type ℓ} → (ℕ → A) → ℕ → A → ℕ → A
update f i a j = if j == i then a else f j

pub update-same {ℓ} : {A : Type ℓ} (f : ℕ → A) (i : ℕ) (a : A) → update f i a i ≡ a
update-same f i a = ground arith

pub update-other {ℓ} :
    {A : Type ℓ} (f : ℕ → A) (i : ℕ) (a : A) (j : ℕ) → j ≢ i → update f i a j ≡ f j
update-other f i a j n = ground arith

-- To prove a property of an updated array: at the place of the update, and elsewhere.
pub update_cases {ℓ ℓ'} :
    {A : Type ℓ} (f : ℕ → A) (i : ℕ) (a : A) (P : ℕ → A → Type ℓ')
    → P i a
    → ((j : ℕ) → j ≢ i → P j (f j))
    → (j : ℕ) → P j (update f i a j)
update_cases f i a P here there j = elim (Bool-cases (j == i)) [
  | inl e ↦ rw (==→eq j i e, update-same f i a) here
  | inr e ↦ rw (update-other f i a j (==→ne j i e)) (there j (==→ne j i e))
]

-- A bit as a number.
abbrev pub bit : Bool → ℕ
bit true = 1
bit false = 0
