-- ===== src/Prelude/Int.antt =====
-- The C type int: a sign and a magnitude, and the conversions to and from 32-bit patterns.
use Prim.Native.Nat.{ℕ, ◌-◌, ◌^◌, ◌<◌, ◌%◌}
use mathlib.Core.Path.{◌≡◌, ap}
use mathlib.Core.Logic.{◌≢◌, ◌⊎◌, inl, inr}
use mathlib.Core.Bool.{Bool, true, false}
use native.Mathlib.Omega.{arith}
use package.clipboard.Prelude.Tests.{ltb, eq_cases, if◌then◌else◌}

-- `negsuc n` is -(n + 1).
pub data ℤ : Type 0 where
  pos : ℕ → ℤ
  negsuc : ℕ → ℤ

pub int_cases : (x y : ℤ) → (x ≡ y) ⊎ (x ≢ y)
int_cases (pos m) (pos n) = elim (eq_cases m n) [
  | inl same ↦ inl (ap pos same)
  | inr other ↦ inr (λ e. other (cc e))
]
int_cases (pos m) (negsuc n) = inr (λ e. cc)
int_cases (negsuc m) (pos n) = inr (λ e. cc)
int_cases (negsuc m) (negsuc n) = elim (eq_cases m n) [
  | inl same ↦ inl (ap negsuc same)
  | inr other ↦ inr (λ e. other (cc e))
]

-- The -1 that the program's functions return on an error.
abbrev pub minus_one : ℤ
minus_one = negsuc 0

abbrev pub is_negative : ℤ → Bool
is_negative (pos n) = false
is_negative (negsuc n) = true

abbrev pub u32_mod : ℕ
u32_mod = 2 ^ 32

-- (int) of a uint32_t, and of a pid_t kept as its bit pattern.
unfoldable pub to_int : ℕ → ℤ
to_int w = if ltb w (2 ^ 31) then pos w else negsuc (2 ^ 32 - w - 1)

-- (uint32_t) of an int.
unfoldable pub to_uint : ℤ → ℕ
to_uint (pos n) = n % 2 ^ 32
to_uint (negsuc n) = 2 ^ 32 - 1 - n % 2 ^ 32

-- Converting a pattern to an int and back changes nothing.
pub to_uint-to_int : (w : ℕ) → w < 2 ^ 32 → to_uint (to_int w) ≡ w
unfolding to_int to_uint
to_uint-to_int w h = ground arith

pub to_int_small : (w : ℕ) → w < 2 ^ 31 → to_int w ≡ pos w
unfolding to_int
to_int_small w h = ground arith

pub to_uint_small : (n : ℕ) → n < 2 ^ 32 → to_uint (pos n) ≡ n
unfolding to_uint
to_uint_small n h = omega arith

pub to_int_minus : to_int (to_uint minus_one) ≡ minus_one
unfolding to_int to_uint
to_int_minus = λ i. minus_one
