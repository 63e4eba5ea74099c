-- ===== src/Prelude/Finite.antt =====
-- How many different numbers there are below a bound.
use Prim.Native.Nat.{ℕ, zero, suc, ◌≤◌, ◌<◌}
use mathlib.Core.Path.{◌≡◌, ◌∙◌, sym}
use mathlib.Core.Logic.{◌≢◌}
use native.Mathlib.Omega.{arith}
use clipboard.Prelude.Tests.{◌==◌, if◌then◌else◌, eq_cases, eq→==, ne→==_false}
use mathlib.Core.Logic.{inl, inr}

-- The numbers f 0 to f (k - 1), where f k stands for the one that is `n`.
abbrev lowered : (ℕ → ℕ) → ℕ → ℕ → ℕ → ℕ
lowered f n k j = if f j == n then f k else f j

lowered_below :
    (n k : ℕ) (f : ℕ → ℕ)
    → ((j : ℕ) → j < suc k → f j < suc n)
    → ((i j : ℕ) → i < j → j < suc k → f i ≢ f j)
    → (j : ℕ) → j < k
    → lowered f n k j < n
lowered_below n k f below apart j l = elim (eq_cases (f j) n) [
  | inl top ↦ rw (eq→== (f j) n top) (omega (arith, below k (omega arith), other top))
  | inr ne ↦ rw (ne→==_false (f j) n ne) (omega (arith, below j (omega arith), ne))
]
  where
    other : f j ≡ n → f k ≢ n
    other top e = apart j k l (omega arith) (top ∙ sym e)

lowered_apart :
    (n k : ℕ) (f : ℕ → ℕ)
    → ((i j : ℕ) → i < j → j < suc k → f i ≢ f j)
    → (i j : ℕ) → i < j
    → j < k
    → lowered f n k i ≢ lowered f n k j
lowered_apart n k f apart i j l h = elim (eq_cases (f i) n) [
  | inl top ↦ elim (eq_cases (f j) n) [
    | inl top' ↦ absurd (apart i j l (omega arith) (top ∙ sym top'))
    | inr ne ↦
        rw (eq→== (f i) n top, ne→==_false (f j) n ne) (λ e. apart j k h (omega arith) (sym e))
  ]
  | inr ne ↦ elim (eq_cases (f j) n) [
    | inl top ↦
        rw (ne→==_false (f i) n ne, eq→== (f j) n top) (apart i k (omega arith) (omega arith))
    | inr ne' ↦ rw (ne→==_false (f i) n ne, ne→==_false (f j) n ne') (apart i j l (omega arith))
  ]
]

-- k different numbers below n: k is at most n.
pub distinct_bound :
    (n k : ℕ) (f : ℕ → ℕ)
    → ((j : ℕ) → j < k → f j < n)
    → ((i j : ℕ) → i < j → j < k → f i ≢ f j)
    → k ≤ n
distinct_bound n zero f below apart = omega arith
distinct_bound zero (suc k) f below apart = absurd (omega (arith, below 0 (omega arith)))
distinct_bound (suc n) (suc k) f below apart =
    let smaller =
      distinct_bound n k (lowered f n k) (lowered_below n k f below apart)
        (lowered_apart n k f apart) in
    omega arith
