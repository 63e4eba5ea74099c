-- ===== src/Stack/Init.antt =====
-- The loop of `init` in stack.c.
use clipboard.Prelude.{
  ℕ, zero, suc, ◌+◌, ◌≤◌, ◌<◌, ◌≡◌, refl, inl, inr, arith, Returns, eq_cases, update, store_within,
  update_self, update_ne,
}
use clipboard.Stack.{Stack, stack_size, upper_bound, init, init_values}

-- After the rounds from `i` to `j` the elements from `i` on hold their own index.
init_values_lem :
    (n i j : ℕ) (value : ℕ → ℕ)
    → i + n ≡ j
    → j ≤ stack_size
    → Returns
        (init_values n i value)
        λ value'. ((k : ℕ) → k < i → value' k ≡ value k) × ((k : ℕ) → i ≤ k → k < j → value' k ≡ k)
unfolding init_values
init_values_lem zero i j value e h = (value, refl, (λ k _. refl, λ k a b. absurd (omega arith)))
init_values_lem (suc n) i j value e h =
    let (value', runs, (below, above)) =
      init_values_lem n (i + 1) j (update value i i) (omega arith) h in
    (
      value',
      rw (store_within stack_size value i i (omega arith)) runs,
      (
        λ k a. ground (arith, below k (omega arith), update_ne value i i k (omega arith)),
        λ k a b. elim (eq_cases k i) [
          | inl same ↦ ground (arith, below k (omega arith), update_self value i i)
          | inr other ↦ above k (omega arith) b
        ],
      ),
    )

-- `init` never faults; it leaves a full stack whose element number k is k.
pub init_lem :
    (s : Stack)
    → Returns (init s) λ t. (t.current ≡ stack_size) × ((k : ℕ) → k < stack_size → t.value k ≡ k)
unfolding init upper_bound
init_lem s =
    let (value, runs, (_, filled)) =
      init_values_lem stack_size 0 stack_size s.value (omega arith) (omega arith) in
    (
      record { value = value; current = stack_size },
      rw runs,
      (refl, λ k h. filled k (omega arith) h),
    )
