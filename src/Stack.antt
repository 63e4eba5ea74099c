-- ===== src/Stack.antt =====
-- stack.h and stack.c of the clipboard driver (new/usr/src/minix/drivers/examples/clipboard):
-- the stack of free slots. A pointer into `value` is the index of the element that it points to.
pub mod Refine
pub mod Init
use clipboard.Prelude.{
  ℕ, zero, suc, ◌+◌, ◌-◌, ◌≡◌, Bool, true, false, not, ◌==◌, if◌then◌else◌, Run, done, undefined,
  ◌>>=◌, ◌>>◌, assert, defined_if, load, store,
}

abbrev pub stack_size : ℕ
stack_size = 100

pub record Stack : Type 0 where
  pub value : ℕ → ℕ
  pub current : ℕ

unfoldable pub lower_bound : Stack → ℕ
lower_bound s = 0

unfoldable pub upper_bound : Stack → ℕ
upper_bound s = stack_size

-- A full stack stays as it is.
unfoldable pub push : ℕ → Stack → Run Stack
unfolding upper_bound
push v s =
    if not (s.current == upper_bound s)
    then (do
      value ← store stack_size s.value s.current v
      done (record { value = value; current = s.current + 1 }))
    else done s

unfoldable pub is_empty : Stack → Bool
unfolding lower_bound
is_empty s = s.current == lower_bound s

unfoldable pub top : Stack → Run ℕ
unfolding is_empty
top s = do assert (not (is_empty s)); load stack_size s.value (s.current - 1)

-- `--stack->current` has no guard: at the lower bound the pointer leaves the array.
unfoldable pub pop : Stack → Run Stack
pop s = if s.current == 0 then undefined else done (record s { current = s.current - 1 })

-- The loop of `init`, with `n` rounds left, at index `i`.
unfoldable pub init_values : ℕ → ℕ → (ℕ → ℕ) → Run (ℕ → ℕ)
init_values zero i value = done value
init_values (suc n) i value = do value' ← store stack_size value i i; init_values n (i + 1) value'

unfoldable pub init : Stack → Run Stack
unfolding upper_bound
init s = do
  value ← init_values stack_size 0 s.value
  done (record { value = value; current = upper_bound s })

unfoldable pub clear : Stack → Stack
unfolding lower_bound
clear s = record s { current = lower_bound s }
