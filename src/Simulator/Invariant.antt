-- ===== src/Simulator/Invariant.antt =====
-- What holds of the simulator's state between calls.
pub mod Blocks
use clipboard.Prelude.{ℕ, ◌≤◌, ◌<◌, ◌≡◌, true, false, some, List, length}
use clipboard.Memory.{Heap}
use clipboard.Stack.{Stack, stack_size}
use clipboard.Simulator.{Entry, Clipboard, buf_max_count, busy}

-- The stack holds the numbers below `current`, each at its own index, and their slots are empty. The
-- numbers that were given out before do not come back.
pub record Fresh (entries : ℕ → Entry) (s : Stack) : Type 0 where
  pub within : s.current ≤ stack_size
  pub number : (k : ℕ) → k < s.current → s.value k ≡ k
  pub unused : (k : ℕ) → k < s.current → busy (entries k) ≡ false

-- The live blocks are those of the busy slots, one each, as long as the entry says.
pub record Buffers (entries : ℕ → Entry) (h : Heap) : Type 0 where
  pub owned :
      (i : ℕ)
      → i < buf_max_count
      → busy (entries i) ≡ true
      → (b : List ℕ) × (h (entries i).buffer ≡ some b) × (length b ≡ (entries i).buffer_len)
  pub apart :
      (i j : ℕ)
      → i < buf_max_count
      → j < buf_max_count
      → busy (entries i) ≡ true
      → busy (entries j) ≡ true
      → (entries i).buffer ≡ (entries j).buffer
      → i ≡ j
  pub no_leak :
      (p : ℕ) (b : List ℕ)
      → h p ≡ some b
      → (i : ℕ) × (i < buf_max_count) × (busy (entries i) ≡ true) × ((entries i).buffer ≡ p)

pub record IsValid (c : Clipboard) : Type 0 where
  pub fresh : Fresh c.entries c.available_entries
  pub buffers : Buffers c.entries c.heap
