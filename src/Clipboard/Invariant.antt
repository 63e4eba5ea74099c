-- ===== src/Clipboard/Invariant.antt =====
-- The invariant of the driver's state, in three parts.
pub mod Slots
pub mod Blocks
pub mod Locks
use clipboard.Prelude.{
  ℕ, zero, suc, ◌+◌, ◌-◌, ◌≤◌, ◌<◌, ◌≡◌, refl, ◌≢◌, ◌⊎◌, inl, inr, Bool, true, false, Option, none,
  some, List, length, arith, update, update_self, update_ne, eq_cases, ◌==◌, if◌then◌else◌, sym,
  ◌∙◌,
}
use clipboard.Memory.{Heap}
use clipboard.Stack.{Stack}
use clipboard.Protocol.{buf_max_count, entry_len_limit}
use clipboard.Clipboard.{Entry, Slot, empty, used, locked, Clipboard}

abbrev pub Occupied : Entry → Type 0
Occupied e = e.in_use ≢ empty

-- How many of the slots below `n` are not empty.
abbrev pub weight : Entry → ℕ
weight e = elim e.in_use [ empty ↦ 0 | used ↦ 1 | locked ↦ 1 ]

unfoldable pub occupied : (ℕ → Entry) → ℕ → ℕ
occupied entries zero = 0
occupied entries (suc n) = weight (entries n) + occupied entries n

-- The stack holds the number of each empty slot, once, and nothing else.
pub record FreeList (entries : ℕ → Entry) (s : Stack) : Type 0 where
  pub within : s.current + occupied entries buf_max_count ≡ buf_max_count
  pub index : (k : ℕ) → k < s.current → s.value k < buf_max_count
  pub free : (k : ℕ) → k < s.current → (entries (s.value k)).in_use ≡ empty
  pub once : (k l : ℕ) → k < l → l < s.current → s.value k ≢ s.value l
  pub complete :
      (id : ℕ)
      → id < buf_max_count
      → (entries id).in_use ≡ empty
      → (k : ℕ) × (k < s.current) × (s.value k ≡ id)

-- The block of an entry is live, and as long as the entry says; the text fits a message.
abbrev pub Holds : Heap → Entry → Type 0
Holds h e =
    (b : List ℕ) × (h e.buffer ≡ some b)
    × (length b ≡ e.buffer_len)
    × (e.buffer_len ≤ entry_len_limit)

-- The live blocks are those of the occupied slots, one each.
pub record Buffers (entries : ℕ → Entry) (h : Heap) : Type 0 where
  pub owned : (id : ℕ) → id < buf_max_count → Occupied (entries id) → Holds h (entries id)
  pub apart :
      (i j : ℕ)
      → i < buf_max_count
      → j < buf_max_count
      → Occupied (entries i)
      → Occupied (entries j)
      → (entries i).buffer ≡ (entries j).buffer
      → i ≡ j
  pub no_leak :
      (p : ℕ) (b : List ℕ)
      → h p ≡ some b
      → (id : ℕ) × (id < buf_max_count) × Occupied (entries id) × ((entries id).buffer ≡ p)

abbrev pub LockedBy : ℕ → Entry → Type 0
LockedBy pid e = (e.in_use ≡ locked) × (e.locking_pid ≡ pid)

-- No process holds two locks.
abbrev pub OneLock : (ℕ → Entry) → Type 0
OneLock entries =
    (pid i j : ℕ)
    → i < buf_max_count
    → j < buf_max_count
    → LockedBy pid (entries i)
    → LockedBy pid (entries j)
    → i ≡ j

pub record IsValid (c : Clipboard) : Type 0 where
  pub free_list : FreeList c.entries c.available_entries
  pub buffers : Buffers c.entries c.heap
  pub one_lock : OneLock c.entries

-- The effect of one write on the number of occupied slots.
pub occupied-update :
    (entries : ℕ → Entry) (id : ℕ) (e : Entry) (n : ℕ)
    → id < n
    → occupied (update entries id e) n + weight (entries id) ≡ occupied entries n + weight e
unfolding occupied
occupied-update entries id e zero h = absurd (omega arith)
occupied-update entries id e (suc n) h = elim (eq_cases n id) [
  | inl same ↦ ground (arith, same, above n id (omega arith))
  | inr other ↦
      ground (arith, update_ne entries id e n other, occupied-update entries id e n (omega arith))
]
  where
    above : (m k : ℕ) → m ≤ k → occupied (update entries k e) m ≡ occupied entries m
    above zero k l = refl
    above (suc m) k l =
        ground (arith, update_ne entries k e m (omega arith), above m k (omega arith))

pub occupied_pos :
    (entries : ℕ → Entry) (id n : ℕ) → id < n → Occupied (entries id) → 1 ≤ occupied entries n
unfolding occupied
occupied_pos entries id zero h o = absurd (omega arith)
occupied_pos entries id (suc n) h o = elim (eq_cases n id) [
  | inl same ↦ ground (arith, same)
  | inr other ↦ ground (arith, occupied_pos entries id n (omega arith) o)
]
