-- ===== src/Clipboard/Fill.antt =====
-- do_clipboard_set and do_clipboard_real_set.
use clipboard.Prelude.{
  ℕ, ◌-◌, ◌≤◌, ◌<◌, ◌≡◌, ◌≢◌, ◌⊎◌, inl, inr, false, some, List, length, arith, update, done, take,
  ◌||◌, load_within, store_within, pos, minus_one, update_self, update_twice, replicate,
  length-replicate, length-take, eq_cases,
}
use clipboard.Memory.{Allocator}
use clipboard.Memory.Laws.{malloc_placed, block_at_live, memcpy_over}
use clipboard.Stack.Refine.{take_room, is_empty_zero}
use clipboard.Protocol.{SetMsg, buf_max_count, entry_len_limit}
use clipboard.Clipboard.{
  Entry, empty, used, Clipboard, is_locked, busy, do_clipboard_set, do_clipboard_real_set,
}
use clipboard.Clipboard.Invariant.{IsValid, Occupied}
use clipboard.Clipboard.Invariant.Slots.{FreeList-take}
use clipboard.Clipboard.Invariant.Blocks.{Buffers-fill}
use clipboard.Clipboard.Invariant.Locks.{OneLock-unlocked}

-- A set message as the C library sends it: a whole buffer, and a length within it.
abbrev pub IsSound : SetMsg → Type 0
IsSound msg = (length msg.buffer ≡ entry_len_limit) × (msg.buffer_len ≤ entry_len_limit)

-- The entry that a set message makes, its block at `p`.
abbrev pub filled_entry : SetMsg → ℕ → Entry → Entry
filled_entry msg p e = record e {
  buffer = p;
  buffer_len = msg.buffer_len;
  decompressed_len = msg.decompressed_len;
  source_pid = msg.pid;
  in_use = used;
}

-- The state with the message in the slot `id`, taken from the stack.
abbrev pub filled : ℕ → ℕ → SetMsg → Clipboard → Clipboard
filled id p msg c = record {
  entries = update c.entries id (filled_entry msg p (c.entries id));
  available_entries = record c.available_entries { current = c.available_entries.current - 1 };
  heap = update c.heap p (some (take msg.buffer_len msg.buffer));
}

abbrev pub next_id : Clipboard → ℕ
next_id c = c.available_entries.value (c.available_entries.current - 1)

real_set_runs :
    (a : Allocator) (id p : ℕ) (msg : SetMsg) (c : Clipboard)
    → IsSound msg
    → id < buf_max_count
    → a.place c.heap msg.buffer_len ≡ some p
    → do_clipboard_real_set a id msg c
      ≡ done (record c {
        entries = update c.entries id (filled_entry msg p (c.entries id));
        heap = update c.heap p (some (take msg.buffer_len msg.buffer));
      })
unfolding do_clipboard_real_set
real_set_runs a id p msg c (whole, fits) h placed = rw (
  malloc_placed a msg.buffer_len p c.heap placed,
  do_clipboard_real_set,
  block_at_live p (update c.heap p (some zeros)) zeros (update_self c.heap p (some zeros)),
  memcpy_over zeros msg.buffer msg.buffer_len (omega arith) (length-replicate msg.buffer_len 0),
  load_within buf_max_count c.entries id h,
  store_within buf_max_count c.entries id (filled_entry msg p (c.entries id)) h,
  update_twice c.heap p (some zeros) (some (take msg.buffer_len msg.buffer)),
)
  where
    zeros : List ℕ
    zeros = replicate msg.buffer_len 0

filled-IsValid :
    (a : Allocator) {c : Clipboard} (p : ℕ) (msg : SetMsg)
    → IsValid c
    → IsSound msg
    → c.available_entries.current ≢ 0
    → a.place c.heap msg.buffer_len ≡ some p
    → IsValid (filled (next_id c) p msg c)
filled-IsValid a {c} p msg v (whole, fits) ne placed = record {
  free_list = FreeList-take v.free_list e ne (λ em. cc);
  buffers =
      Buffers-fill v.buffers (next_id c) e (take msg.buffer_len msg.buffer)
        (v.free_list.index last below) (v.free_list.free last below) (λ em. cc)
        (a.fresh c.heap msg.buffer_len p placed)
        (omega (arith, length-take msg.buffer_len msg.buffer)) fits;
  one_lock = OneLock-unlocked c.entries v.one_lock (next_id c) e (λ em. cc);
}
  where
    e : Entry
    e = filled_entry msg p (c.entries (next_id c))

    last : ℕ
    last = c.available_entries.current - 1

    below : last < c.available_entries.current
    below = omega arith

-- On a valid state `do_clipboard_set` never faults, for a sound message and an allocator that finds
-- room. If every slot is occupied it returns -1 and nothing changes; if not, it fills an empty slot
-- and returns its number. Both leave a valid state.
pub do_clipboard_set_lem :
    (a : Allocator) {c : Clipboard} (p : ℕ) (msg : SetMsg)
    → IsValid c
    → IsSound msg
    → a.place c.heap msg.buffer_len ≡ some p
    → (((i : ℕ) → i < buf_max_count → Occupied (c.entries i))
        × (do_clipboard_set a msg c ≡ done (minus_one, c)))
      ⊎ ((id : ℕ) × (id < buf_max_count)
          × ((c.entries id).in_use ≡ empty)
          × (do_clipboard_set a msg c ≡ done (pos id, filled id p msg c))
          × IsValid (filled id p msg c))
unfolding do_clipboard_set
do_clipboard_set_lem a {c} p msg v sound placed = elim (eq_cases c.available_entries.current 0) [
  | inl none_left ↦ inl (full none_left, rw (is_empty_zero c.available_entries none_left))
  | inr ne ↦
      let below : c.available_entries.current - 1 < c.available_entries.current = omega arith in
      let (some_left, top_is, popped) =
        take_room c.available_entries (omega (arith, v.free_list.within)) ne in
      let low = v.free_list.index (c.available_entries.current - 1) below in
      let em = v.free_list.free (c.available_entries.current - 1) below in
      inr (
        next_id c,
        low,
        em,
        rw (
          some_left,
          top_is,
          popped,
          load_within buf_max_count c.entries (next_id c) low,
          free_test (c.entries (next_id c)) em,
          real_set_runs a (next_id c) p msg
              (record c {
                available_entries = record c.available_entries {
                  current = c.available_entries.current - 1;
                };
              })
              sound low placed,
        ),
        filled-IsValid a p msg v sound ne placed,
      )
]
  where
    full : c.available_entries.current ≡ 0 → (i : ℕ) → i < buf_max_count → Occupied (c.entries i)
    full none_left i h e = let (k, less, is_i) = v.free_list.complete i h e in omega arith

    free_test : (e : Entry) → e.in_use ≡ empty → (busy e || is_locked e) ≡ false
    free_test e h = ground arith
