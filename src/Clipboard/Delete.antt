-- ===== src/Clipboard/Delete.antt =====
-- delete_entry, and with it do_clipboard_get.
use clipboard.Prelude.{
  ℕ, ◌+◌, ◌≤◌, ◌<◌, ◌≡◌, refl, ◌⊎◌, inl, inr, true, none, some, List, length, arith, update, done,
  drop, ◌++◌, load_within, store_within, minus_one,
}
use clipboard.Memory.Laws.{free_live, block_at_live, memcpy_source}
use clipboard.Stack.{stack_size}
use clipboard.Stack.Refine.{push_room}
use clipboard.Protocol.{GetMsg, buf_max_count, entry_len_limit}
use clipboard.Clipboard.{
  Entry, empty, locked, Clipboard, is_locked, delete_entry, take_entry, do_clipboard_get, ok,
}
use clipboard.Clipboard.Invariant.{IsValid, Occupied, occupied_pos, LockedBy}
use clipboard.Clipboard.Invariant.Slots.{FreeList-give}
use clipboard.Clipboard.Invariant.Blocks.{Buffers-drop}
use clipboard.Clipboard.Invariant.Locks.{OneLock-unlocked}
use clipboard.Clipboard.Search.{get_lock_id_lem}

-- The state without the entry of slot `id`: the slot is on the stack, and its block is free.
abbrev pub deleted : ℕ → Clipboard → Clipboard
deleted id c = record {
  entries = update c.entries id (record (c.entries id) { in_use = empty });
  available_entries = record {
    value = update c.available_entries.value c.available_entries.current id;
    current = c.available_entries.current + 1;
  };
  heap = update c.heap (c.entries id).buffer none;
}

Occupied-locked : (e : Entry) → e.in_use ≡ locked → Occupied e
Occupied-locked e h em = cc

room_on_stack :
    {c : Clipboard} (id : ℕ)
    → IsValid c
    → id < buf_max_count
    → Occupied (c.entries id)
    → c.available_entries.current < stack_size
room_on_stack {c} id v h o =
    omega (arith, v.free_list.within, occupied_pos c.entries id buf_max_count h o)

locked_assert : (e : Entry) → e.in_use ≡ locked → is_locked e ≡ true
locked_assert e h = ground arith

pub delete_entry_runs :
    {c : Clipboard} (id : ℕ)
    → IsValid c
    → id < buf_max_count
    → (c.entries id).in_use ≡ locked
    → delete_entry id c ≡ done (deleted id c)
unfolding delete_entry
delete_entry_runs {c} id v h l =
    let (b, live, size, small) = v.buffers.owned id h (Occupied-locked (c.entries id) l) in
    rw (
      load_within buf_max_count c.entries id h,
      locked_assert (c.entries id) l,
      push_room id c.available_entries (room_on_stack id v h (Occupied-locked (c.entries id) l)),
      free_live (c.entries id).buffer c.heap b live,
      store_within buf_max_count c.entries id (record (c.entries id) { in_use = empty }) h,
    )

pub deleted-IsValid :
    {c : Clipboard} (id : ℕ)
    → IsValid c
    → id < buf_max_count
    → (c.entries id).in_use ≡ locked
    → IsValid (deleted id c)
deleted-IsValid {c} id v h l = record {
  free_list = FreeList-give v.free_list id (record (c.entries id) { in_use = empty }) h o refl;
  buffers = Buffers-drop v.buffers id (record (c.entries id) { in_use = empty }) h o refl;
  one_lock =
      OneLock-unlocked c.entries v.one_lock id (record (c.entries id) { in_use = empty }) (λ e. cc);
}
  where
    o : Occupied (c.entries id)
    o = Occupied-locked (c.entries id) l

-- The message with the text of `id` in it; the rest of its buffer stays.
abbrev pub message_of : ℕ → List ℕ → GetMsg → Clipboard → GetMsg
message_of id text msg c = record {
  buffer_len = (c.entries id).buffer_len;
  decompressed_len = (c.entries id).decompressed_len;
  buffer = text ++ drop (c.entries id).buffer_len msg.buffer;
}

take_entry_runs :
    {c : Clipboard} (id : ℕ) (text : List ℕ) (msg : GetMsg)
    → IsValid c
    → length msg.buffer ≡ entry_len_limit
    → id < buf_max_count
    → (c.entries id).in_use ≡ locked
    → c.heap (c.entries id).buffer ≡ some text
    → length text ≡ (c.entries id).buffer_len
    → (c.entries id).buffer_len ≤ entry_len_limit
    → take_entry id msg c ≡ done (message_of id text msg c, deleted id c)
unfolding take_entry
take_entry_runs {c} id text msg v room h l live size small = rw (
  load_within buf_max_count c.entries id h,
  block_at_live (c.entries id).buffer c.heap text live,
  memcpy_source msg.buffer text (c.entries id).buffer_len size (omega arith),
  delete_entry_runs id v h l,
)

-- On a valid state `do_clipboard_get` never faults. If the process holds a lock, it returns OK with the
-- text of the locked entry, whose slot and block are free afterwards; if not, it returns -1 and
-- nothing changes. Both leave a valid state.
pub do_clipboard_get_lem :
    {c : Clipboard} (msg : GetMsg) (pid : ℕ)
    → IsValid c
    → length msg.buffer ≡ entry_len_limit
    → ((id : ℕ) × (text : List ℕ) × (id < buf_max_count)
        × LockedBy pid (c.entries id)
        × (c.heap (c.entries id).buffer ≡ some text)
        × (length text ≡ (c.entries id).buffer_len)
        × (do_clipboard_get msg pid c ≡ done (ok, message_of id text msg c, deleted id c))
        × IsValid (deleted id c))
      ⊎ (((i : ℕ) → i < buf_max_count → ¬ LockedBy pid (c.entries i))
          × (do_clipboard_get msg pid c ≡ done (minus_one, msg, c)))
unfolding do_clipboard_get
do_clipboard_get_lem {c} msg pid v room = elim (get_lock_id_lem pid c) [
  | inl (id, found, low, h, l, first) ↦
      let (text, live, size, small) = v.buffers.owned id h (Occupied-locked (c.entries id) l.0) in
      inl (
        id,
        text,
        h,
        l,
        live,
        size,
        rw (found, do_clipboard_get, take_entry_runs id text msg v room h l.0 live size small),
        deleted-IsValid id v h l.0,
      )
  | inr (missing, none_held) ↦
      inr (λ i h. none_held i (omega arith) h, rw (missing, do_clipboard_get))
]
