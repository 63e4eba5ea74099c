-- ===== src/Clipboard/Requests.antt =====
-- clipboard_read and clipboard_write.
use clipboard.Prelude.{
  ℕ, zero, suc, ◌^◌, ◌<◌, ◌≡◌, refl, ◌≢◌, ◌⊎◌, inl, inr, Bool, arith, update, ◌==◌, if◌then◌else◌,
  done, ◌||◌, load_within, ℤ, pos, negsuc, minus_one, none, some, List, ◌++◌, drop, length, to_int,
  to_int_small, Bool-cases,
}
use clipboard.Memory.{Allocator, Heap}
use clipboard.Protocol.{
  LockMsg, GetMsg, SetMsg, lock_size, set_size, buf_max_count, entry_len_limit, encode_id,
  encode_pid, get_bytes, lock_bytes, set_bytes,
}
use clipboard.Protocol.Codec.{query_roundtrip, LockFits, SetFits, lock_roundtrip, set_roundtrip}
use clipboard.Clipboard.{
  Entry, Slot, empty, used, locked, Clipboard, ok, clipboard_read, clipboard_write, answer_get,
  dispatch, dispatch_copied, do_clipboard_lock, do_clipboard_set,
}
use clipboard.Clipboard.Invariant.{IsValid}
use clipboard.Clipboard.View.{Item, view, view_entry}
use clipboard.Clipboard.View.Refine.{◌≈◌, get_refines}

owner_of :
    (h : Heap) (e : Entry) (s : Slot) (it : Item)
    → view_entry h e s ≡ some it
    → e.source_pid ≡ it.owner
owner_of h e empty it seen = cc
owner_of h e used it seen = cc
owner_of h e locked it seen = cc

-- A read whose size encodes a number returns the pid of the process that wrote the item under it,
-- copies nothing and changes nothing.
pub read_owner :
    (copy_to : List ℕ → ℤ) (msg : GetMsg) (id : ℕ) (c : Clipboard) (it : Item)
    → id < buf_max_count
    → view c id ≡ some it
    → clipboard_read copy_to msg (encode_id id) c
      ≡ done (record { ret = to_int it.owner; sent = none; after = c })
unfolding clipboard_read
read_owner copy_to msg id c it h seen =
    let (query, correct, decoded, _, _) = query_roundtrip id 0 h (omega arith) in
    rw (
      query,
      correct,
      decoded,
      load_within buf_max_count c.entries id h,
      owner_of c.heap (c.entries id) (c.entries id).in_use it seen,
    )

-- A read whose size encodes a pid: as `do_clipboard_get`, except for what is returned. If the process
-- holds an item, its message goes to sys_safecopyto, whose code is returned, and the item is gone
-- whatever that code is. If it holds none, the read returns 1, copies nothing and changes nothing.
pub read_text :
    (copy_to : List ℕ → ℤ) {c : Clipboard} (msg : GetMsg) (pid : ℕ)
    → IsValid c
    → length msg.buffer ≡ entry_len_limit
    → pid < 2 ^ 31
    → ((id : ℕ) × (it : Item) × (msg' : GetMsg) × (d : Clipboard) × (id < buf_max_count)
        × (view c id ≡ some it)
        × (it.holder ≡ some pid)
        × (clipboard_read copy_to msg (encode_pid pid) c
            ≡ done (record {
              ret = copy_to (get_bytes msg');
              sent = some (get_bytes msg');
              after = d;
            }))
        × (msg'.buffer_len ≡ length it.text)
        × (msg'.decompressed_len ≡ it.decompressed_len)
        × (msg'.buffer ≡ it.text ++ drop (length it.text) msg.buffer)
        × IsValid d
        × (view d ≈ update (view c) id none))
      ⊎ (((i : ℕ) (it : Item) → i < buf_max_count → view c i ≡ some it → it.holder ≢ some pid)
          × (clipboard_read copy_to msg (encode_pid pid) c
              ≡ done (record { ret = pos 1; sent = none; after = c })))
unfolding clipboard_read answer_get
read_text copy_to {c} msg pid v room small =
    let (_, _, _, not_query, decoded) = query_roundtrip 0 pid (omega arith) small in
    elim (get_refines msg pid v room) [
      | inl (id, it, msg', d, h, seen, held, runs, el, dl, eb, v', after) ↦ inl (
        id,
        it,
        msg',
        d,
        h,
        seen,
        held,
        rw (not_query, decoded, to_int_small pid small, runs),
        el,
        dl,
        eb,
        v',
        after,
      )
      | inr (none_held, runs) ↦
          inr (none_held, rw (not_query, decoded, to_int_small pid small, runs))
    ]

dispatch_failed :
    (a : Allocator) (size : ℕ) (code : ℤ) (bytes : List ℕ) (c : Clipboard)
    → code ≢ ok
    → dispatch_copied a size (code, bytes) c ≡ done (code, c)
unfolding dispatch_copied
dispatch_failed a size (pos zero) bytes c bad = absurd (bad refl)
dispatch_failed a size (pos (suc n)) bytes c bad = refl
dispatch_failed a size (negsuc n) bytes c bad = refl

-- A write of LOCK_SIZE bytes that are a lock message is the lock request of that message.
pub write_lock :
    (a : Allocator) (copy_from : ℕ → ℤ × List ℕ) (c : Clipboard) (m : LockMsg)
    → LockFits m
    → copy_from lock_size ≡ (ok, lock_bytes m)
    → clipboard_write a copy_from lock_size c ≡ do_clipboard_lock m c
unfolding clipboard_write dispatch_copied dispatch
write_lock a copy_from c m fits copied = rw (copied, dispatch_copied, (lock_roundtrip m fits).0)

-- A write of SET_SIZE bytes that are a set message is the set request of that message.
pub write_set :
    (a : Allocator) (copy_from : ℕ → ℤ × List ℕ) (c : Clipboard) (m : SetMsg)
    → SetFits m
    → copy_from set_size ≡ (ok, set_bytes m)
    → clipboard_write a copy_from set_size c ≡ do_clipboard_set a m c
unfolding clipboard_write dispatch_copied dispatch
write_set a copy_from c m fits copied = rw (copied, dispatch_copied, (set_roundtrip m fits).0)

abbrev pub is_message_size : ℕ → Bool
is_message_size size = size == lock_size || size == set_size

-- Where the bytes cannot be copied from the caller, a write changes nothing; it returns the code of the
-- copy for the size of a message, and -1 for any other size.
pub write_refused :
    (a : Allocator) (copy_from : ℕ → ℤ × List ℕ) (c : Clipboard) (size : ℕ) (code : ℤ)
    (bytes : List ℕ)
    → copy_from size ≡ (code, bytes)
    → code ≢ ok
    → clipboard_write a copy_from size c
      ≡ done (if is_message_size size then code else minus_one, c)
unfolding clipboard_write
write_refused a copy_from c size code bytes copied bad = elim (Bool-cases (is_message_size size)) [
  | inl right ↦ rw (right, copied, dispatch_failed a size code bytes c bad)
  | inr wrong ↦ rw wrong
]
