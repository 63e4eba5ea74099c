-- ===== src/Clipboard.antt =====
-- bw386389.h and bw386389.c of new/usr/src/minix/drivers/examples/clipboard: the clipboard driver.
-- Each function takes the driver's state and returns it beside its result.
pub mod Invariant
pub mod Search
pub mod Delete
pub mod Fill
pub mod Lock
pub mod View
pub mod Init
pub mod Requests
pub mod Reach
pub mod Log
pub mod Others
pub mod Turns
use clipboard.Prelude.{
  ℕ, zero, suc, ◌+◌, ◌-◌, ◌%◌, ◌^◌, ◌≡◌, Bool, true, false, not, ◌&&◌, ◌||◌, ◌==◌, ltb, leb,
  if◌then◌else◌, Option, none, some, List, [], ◌∷◌, ℤ, pos, negsuc, minus_one, is_negative, to_int,
  Run, done, abort, undefined, ◌>>=◌, ◌>>◌, assert, load, store, update, u32_mod,
}
use clipboard.Memory.{Heap, Allocator, malloc, free, block_at, memcpy}
use clipboard.Stack.{Stack}
use clipboard.Stack
use clipboard.Protocol.{
  LockMsg, GetMsg, SetMsg, lock_size, get_size, set_size, buf_max_count, is_pid_query,
  is_correct_id, decode_id, decode_pid, lock_of_bytes, set_of_bytes, get_bytes,
}

-- The states EMPTY, USED and LOCKED of a slot.
pub data Slot : Type 0 where
  empty used locked : Slot

-- A pid_t is kept as its 32-bit pattern, and `buffer` as the address of its block.
pub record Entry : Type 0 where
  pub buffer_len : ℕ
  pub decompressed_len : ℕ
  pub source_pid : ℕ
  pub locking_pid : ℕ
  pub buffer : ℕ
  pub in_use : Slot

-- The static CLIPBOARD, and the heap that its entries point into.
pub record Clipboard : Type 0 where
  pub entries : ℕ → Entry
  pub available_entries : Stack
  pub heap : Heap

abbrev pub busy : Entry → Bool
busy e = elim e.in_use [ empty ↦ false | used ↦ true | locked ↦ false ]

abbrev pub is_locked : Entry → Bool
is_locked e = elim e.in_use [ empty ↦ false | used ↦ false | locked ↦ true ]

abbrev pub lock_by : ℕ → Entry → Entry
lock_by pid e = record e { in_use = locked; locking_pid = pid }

abbrev pub unlock : Entry → Entry
unlock e = record e { in_use = used }

-- OK
abbrev pub ok : ℤ
ok = pos 0

unfoldable pub delete_entry : ℕ → Clipboard → Run Clipboard
delete_entry id c = do
  e ← load buf_max_count c.entries id
  assert (is_locked e)
  available ← Stack.push id c.available_entries
  heap ← free e.buffer c.heap
  entries ← store buf_max_count c.entries id (record e { in_use = empty })
  done (record { entries = entries; available_entries = available; heap = heap })

unfoldable pub clipboard_open : Clipboard → ℤ × Clipboard
clipboard_open c = (ok, c)

unfoldable pub clipboard_close : Clipboard → ℤ × Clipboard
clipboard_close c = (ok, c)

-- The loop of `get_lock_id`, with `n` rounds left, at slot `id`.
unfoldable pub find_lock : ℕ → ℕ → ℕ → Clipboard → ℤ
find_lock zero id pid c = minus_one
find_lock (suc n) id pid c =
    let rest = find_lock n (id + 1) pid c in
    if (c.entries id).locking_pid == pid && is_locked (c.entries id) then pos id else rest

unfoldable pub get_lock_id : ℕ → Clipboard → ℤ
get_lock_id pid c = find_lock buf_max_count 0 pid c

-- The null pointer that a failed malloc gives is copied to without a test.
unfoldable pub do_clipboard_real_set : Allocator → ℕ → SetMsg → Clipboard → Run Clipboard
do_clipboard_real_set a id msg c = elim (malloc a msg.buffer_len c.heap) [
  | none ↦ undefined
  | some (p, heap) ↦ do
    old ← block_at p heap
    new ← memcpy old msg.buffer msg.buffer_len
    e ← load buf_max_count c.entries id
    entries ← store buf_max_count c.entries id (record e {
      buffer = p;
      buffer_len = msg.buffer_len;
      decompressed_len = msg.decompressed_len;
      source_pid = msg.pid;
      in_use = used;
    })
    done (record c { entries = entries; heap = update heap p (some new) })
]

unfoldable pub do_clipboard_set : Allocator → SetMsg → Clipboard → Run (ℤ × Clipboard)
do_clipboard_set a msg c = if Stack.is_empty c.available_entries then done (minus_one, c) else (do
  id ← Stack.top c.available_entries
  available ← Stack.pop c.available_entries
  e ← load buf_max_count c.entries id
  let c' = record c { available_entries = available }
  if busy e || is_locked e
      then done (minus_one, c')
      else (do c'' ← do_clipboard_real_set a id msg c'; done (pos id, c'')))

-- The first step of `do_clipboard_lock`: the lock that the process holds already is given up.
unfoldable pub unlock_held : ℕ → Clipboard → Clipboard
unlock_held pid c = elim (get_lock_id pid c) [
  | pos id ↦ record c { entries = update c.entries id (unlock (c.entries id)) }
  | negsuc _ ↦ c
]

-- Its other steps, on the slot that the message names.
unfoldable pub lock_slot : LockMsg → Clipboard → Run (ℤ × Clipboard)
lock_slot msg c = do
  e ← load buf_max_count c.entries msg.id
  if is_locked e || not (busy e)
      then done (minus_one, c)
      else if ltb msg.buffer_len e.decompressed_len
      then done (minus_one, c)
      else (do
        entries ← store buf_max_count c.entries msg.id (lock_by msg.pid e)
        done (ok, record c { entries = entries }))

unfoldable pub do_clipboard_lock : LockMsg → Clipboard → Run (ℤ × Clipboard)
do_clipboard_lock msg c = lock_slot msg (unlock_held msg.pid c)

-- The lock found, the entry is copied to the message and deleted.
unfoldable pub take_entry : ℕ → GetMsg → Clipboard → Run (GetMsg × Clipboard)
take_entry id msg c = do
  e ← load buf_max_count c.entries id
  bytes ← block_at e.buffer c.heap
  buffer ← memcpy msg.buffer bytes e.buffer_len
  c' ← delete_entry id c
  done (
    record { buffer_len = e.buffer_len; decompressed_len = e.decompressed_len; buffer = buffer },
    c',
  )

unfoldable pub do_clipboard_get : GetMsg → ℕ → Clipboard → Run (ℤ × GetMsg × Clipboard)
do_clipboard_get msg pid c = elim (get_lock_id pid c) [
  | negsuc _ ↦ done (minus_one, msg, c)
  | pos id ↦ do (msg', c') ← take_entry id msg c; done (ok, msg', c')
]

-- What a read returns, the bytes that it hands to sys_safecopyto, and the state that it leaves.
pub record ReadResult : Type 0 where
  pub ret : ℤ
  pub sent : Option (List ℕ)
  pub after : Clipboard

-- `copy_to` is sys_safecopyto on the caller's grant: it returns its code. `msg` is the
-- uninitialised local. On a failed get `ret` is the value of the comparison with OK, which is 1.
unfoldable pub answer_get : (List ℕ → ℤ) → ℤ × GetMsg × Clipboard → ReadResult
answer_get copy_to (pos zero, msg, c) = record {
  ret = copy_to (get_bytes msg);
  sent = some (get_bytes msg);
  after = c;
}
answer_get copy_to (pos (suc n), msg, c) = record { ret = pos 1; sent = none; after = c }
answer_get copy_to (negsuc n, msg, c) = record { ret = pos 1; sent = none; after = c }

-- Both `return ret` of a code other than OK and `return OK` give back the code of the copy.
unfoldable pub clipboard_read : (List ℕ → ℤ) → GetMsg → ℕ → Clipboard → Run ReadResult
clipboard_read copy_to msg size c =
    if is_pid_query size
    then (if not (is_correct_id size)
        then done (record { ret = minus_one; sent = none; after = c })
        else (do
          e ← load buf_max_count c.entries (decode_id size)
          done (record { ret = to_int e.source_pid; sent = none; after = c })))
    else if is_negative (to_int (decode_pid size))
    then done (record { ret = minus_one; sent = none; after = c })
    else (do got ← do_clipboard_get msg (decode_pid size) c; done (answer_get copy_to got))

-- The message once it is copied, by its size.
unfoldable pub dispatch : Allocator → ℕ → List ℕ → Clipboard → Run (ℤ × Clipboard)
dispatch a size bytes c =
    if size == lock_size
    then do_clipboard_lock (lock_of_bytes bytes) c
    else if size == set_size
    then do_clipboard_set a (set_of_bytes bytes) c
    else done (minus_one, c)

-- sys_safecopyfrom gave its code and the bytes that it brought; any code but OK is returned.
unfoldable pub dispatch_copied : Allocator → ℕ → ℤ × List ℕ → Clipboard → Run (ℤ × Clipboard)
dispatch_copied a size (pos zero, bytes) c = dispatch a size bytes c
dispatch_copied a size (pos (suc n), bytes) c = done (pos (suc n), c)
dispatch_copied a size (negsuc n, bytes) c = done (negsuc n, c)

-- `copy_from` is sys_safecopyfrom on the caller's grant.
unfoldable pub clipboard_write : Allocator → (ℕ → ℤ × List ℕ) → ℕ → Clipboard → Run (ℤ × Clipboard)
clipboard_write a copy_from size c = do
  assert (not (lock_size == get_size))
  if size == lock_size || size == set_size
      then dispatch_copied a size (copy_from size) c
      else done (minus_one, c)

-- The loop of `clipboard_init`, with `n` rounds left, at slot `i`.
unfoldable pub empty_slots : ℕ → ℕ → (ℕ → Entry) → Run (ℕ → Entry)
empty_slots zero i entries = done entries
empty_slots (suc n) i entries = do
  e ← load buf_max_count entries i
  entries' ← store buf_max_count entries i (record e { in_use = empty })
  empty_slots n (i + 1) entries'

unfoldable pub clipboard_init : Clipboard → Run Clipboard
clipboard_init c = do
  available ← Stack.init c.available_entries
  entries ← empty_slots buf_max_count 0 c.entries
  done (record c { entries = entries; available_entries = available })

-- The calls of clipboard_tab, each with what the caller's grant does in it.
pub data Request : Type 0 where
  open_device close_device : Request
  read_device : (List ℕ → ℤ) → GetMsg → ℕ → Request
  write_device : (ℕ → ℤ × List ℕ) → ℕ → Request

abbrev pub of_read : ReadResult → ℤ × Clipboard
of_read r = (r.ret, r.after)

unfoldable pub handle : Allocator → Request → Clipboard → Run (ℤ × Clipboard)
handle a open_device c = done (clipboard_open c)
handle a close_device c = done (clipboard_close c)
handle a (read_device copy_to msg size) c = do
  r ← clipboard_read copy_to msg size c
  done (of_read r)
handle a (write_device copy_from size) c = clipboard_write a copy_from size c
