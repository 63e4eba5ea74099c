-- ===== src/Simulator.antt =====
-- clipboard.h, clipboard.c and copy_paste_clipboard.c of test/asm: a clipboard without locks that the
-- tests of compress.asm run on, in their own process. Its stack.h and stack.c are those of the driver
-- but for the name of a type, so they are taken from there; its expected_decompressed_size is that of
-- the C library.
pub mod Invariant
pub mod Shelf
pub mod Write
pub mod Read
pub mod Start
pub mod Runs
pub mod Session
use clipboard.Prelude.{
  ℕ, zero, suc, ◌+◌, ◌≡◌, Bool, true, false, not, ltb, if◌then◌else◌, none, some, List, take, ℤ,
  pos, negsuc, minus_one, to_uint, Run, done, undefined, ◌>>=◌, ◌>>◌, assert, load, store, update,
}
use clipboard.Memory.{Heap, Allocator, malloc, free, block_at, memcpy}
use clipboard.Stack.{Stack}
use clipboard.Stack
use clipboard.Libc.{expected_decompressed_size}

-- BUF_MAX_COUNT
abbrev pub buf_max_count : ℕ
buf_max_count = 100

-- The states EMPTY and USED of a slot.
pub data Slot : Type 0 where
  empty used : Slot

pub record Entry : Type 0 where
  pub buffer_len : ℕ
  pub buffer : ℕ
  pub decompressed_len : ℕ
  pub in_use : Slot

-- CLIPBOARD, and the heap that its entries point into.
pub record Clipboard : Type 0 where
  pub entries : ℕ → Entry
  pub available_entries : Stack
  pub heap : Heap

-- The fields that clipboard_read uses; `buffer` is what stands in the caller's buffer.
pub record ReadMsg : Type 0 where
  pub buffer : List ℕ
  pub buffer_len : ℕ
  pub id : ℕ

pub record WriteMsg : Type 0 where
  pub buffer : List ℕ
  pub buffer_len : ℕ
  pub decompressed_len : ℕ

abbrev pub busy : Entry → Bool
busy e = elim e.in_use [ empty ↦ false | used ↦ true ]

-- The null pointer that a failed malloc gives is copied to without a test.
unfoldable pub use_entry : Allocator → ℕ → List ℕ → ℕ → Clipboard → Run Clipboard
use_entry a id buffer buffer_len c = do
  e ← load buf_max_count c.entries id
  assert (not (busy e))
  elim (malloc a buffer_len c.heap) [
    | none ↦ undefined
    | some (p, heap) ↦ do
      old ← block_at p heap
      new ← memcpy old buffer buffer_len
      entries ←
          store buf_max_count c.entries id
            (record e { buffer = p; buffer_len = buffer_len; in_use = used })
      done (record c { entries = entries; heap = update heap p (some new) })
  ]

-- The number does not go back to the stack.
unfoldable pub delete_entry : ℕ → Clipboard → Run Clipboard
delete_entry id c = do
  e ← load buf_max_count c.entries id
  assert (busy e)
  heap ← free e.buffer c.heap
  entries ← store buf_max_count c.entries id (record e { in_use = empty })
  done (record c { entries = entries; heap = heap })

-- The last step of clipboard_write.
unfoldable pub set_decompressed_len : ℕ → ℕ → Clipboard → Run Clipboard
set_decompressed_len id decompressed_len c = do
  e ← load buf_max_count c.entries id
  entries ← store buf_max_count c.entries id (record e { decompressed_len = decompressed_len })
  done (record c { entries = entries })

unfoldable pub clipboard_write : Allocator → WriteMsg → Clipboard → Run (ℤ × Clipboard)
clipboard_write a m c = if Stack.is_empty c.available_entries then done (minus_one, c) else (do
  id ← Stack.top c.available_entries
  available ← Stack.pop c.available_entries
  let c1 = record c { available_entries = available }
  e ← load buf_max_count c.entries id
  if busy e then done (minus_one, c1) else (do
    c2 ← use_entry a id m.buffer m.buffer_len c1
    c3 ← set_decompressed_len id m.decompressed_len c2
    done (pos id, c3)))

unfoldable pub clipboard_read : ReadMsg → Clipboard → Run (ℤ × ReadMsg × Clipboard)
clipboard_read m c = do
  e ← load buf_max_count c.entries m.id
  if not (busy e)
      then done (minus_one, m, c)
      else if ltb m.buffer_len e.buffer_len
      then done (minus_one, m, c)
      else (do
        bytes ← block_at e.buffer c.heap
        buffer ← memcpy m.buffer bytes e.buffer_len
        c1 ← delete_entry m.id c
        done (pos 0, record m { buffer = buffer }, c1))

-- What the void pointer points to.
pub data Message : Type 0 where
  read_msg : ReadMsg → Message
  write_msg : WriteMsg → Message

-- The call through clipboard_calls. A request below 0 is tested like the others, and is no index; nor
-- is a message of one call one of the other.
unfoldable pub clipboard_ioctl : Allocator → ℤ → Message → Clipboard → Run (ℤ × Message × Clipboard)
clipboard_ioctl a (negsuc n) msg c = undefined
clipboard_ioctl a (pos zero) (read_msg m) c = do
  (ret, m1, c1) ← clipboard_read m c
  done (ret, read_msg m1, c1)
clipboard_ioctl a (pos zero) (write_msg m) c = undefined
clipboard_ioctl a (pos (suc zero)) (read_msg m) c = undefined
clipboard_ioctl a (pos (suc zero)) (write_msg m) c = do
  (ret, c1) ← clipboard_write a m c
  done (ret, write_msg m, c1)
clipboard_ioctl a (pos (suc (suc n))) msg c = done (minus_one, msg, c)

-- The loop of `clipboard_init`, with `n` rounds left, at slot `i`.
unfoldable pub empty_slots : ℕ → ℕ → (ℕ → Entry) → Run (ℕ → Entry)
empty_slots zero i entries = done entries
empty_slots (suc n) i entries = do
  e ← load buf_max_count entries i
  entries1 ← store buf_max_count entries i (record e { in_use = empty })
  empty_slots n (i + 1) entries1

unfoldable pub clipboard_init : Clipboard → Run Clipboard
clipboard_init c = do
  available ← Stack.init c.available_entries
  entries ← empty_slots buf_max_count 0 c.entries
  done (record c { entries = entries; available_entries = available })

unfoldable pub copy_to_clipboard : Allocator → List ℕ → ℕ → Clipboard → Run (ℤ × Clipboard)
copy_to_clipboard a buffer buffer_len c = do
  (ret, _, c1) ←
      clipboard_ioctl a (pos 1)
        (write_msg (record {
          buffer = buffer;
          buffer_len = buffer_len;
          decompressed_len = expected_decompressed_size (take buffer_len buffer);
        }))
        c
  done (ret, c1)

abbrev pub read_back : Message → List ℕ × ℕ
read_back (read_msg m) = (m.buffer, m.buffer_len)
read_back (write_msg m) = (m.buffer, m.buffer_len)

-- The results are the code, the caller's buffer and the new `*buffer_len`.
unfoldable pub paste_from_clipboard :
    Allocator → ℕ → List ℕ → ℕ → Clipboard → Run (ℕ × List ℕ × ℕ × Clipboard)
paste_from_clipboard a id buffer buffer_len c = do
  (ret, msg, c1) ←
      clipboard_ioctl a (pos 0)
        (read_msg (record { buffer = buffer; buffer_len = buffer_len; id = id })) c
  done (to_uint ret, (read_back msg).0, (read_back msg).1, c1)
