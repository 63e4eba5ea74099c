-- ===== src/LiveUpdate.antt =====
-- The live update of the clipboard driver in bw386389.c
-- (new/usr/src/minix/drivers/examples/clipboard): the state goes from the old instance to the new one
-- through the data store of MINIX, which is a parameter.
pub mod Save
pub mod Slots
pub mod Restore
pub mod Whole
use clipboard.Prelude.{
  ◌>>=◌, ◌>>◌, ℕ, zero, suc, ◌+◌, ◌-◌, ◌*◌, ◌/◌, ◌%◌, ◌&&◌, ◌==◌, ◌≡◌, Bool, true, false, leb,
  if◌then◌else◌, Option, none, some, List, ◌++◌, take, drop, length, ℤ, Run, done, undefined,
  defined_if, load, store, update,
}
use clipboard.Memory.{Heap, Allocator, malloc, free, block_at}
use clipboard.Stack.{stack_size}
use clipboard.Protocol.{buf_max_count}
use clipboard.Clipboard.{Entry, empty, used, locked, Clipboard, clipboard_init, ok}

-- The names "clipboard" and "buf_" with a number.
pub data Key : Type 0 where
  clipboard_key : Key
  buf_key : ℕ → Key

-- What is published: the bytes of CLIPBOARD, kept as its parts, of which the last is the stack's raw
-- pointer, or the bytes of a text.
pub data Blob : Type 0 where
  image : (ℕ → Entry) → (ℕ → ℕ) → ℕ → Blob
  text : List ℕ → Blob

-- ds_publish_mem with DSF_OVERWRITE, with the code that it returns, ds_retrieve_mem and ds_delete_mem
-- on a state `D` of the store: a name whose publication returned OK gives what was published; other
-- names are left alone.
pub record DataStore (D : Type 0) : Type 0 where
  pub publish : Key → Blob → D → ℤ × D
  pub retrieve : Key → D → Option Blob
  pub delete : Key → D → D
  pub retrieve-publish_self :
      (k : Key) (b : Blob) (d : D) → (publish k b d).0 ≡ ok → retrieve k (publish k b d).1 ≡ some b
  pub retrieve-publish_ne :
      (k l : Key) (b : Blob) (d : D) → ¬ (l ≡ k) → retrieve l (publish k b d).1 ≡ retrieve l d
  pub retrieve-delete_ne : (k l : Key) (d : D) → ¬ (l ≡ k) → retrieve l (delete k d) ≡ retrieve l d

abbrev pub in_slot : Entry → Bool
in_slot e = elim e.in_use [ empty ↦ false | used ↦ true | locked ↦ true ]

-- The kinds of start that the system tells the driver of.
pub data InitType : Type 0 where
  sef_init_fresh sef_init_lu sef_init_restart : InitType

-- What a retrieval stores over a block of `n` bytes.
abbrev pub bytes_of : Option Blob → List ℕ → ℕ → List ℕ
bytes_of none old n = old
bytes_of (some (image es value current)) old n = old
bytes_of (some (text b)) old n = take n b ++ drop (length (take n b)) old

-- The address of an element of the stack's array, which has elements of four bytes from `base` on, and
-- the element, if any, to which an address points; the end of the array counts as one.
abbrev pub address_of : ℕ → ℕ → ℕ
address_of base k = base + 4 * k

unfoldable pub element_at : ℕ → ℕ → Option ℕ
element_at base p =
    if leb base p && leb (p - base) (4 * stack_size) && (p - base) % 4 == 0
    then some ((p - base) / 4)
    else none

-- The bytes of CLIPBOARD where the stack's array is at `base`.
abbrev pub image_at : ℕ → Clipboard → Blob
image_at base c =
    image c.entries c.available_entries.value (address_of base c.available_entries.current)

-- CLIPBOARD with the retrieved bytes, where its own array is at `base`. The pointer is retrieved as
-- it was in the other process. If it does not point into the array here, or is the null pointer of a
-- static object, which a failed retrieval leaves, then the program goes wrong when it uses it; the
-- model stops at once, as undefined.
abbrev pub image_of : ℕ → Option Blob → Clipboard → Run Clipboard
image_of base none c = undefined
image_of base (some (image es value p)) c = elim (element_at base p) [
  | none ↦ undefined
  | some k ↦
      done (record c { entries = es; available_entries = record { value = value; current = k } })
]
image_of base (some (text b)) c = undefined

module _ {D : Type 0} (ds : DataStore D) where
  -- The body of the loop of `sef_cb_lu_state_save` for an entry in use. The code of ds_publish_mem is
  -- dropped, here and for CLIPBOARD.
  unfoldable pub save_entry : ℕ → Entry → D → Heap → Run (D × Heap)
  save_entry i e d h = do
    b ← block_at e.buffer h
    defined_if (leb e.buffer_len (length b))
    h' ← free e.buffer h
    done ((ds.publish (buf_key i) (text (take e.buffer_len b)) d).1, h')

  -- The loop, with `n` rounds left, at slot `i`.
  unfoldable pub save_entries : ℕ → ℕ → (ℕ → Entry) → D → Heap → Run (D × Heap)
  save_entries zero i entries d h = done (d, h)
  save_entries (suc n) i entries d h = do
    e ← load buf_max_count entries i
    x ← (if in_slot e then save_entry i e d h else done (d, h))
    save_entries n (i + 1) entries x.0 x.1

  -- The old instance ends behind it; the heap that it leaves is given too.
  unfoldable pub sef_cb_lu_state_save : ℕ → Clipboard → D → Run (D × Heap)
  sef_cb_lu_state_save base c d =
      save_entries buf_max_count 0 c.entries (ds.publish clipboard_key (image_at base c) d).1 c.heap

  -- The body of the loop of `lu_state_restore` for an entry in use. A failed malloc is not tested;
  -- what happens then is left open.
  unfoldable pub restore_entry : Allocator → ℕ → Clipboard → D → Run (Clipboard × D)
  restore_entry a i c d = elim (malloc a (c.entries i).buffer_len c.heap) [
    | none ↦ undefined
    | some x ↦ do
      let (p, h) = x
      old ← block_at p h
      entries ← store buf_max_count c.entries i (record (c.entries i) { buffer = p })
      done (
        record c {
          entries = entries;
          heap =
              update h p (some (bytes_of (ds.retrieve (buf_key i) d) old (c.entries i).buffer_len));
        },
        ds.delete (buf_key i) d,
      )
  ]

  unfoldable pub restore_entries : Allocator → ℕ → ℕ → Clipboard → D → Run (Clipboard × D)
  restore_entries a zero i c d = done (c, d)
  restore_entries a (suc n) i c d = do
    e ← load buf_max_count c.entries i
    x ← (if in_slot e then restore_entry a i c d else done (c, d))
    restore_entries a n (i + 1) x.0 x.1

  -- In an instance whose array of the stack is at `base`.
  unfoldable pub lu_state_restore : Allocator → ℕ → Clipboard → D → Run (Clipboard × D)
  lu_state_restore a base c d = do
    c' ← image_of base (ds.retrieve clipboard_key d) c
    restore_entries a buf_max_count 0 c' (ds.delete clipboard_key d)

  -- A restart returns OK and leaves CLIPBOARD as it is in the new process, whose stack has a null
  -- pointer: an index cannot say so, and the model stops, as undefined, where the program does so at
  -- the first use of the pointer.
  unfoldable pub sef_cb_init : Allocator → ℕ → InitType → Clipboard → D → Run (ℤ × Clipboard × D)
  sef_cb_init a base sef_init_fresh c d = do c' ← clipboard_init c; done (ok, c', d)
  sef_cb_init a base sef_init_lu c d = do x ← lu_state_restore a base c d; done (ok, x.0, x.1)
  sef_cb_init a base sef_init_restart c d = undefined
