-- ===== src/Clipboard/View/Fits.antt =====
-- The texts of the store fit the messages.
use clipboard.Prelude.{ℕ, ◌≤◌, ◌<◌, ◌≡◌, refl, arith, some, none, List, length}
use clipboard.Memory.{Heap}
use clipboard.Protocol.{entry_len_limit, buf_max_count}
use clipboard.Clipboard.{Clipboard, Entry, Slot, empty, used, locked}
use clipboard.Clipboard.Invariant.{IsValid, Occupied, Holds}
use clipboard.Clipboard.View.{Item, view, view_entry, item_of, text_of}

text_length :
    (h : Heap) (e : Entry) (b : List ℕ) (it : Item)
    → h e.buffer ≡ some b
    → length b ≡ e.buffer_len
    → e.buffer_len ≤ entry_len_limit
    → it.text ≡ text_of (h e.buffer)
    → length it.text ≤ entry_len_limit
text_length h e b it live size small text_is = rw (text_is, live) (omega arith)

fits_entry :
    (h : Heap) (e : Entry) (s : Slot) (it : Item)
    → e.in_use ≡ s
    → (Occupied e → Holds h e)
    → view_entry h e s ≡ some it
    → length it.text ≤ entry_len_limit
fits_entry h e empty it is_s holds seen = cc
fits_entry h e used it is_s holds seen =
    let (b, live, size, small) = holds (λ em. cc (em, is_s)) in
    text_length h e b it live size small (text_is seen)
  where
    text_is : some (item_of h e none) ≡ some it → it.text ≡ text_of (h e.buffer)
    text_is e' = cc
fits_entry h e locked it is_s holds seen =
    let (b, live, size, small) = holds (λ em. cc (em, is_s)) in
    text_length h e b it live size small (text_is seen)
  where
    text_is : some (item_of h e (some e.locking_pid)) ≡ some it → it.text ≡ text_of (h e.buffer)
    text_is e' = cc

-- A text in the store of a valid state fits a message.
pub text_fits :
    {c : Clipboard} (id : ℕ) (it : Item)
    → IsValid c
    → id < buf_max_count
    → view c id ≡ some it
    → length it.text ≤ entry_len_limit
text_fits {c} id it v l seen =
    fits_entry c.heap (c.entries id) (c.entries id).in_use it refl (v.buffers.owned id l) seen
