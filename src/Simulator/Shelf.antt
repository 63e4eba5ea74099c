-- ===== src/Simulator/Shelf.antt =====
-- What clients see of the simulator: a shelf of texts under their numbers, and how many numbers are
-- left.
use clipboard.Prelude.{
  ℕ, ◌<◌, ◌≡◌, refl, ◌⊎◌, inl, inr, true, false, Option, none, some, List, take, length,
}
use clipboard.Memory.{Heap}
use clipboard.Simulator.{Entry, Slot, empty, used, Clipboard, WriteMsg, buf_max_count, busy}
use clipboard.Simulator.Invariant.{IsValid}

pub record Text : Type 0 where
  pub bytes : List ℕ
  pub decompressed_len : ℕ

abbrev pub view_entry : Heap → Entry → Slot → Option Text
view_entry h e empty = none
view_entry h e used = elim (h e.buffer) [
  | none ↦ none
  | some b ↦ some (record { bytes = b; decompressed_len = e.decompressed_len })
]

-- The text under each number.
abbrev pub view : Clipboard → ℕ → Option Text
view c i = view_entry c.heap (c.entries i) (c.entries i).in_use

-- How many numbers are left.
abbrev pub left : Clipboard → ℕ
left c = c.available_entries.current

abbrev pub sent_text : WriteMsg → Text
sent_text m = record { bytes = take m.buffer_len m.buffer; decompressed_len = m.decompressed_len }

Slot-cases : (s : Slot) → (s ≡ empty) ⊎ (s ≡ used)
Slot-cases empty = inl refl
Slot-cases used = inr refl

pub view_live :
    (h : Heap) (e : Entry) (b : List ℕ)
    → e.in_use ≡ used
    → h e.buffer ≡ some b
    → view_entry h e e.in_use ≡ some (record { bytes = b; decompressed_len = e.decompressed_len })
view_live h e b us live = rw (us, live, view_entry)

-- What a slot shows, and why.
pub view_cases :
    (c : Clipboard) (i : ℕ)
    → IsValid c
    → i < buf_max_count
    → ((busy (c.entries i) ≡ false) × (view c i ≡ none))
      ⊎ ((b : List ℕ) × (busy (c.entries i) ≡ true)
          × (c.heap (c.entries i).buffer ≡ some b)
          × (length b ≡ (c.entries i).buffer_len)
          × (view c i
              ≡ some (record { bytes = b; decompressed_len = (c.entries i).decompressed_len })))
view_cases c i v l = elim (Slot-cases (c.entries i).in_use) [
  | inl em ↦ inl (rw em, rw em)
  | inr us ↦
      let (b, live, size) = v.buffers.owned i l (rw us) in
      inr (b, rw us, live, size, view_live c.heap (c.entries i) b us live)
]

-- The blocks of the other slots are as they were.
pub view_keep :
    (h h' : Heap) (e : Entry)
    → (busy e ≡ true → h' e.buffer ≡ h e.buffer)
    → view_entry h' e e.in_use ≡ view_entry h e e.in_use
view_keep h h' e same = elim (Slot-cases e.in_use) [
  | inl em ↦ rw em
  | inr us ↦ rw (us, same (rw us), view_entry)
]
