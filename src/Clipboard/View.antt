-- ===== src/Clipboard/View.antt =====
-- The clipboard as its clients see it: a store of texts by number, each with the process that wrote
-- it and the process, if any, that is about to take it. Blocks, stack and slot states are forgotten.
pub mod Changes
pub mod Refine
pub mod Count
pub mod Fits
use clipboard.Prelude.{
  ℕ, ◌≡◌, Bool, true, false, ◌==◌, if◌then◌else◌, leb, Option, none, some, List, [], ℤ, pos,
  minus_one, update, length, take,
}
use clipboard.Memory.{Heap}
use clipboard.Protocol.{SetMsg}
use clipboard.Clipboard.{Entry, Slot, empty, used, locked, Clipboard, ok}

pub record Item : Type 0 where
  pub text : List ℕ
  pub decompressed_len : ℕ
  pub owner : ℕ
  pub holder : Option ℕ

abbrev pub Store : Type 0
Store = ℕ → Option Item

abbrev pub text_of : Option (List ℕ) → List ℕ
text_of none = []
text_of (some b) = b

abbrev pub item_of : Heap → Entry → Option ℕ → Item
item_of h e holder = record {
  text = text_of (h e.buffer);
  decompressed_len = e.decompressed_len;
  owner = e.source_pid;
  holder = holder;
}

abbrev pub view_entry : Heap → Entry → Slot → Option Item
view_entry h e empty = none
view_entry h e used = some (item_of h e none)
view_entry h e locked = some (item_of h e (some e.locking_pid))

abbrev pub view : Clipboard → Store
view c id = view_entry c.heap (c.entries id) (c.entries id).in_use

-- The text of a set message, owned by its sender and held by nobody.
abbrev pub sent_item : SetMsg → Item
sent_item msg = record {
  text = take msg.buffer_len msg.buffer;
  decompressed_len = msg.decompressed_len;
  owner = msg.pid;
  holder = none;
}

-- What a process holds is given up.
abbrev pub give_up : ℕ → Option Item → Option Item
give_up pid none = none
give_up pid (some it) = elim it.holder [
  | none ↦ some it
  | some q ↦ if q == pid then some (record it { holder = none }) else some it
]

abbrev pub release : ℕ → Store → Store
release pid s i = give_up pid (s i)

-- Whether a process with a buffer of this length may hold the item.
abbrev pub is_free_for : ℕ → Option Item → Bool
is_free_for buffer_len none = false
is_free_for buffer_len (some it) = elim it.holder [
  | none ↦ leb it.decompressed_len buffer_len
  | some q ↦ false
]

abbrev pub hold_item : ℕ → Option Item → Option Item
hold_item pid none = none
hold_item pid (some it) = some (record it { holder = some pid })

abbrev pub hold : ℕ → ℕ → Store → Store
hold id pid s = update s id (hold_item pid (s id))
