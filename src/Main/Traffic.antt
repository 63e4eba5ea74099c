-- ===== src/Main/Traffic.antt =====
-- What goes into the driver and comes out of it, over any number of requests.
pub mod Writes
pub mod Reads
pub mod Whole
pub mod Updated
pub mod Capacity
use clipboard.Prelude.{
  ℕ, zero, suc, ◌+◌, ◌≡◌, Bool, ◌==◌, if◌then◌else◌, Option, none, some, List, [], ◌∷◌, ◌++◌, take,
  ℤ, pos, negsuc, Run, done, ◌>>=◌,
}
use clipboard.Memory.{Allocator}
use clipboard.Protocol.{set_size, set_of_bytes, get_of_bytes}
use clipboard.Clipboard.{
  Clipboard, Request, open_device, close_device, read_device, write_device, clipboard_open,
  clipboard_close, clipboard_read, clipboard_write,
}
use clipboard.Clipboard.View.{view, sent_item}
use clipboard.Clipboard.View.Count.{tally, stored}

-- The text that a write put into the store, if it did: the bytes were those of a set message, and a
-- number was returned.
abbrev pub accepted : ℕ → ℤ × List ℕ → ℤ → List (List ℕ)
accepted size (pos zero, bytes) (pos id) =
    if size == set_size then (sent_item (set_of_bytes bytes)).text ∷ [] else []
accepted size (pos zero, bytes) (negsuc n) = []
accepted size (pos (suc n), bytes) ret = []
accepted size (negsuc n, bytes) ret = []

-- The text in the message that a read handed to sys_safecopyto, if it did.
abbrev pub given : Option (List ℕ) → List (List ℕ)
given none = []
given (some bytes) = let answer = get_of_bytes bytes in take answer.buffer_len answer.buffer ∷ []

-- A request, as `handle` answers it, with the texts that go in and out.
abbrev pub Passed : Type 0
Passed = List (List ℕ) × List (List ℕ) × Clipboard

unfoldable pub observe : Allocator → Request → Clipboard → Run Passed
observe a open_device c = done ([], [], (clipboard_open c).1)
observe a close_device c = done ([], [], (clipboard_close c).1)
observe a (read_device copy_to msg size) c = do
  r ← clipboard_read copy_to msg size c
  done ([], given r.sent, r.after)
observe a (write_device copy_from size) c = do
  x ← clipboard_write a copy_from size c
  done (accepted size (copy_from size) x.0, [], x.1)

-- One request after the other.
unfoldable pub observe_all : Allocator → List Request → Clipboard → Run Passed
observe_all a [] c = done ([], [], c)
observe_all a (q ∷ qs) c = do
  x ← observe a q c
  y ← observe_all a qs x.2
  done (x.0 ++ y.0, x.1 ++ y.1, y.2)

module _ (counts : List ℕ → Bool) where
  -- What goes in is what comes out, and what the store has more.
  abbrev pub Balanced : Clipboard → Passed → Type 0
  Balanced c x =
      tally counts x.0 + stored counts (view c) ≡ tally counts x.1 + stored counts (view x.2)
