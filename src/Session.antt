-- ===== src/Session.antt =====
-- The C library and the driver together: what a process gets that copies or pastes. Between the two
-- stand VFS and libchardriver, as an interface.
pub mod Fetch
pub mod Lock
pub mod Paste
pub mod Refused
pub mod Copy
pub mod Whole
pub mod Family
pub mod Updated
use clipboard.Prelude.{
  ℕ, ◌^◌, ◌<◌, ◌≡◌, Bool, true, false, ℤ, Option, none, some, List, [], length, is_negative, done,
}
use clipboard.Memory.{Allocator}
use clipboard.Protocol.{GetMsg, entry_len_limit}
use clipboard.Clipboard.{Clipboard, ReadResult, ok, clipboard_read, clipboard_write}
use clipboard.Pm.CallNr.{pm_checkancestor}
use clipboard.Libc.{Access, Os}

-- A copy to or from the caller that succeeds.
abbrev pub accept : List ℕ → ℤ
accept bytes = ok

abbrev pub brings : List ℕ → ℕ → ℤ × List ℕ
brings bytes size = (ok, bytes)

abbrev pub sent_bytes : Option (List ℕ) → List ℕ
sent_bytes none = []
sent_bytes (some bytes) = bytes

-- How the system calls on /dev/clipboard reach the driver, whose state is `clip`. A descriptor that
-- open gives stays open until it is closed. A read of 1 to 2^31 - 1 bytes, or a write of at least one,
-- calls the driver with that size, and returns what the driver returns; no other call concerns it.
-- `local_msg` is what stands on the driver's stack when it is called.
pub record Device {W : Type 0} (os : Os W) (a : Allocator) : Type 0 where
  pub clip : W → Clipboard
  pub is_open : ℤ → W → Bool
  pub local_msg : W → GetMsg
  pub length-local_msg : (w : W) → length (local_msg w).buffer ≡ entry_len_limit
  pub open_gives :
      (m : Access) (w : W)
      → is_negative (os.open_clipboard m w).0 ≡ false
      → is_open (os.open_clipboard m w).0 (os.open_clipboard m w).1 ≡ true
  pub clip-open : (m : Access) (w : W) → clip (os.open_clipboard m w).1 ≡ clip w
  pub getpid-open : (m : Access) (w : W) → os.getpid (os.open_clipboard m w).1 ≡ os.getpid w
  pub read_reaches :
      (fd : ℤ) (size : ℕ) (w : W) (r : ReadResult)
      → is_open fd w ≡ true
      → 0 < size
      → size < 2 ^ 31
      → clipboard_read accept (local_msg w) size (clip w) ≡ done r
      → ((os.read fd size w).0 ≡ r.ret)
        × ((os.read fd size w).1 ≡ sent_bytes r.sent)
        × (clip (os.read fd size w).2 ≡ r.after)
        × (is_open fd (os.read fd size w).2 ≡ true)
        × (os.getpid (os.read fd size w).2 ≡ os.getpid w)
  pub write_reaches :
      (fd : ℤ) (bytes : List ℕ) (w : W) (ret : ℤ) (c : Clipboard)
      → is_open fd w ≡ true
      → 0 < length bytes
      → clipboard_write a (brings bytes) (length bytes) (clip w) ≡ done (ret, c)
      → ((os.write fd bytes w).0 ≡ ret)
        × (clip (os.write fd bytes w).1 ≡ c)
        × (is_open fd (os.write fd bytes w).1 ≡ true)
        × (os.getpid (os.write fd bytes w).1 ≡ os.getpid w)
  pub syscall_aside :
      (fd : ℤ) (p q : ℕ) (w : W)
      → is_open fd w ≡ true
      → (clip (os.syscall pm_checkancestor p q w).1 ≡ clip w)
        × (is_open fd (os.syscall pm_checkancestor p q w).1 ≡ true)
        × (os.getpid (os.syscall pm_checkancestor p q w).1 ≡ os.getpid w)
  pub clip-close : (fd : ℤ) (w : W) → clip (os.close fd w).1 ≡ clip w
