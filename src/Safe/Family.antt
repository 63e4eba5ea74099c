-- ===== src/Safe/Family.antt =====
-- copy_safely and paste_safely with the driver and the process manager.
use clipboard.Prelude.{
  ℕ, ◌^◌, ◌≤◌, ◌<◌, ◌≡◌, false, some, List, drop, length, pos, done, Returns, is_negative,
}
use clipboard.Memory.{Allocator}
use clipboard.Protocol.{entry_len_limit}
use clipboard.Clipboard.Invariant.{IsValid}
use clipboard.Compress.Roundtrip.{ShortRuns}
use clipboard.Cipher.{max_size, mode_cipher, cipher}
use clipboard.Cipher.Key.{IsKey}
use clipboard.Cipher.Roundtrip.{AreLetters}
use clipboard.Libc.{Os, o_rdwr, o_wronly}
use clipboard.Session.{Device}
use clipboard.Safe.{copy_safely, paste_safely}
use clipboard.Safe.Zeros.{Ends}
use clipboard.Safe.Paste.{padded}
use clipboard.Session.Family.{Manager, Tabled, Family, Family-Permitted}
use clipboard.Session.Paste.{asked}
use clipboard.Safe.Whole.{safe_copy_paste}

module _ {W : Type 0} (os : Os W) (pm : Manager os) (a : Allocator) (dev : Device os a) where
  -- A process calls copy_safely with a text of letters of at most 1024 bytes, and a key of digits and
  -- letters, not empty and of at most 1024 characters, where no character stands 26 times in a row
  -- once the text is ciphered. The driver's state is valid, memory has room, the device opens, and
  -- the call returns a number `id` other than 0 and the length `len` of what it sent. Then a process
  -- that is the first or its descendant, in a system `v` where the driver's state is as the copy left
  -- it, calls paste_safely with that number and the same key: its pid is below 2^30, the process
  -- table is well formed when the process manager is asked, the device opens, its buffer has room for
  -- the text, its local of 1024 bytes has a zero behind the first `len` bytes (or `len` is the
  -- buffer's length), and the local length has an address of 32 bits that is not below the text's
  -- length. It gets exactly the text at the front of its buffer, with zeros behind it, and 0 as the
  -- result; the driver's state stays valid.
  pub descendant_pastes_safely :
      (junk key text tmp buffer : List ℕ) (id len address buffer_len : ℕ) (w w' v : W)
      → IsKey key
      → 1 ≤ length key
      → length key ≤ max_size
      → AreLetters text
      → length text ≤ max_size
      → ((out : List ℕ) → cipher mode_cipher text key ≡ done (0, out) → ShortRuns out)
      → is_negative (os.open_clipboard o_wronly w).0 ≡ false
      → length junk ≡ entry_len_limit
      → os.getpid w < 2 ^ 31
      → IsValid (dev.clip w)
      → ((n : ℕ) → n ≤ length text → (p : ℕ) × (a.place (dev.clip w).heap n ≡ some p))
      → copy_safely os junk text key w ≡ done (pos id, len, w')
      → 0 < id
      → dev.clip v ≡ dev.clip w'
      → is_negative (os.open_clipboard o_rdwr v).0 ≡ false
      → os.getpid v < 2 ^ 30
      → Tabled os pm (asked os a dev id v)
      → Family os pm (os.getpid w) (os.getpid v) (asked os a dev id v)
      → length text ≤ address
      → address < 2 ^ 32
      → length tmp ≡ max_size
      → Ends len (drop len tmp) buffer_len
      → length text ≤ buffer_len
      → buffer_len ≤ length buffer
      → Returns
          (paste_safely os address tmp id buffer buffer_len key v)
          λ y. (y.0 ≡ 0) × (y.1 ≡ padded text buffer buffer_len) × IsValid (dev.clip y.2)
  descendant_pastes_safely junk key text tmp buffer id len address buffer_len w w' v is_key pos_key
        key_fits letters fits runs opens whole small valid placed got some_id same opens' small'
        tabled family far word tmp_size ends text_fits room =
      safe_copy_paste os a dev junk key text tmp buffer id len address buffer_len w w' v is_key
        pos_key key_fits letters fits runs opens whole small valid placed got some_id same opens'
        small' (Family-Permitted os pm a dev (os.getpid w) (os.getpid v) id v tabled family) far
        word tmp_size ends text_fits room
