-- ===== src/Safe/Whole.antt =====
-- copy_safely and paste_safely, one after the other, over the driver.
use clipboard.Prelude.{
  ℕ, ap₂, ◌^◌, ◌≤◌, ◌<◌, ◌≡◌, refl, ◌≢◌, ◌⊎◌, inl, inr, arith, false, le→ltb_false, some, List, [],
  ◌∷◌, ◌++◌, take, drop, length, ℤ, pos, to_int, to_uint, to_int_small, to_int_minus, minus_one,
  done, Returns, is_negative, take-append_self, length-append, done_injective, ap, sym, subst, ◌∙◌,
  update_self,
}
use clipboard.Memory.{Allocator}
use clipboard.Protocol.{entry_len_limit, buf_max_count}
use clipboard.Clipboard.Invariant.{IsValid}
use clipboard.Clipboard.View.{view}
use clipboard.Compress.{compress}
use clipboard.Compress.Roundtrip.{ShortRuns, compress_roundtrip}
use clipboard.Compress.Size.{compress_size}
use clipboard.Compress.Place.Same.{compress_at_same}
use clipboard.Compress.Length.{length-compress}
use clipboard.Cipher.{max_size, mode_cipher, cipher}
use clipboard.Cipher.Key.{IsKey, IsLower, IsUpper}
use clipboard.Cipher.Roundtrip.{AreLetters, cipher_roundtrip}
use clipboard.Libc.{Os, o_rdwr, o_wronly, paste_from_clipboard}
use clipboard.Session.{Device}
use clipboard.Session.Copy.{copied, Stored, copy_lem}
use clipboard.Session.Paste.{Permitted, paste_lem}
use clipboard.Safe.{copy_safely, paste_safely}
use clipboard.Safe.Copy.{AreLetters-NoDigits}
use clipboard.Safe.Zeros.{NoZeros, Ends, compress-NoZeros}
use clipboard.Safe.Paste.{padded, unpacks}

AreLetters-NoZeros : (buffer : List ℕ) → AreLetters buffer → NoZeros buffer
AreLetters-NoZeros [] a = tt
AreLetters-NoZeros (c ∷ buffer) (l, a) = (letter l, AreLetters-NoZeros buffer a)
  where
    letter : IsLower c ⊎ IsUpper c → c ≢ 0
    letter (inl (l, u)) e = omega arith
    letter (inr (l, u)) e = omega arith

refused_int : (x id : ℕ) → x ≡ to_uint minus_one → to_int x ≢ pos id
refused_int x id e same = cc (rw (e, to_int_minus) at same)

pos_injective : {m n : ℕ} → pos m ≡ pos n → m ≡ n
pos_injective e = cc

module _ {W : Type 0} (os : Os W) (a : Allocator) (dev : Device os a) where
  -- What a safe copy leaves in the store, under the number it returns.
  safely_stored :
      (junk key buffer tmp : List ℕ) (id len : ℕ) (w w' : W)
      → cipher mode_cipher buffer key ≡ done (0, tmp)
      → length tmp ≡ length buffer
      → length buffer ≤ max_size
      → is_negative (os.open_clipboard o_wronly w).0 ≡ false
      → length junk ≡ entry_len_limit
      → os.getpid w < 2 ^ 31
      → IsValid (dev.clip w)
      → ((n : ℕ) → n ≤ length buffer → (p : ℕ) × (a.place (dev.clip w).heap n ≡ some p))
      → copy_safely os junk buffer key w ≡ done (pos id, len, w')
      → (len ≡ length (compress tmp))
        × (id < buf_max_count)
        × IsValid (dev.clip w')
        × (view (dev.clip w') id ≡ some (copied (os.getpid w) (compress tmp)))
  unfolding copy_safely
  safely_stored junk key buffer tmp id len w w' ciphers same_len fits opens whole small valid room
        got =
      let short : length (compress tmp) ≤ length buffer =
        omega (arith, length-compress tmp, same_len) in
      let (p, placed) = room (length (compress tmp)) short in
      let (x, copies, stored) =
        copy_lem os a dev junk (compress tmp ++ drop (length (compress tmp)) tmp)
          (length (compress tmp)) p w opens whole (omega arith)
          (omega (arith, length-append (compress tmp) (drop (length (compress tmp)) tmp)))
          (omega arith) valid placed in
      let all : take (length (compress tmp)) (compress tmp ++ drop (length (compress tmp)) tmp)
          ≡ compress tmp =
        take-append_self (length (compress tmp)) (compress tmp) (drop (length (compress tmp)) tmp)
          refl in
      let answer : (to_int x.0, length (compress tmp), x.1) ≡ (pos id, len, w') = done_injective (
        sym (rw (le→ltb_false max_size (length buffer) fits, ciphers, compress_at_same tmp, copies))
        ∙ got) in
      let numbered : to_int x.0 ≡ pos id = ap (λ (y : ℤ × ℕ × W). y.0) answer in
      let sized : length (compress tmp) ≡ len = ap (λ (y : ℤ × ℕ × W). y.1) answer in
      let after_is : x.1 ≡ w' = ap (λ (y : ℤ × ℕ × W). y.2) answer in
      elim (subst (λ t. Stored os a dev t w x) all stored) [
        | inl (refused, _, _) ↦ absurd (refused_int x.0 id refused numbered)
        | inr (l, valid', free, after) ↦
            let same : x.0 ≡ id = pos_injective (sym (to_int_small x.0 (omega arith)) ∙ numbered) in
            (
              sym sized,
              omega arith,
              subst (λ y. IsValid (dev.clip y)) after_is valid',
              ap (λ y. view (dev.clip y) id) (sym after_is)
                  ∙ ap (view (dev.clip x.1)) (sym same)
                  ∙ after x.0 l
                  ∙ update_self (view (dev.clip w)) x.0
                      (some (copied (os.getpid w) (compress tmp))),
            )
      ]

  -- A process calls copy_safely with a text of letters of at most 1024 bytes, and a key of digits and
  -- letters, not empty and of at most 1024 characters, where no character stands 26 times in a row
  -- once the text is ciphered. The driver's state is valid, memory has room, the device opens, and
  -- the call returns a number `id` other than 0 and the length `len` of what it sent. Then another
  -- process, in a system `v` where the driver's state is as the copy left it, calls paste_safely with
  -- that number and the same key: its pid is below 2^30, the process manager permits it, the device
  -- opens, its buffer has room for the text, its local of 1024 bytes has a zero behind the first
  -- `len` bytes (or `len` is the buffer's length), and the local length has an address of 32 bits
  -- that is not below the text's length. It gets exactly the text at the front of its buffer, with
  -- zeros behind it, and 0 as the result; the driver's state stays valid.
  pub safe_copy_paste :
      (junk key text tmp buffer : List ℕ) (id len address buffer_len : ℕ) (w w' v : W)
      → IsKey key
      → 1 ≤ length key
      → length key ≤ max_size
      → AreLetters text
      → length text ≤ max_size
      → ((out : List ℕ) → cipher mode_cipher text key ≡ done (0, out) → ShortRuns out)
      → is_negative (os.open_clipboard o_wronly w).0 ≡ false
      → length junk ≡ entry_len_limit
      → os.getpid w < 2 ^ 31
      → IsValid (dev.clip w)
      → ((n : ℕ) → n ≤ length text → (p : ℕ) × (a.place (dev.clip w).heap n ≡ some p))
      → copy_safely os junk text key w ≡ done (pos id, len, w')
      → 0 < id
      → dev.clip v ≡ dev.clip w'
      → is_negative (os.open_clipboard o_rdwr v).0 ≡ false
      → os.getpid v < 2 ^ 30
      → Permitted os a dev (os.getpid w) (os.getpid v) id v
      → length text ≤ address
      → address < 2 ^ 32
      → length tmp ≡ max_size
      → Ends len (drop len tmp) buffer_len
      → length text ≤ buffer_len
      → buffer_len ≤ length buffer
      → Returns
          (paste_safely os address tmp id buffer buffer_len key v)
          λ y. (y.0 ≡ 0) × (y.1 ≡ padded text buffer buffer_len) × IsValid (dev.clip y.2)
  safe_copy_paste junk key text tmp buffer id len address buffer_len w w' v is_key pos_key key_fits
        letters fits runs opens whole small valid placed got some_id same opens' small' permitted
        far word tmp_size ends text_fits room =
      let ((code, out), ciphers, (zero_code, out_letters, out_len, back)) =
        cipher_roundtrip key text is_key pos_key key_fits letters in
      let ciphers' : cipher mode_cipher text key ≡ done (0, out) =
        ciphers ∙ ap (λ (k : ℕ). done (k, out)) zero_code in
      let digits = AreLetters-NoDigits out out_letters in
      let (len_is, l, valid', seen) =
        safely_stored junk key text out id len w w' ciphers' out_len fits opens whole small valid
          placed got in
      let short : length (compress out) ≤ length text =
        omega (arith, length-compress out, out_len) in
      let (z, pastes, (zero_ret, text_is, valid'', _)) =
        paste_lem os a dev id (copied (os.getpid w) (compress out)) tmp address v opens' some_id l
          small' word small (subst IsValid (sym same) valid') (ap (λ c. view c id) same ∙ seen)
          (refl, omega (arith, compress_size out digits (omega arith), out_len, far)) permitted
          (omega arith) in
      let pastes' : paste_from_clipboard os id tmp address v
          ≡ done (0, compress out ++ drop (length (compress out)) tmp, z.2) =
        pastes ∙ ap₂ (λ (k : ℕ) (b : List ℕ). done (k, b, z.2)) zero_ret text_is in
      (
        (0, padded text buffer buffer_len, z.2),
        unpacks os address tmp id (compress out) (drop (length (compress out)) tmp) out text buffer
            key buffer_len v z.2 pastes' (compress-NoZeros out (AreLetters-NoZeros out out_letters))
            (omega arith) (subst (λ n. Ends n (drop n tmp) buffer_len) len_is ends)
            (compress_roundtrip out digits (runs out ciphers')) (AreLetters-NoZeros out out_letters)
            (omega arith) room back (sym out_len),
        (refl, refl, valid''),
      )
