-- ===== src/Safe/Copy.antt =====
-- What copy_safely sends.
use clipboard.Prelude.{
  ℕ, ◌^◌, ◌≤◌, ◌<◌, ◌≡◌, refl, ◌⊎◌, inl, inr, arith, false, le→ltb_false, List, [], ◌∷◌, take,
  length, is_negative, to_int, to_uint, done, Returns, take-append_self, length-append, drop, ◌++◌,
  sym, ◌∙◌, ap,
}
use clipboard.Protocol.{SetMsg, entry_len_limit, set_bytes}
use clipboard.Protocol.Codec.{SetFits}
use clipboard.Clipboard.Fill.{IsSound}
use clipboard.Compress.{isdigit, compress, decompress}
use clipboard.Compress.Roundtrip.{NoDigits, ShortRuns, compress_roundtrip}
use clipboard.Compress.Size.{compress_size}
use clipboard.Compress.Place.Same.{compress_at_same}
use clipboard.Compress.Length.{length-compress}
use clipboard.Cipher.{max_size, mode_cipher, mode_decipher, cipher}
use clipboard.Cipher.Key.{IsKey, IsLower, IsUpper, isdigit_letter}
use clipboard.Cipher.Roundtrip.{AreLetters, cipher_roundtrip}
use clipboard.Libc.{Os, o_wronly, set_msg, copy_to_clipboard, expected_decompressed_size}
use clipboard.Libc.Copy.{set_msg_lem}
use clipboard.Safe.{copy_safely}

pub AreLetters-NoDigits : (buffer : List ℕ) → AreLetters buffer → NoDigits buffer
AreLetters-NoDigits [] a = tt
AreLetters-NoDigits (c ∷ buffer) (l, a) = (letter l, AreLetters-NoDigits buffer a)
  where
    letter : IsLower c ⊎ IsUpper c → isdigit c ≡ false
    letter (inl (l, u)) = isdigit_letter c (omega arith)
    letter (inr (l, u)) = isdigit_letter c (omega arith)

module _ {W : Type 0} (os : Os W) (junk : List ℕ) (w : W) where
  -- The device is open: the message is sent, and its answer returned.
  copy_sends :
      (text : List ℕ) (n : ℕ) (m : SetMsg)
      → n ≤ entry_len_limit
      → is_negative (os.open_clipboard o_wronly w).0 ≡ false
      → set_msg os junk text n (os.open_clipboard o_wronly w).1 ≡ done m
      → Returns (copy_to_clipboard os junk text n w) λ x.
        x.0
        ≡ to_uint
            (os.write
              (os.open_clipboard o_wronly w).0
              (set_bytes m)
              (os.open_clipboard o_wronly w).1).0
  unfolding copy_to_clipboard
  copy_sends text n m fits opened sent =
      let (ret, w2) =
        os.write (os.open_clipboard o_wronly w).0 (set_bytes m) (os.open_clipboard o_wronly w).1 in
      (
        (to_uint ret, (os.close (os.open_clipboard o_wronly w).0 w2).1),
        rw (le→ltb_false entry_len_limit n fits, opened, sent),
        refl,
      )

  -- A text of letters, of at most 1024 bytes, with a key of digits and letters, not empty and of at
  -- most 1024 characters, where no character stands 26 times in a row once the text is ciphered; the
  -- caller's pid has 32 bits, and the local message has a buffer of 1024 bytes. If the device opens,
  -- copy_safely sends a message that the driver handles safely, and returns its answer. The message
  -- announces the length of the original text; the text that it carries, decompressed and then
  -- deciphered with the key, is the original.
  pub copy_safely_lem :
      (key buffer : List ℕ)
      → IsKey key
      → 1 ≤ length key
      → length key ≤ max_size
      → AreLetters buffer
      → length buffer ≤ max_size
      → ((tmp : List ℕ) → cipher mode_cipher buffer key ≡ done (0, tmp) → ShortRuns tmp)
      → length junk ≡ entry_len_limit
      → is_negative (os.open_clipboard o_wronly w).0 ≡ false
      → os.getpid (os.open_clipboard o_wronly w).1 < 2 ^ 32
      → Returns (copy_safely os junk buffer key w) λ x.
        (m : SetMsg) × SetFits m
        × IsSound m
        × (x.0
            ≡ to_int (
                to_uint
                  (os.write
                    (os.open_clipboard o_wronly w).0
                    (set_bytes m)
                    (os.open_clipboard o_wronly w).1).0))
        × (m.decompressed_len ≡ length buffer)
        × (x.1 ≡ m.buffer_len)
        × (cipher mode_decipher (decompress (take m.buffer_len m.buffer)) key ≡ done (0, buffer))
  unfolding copy_safely
  copy_safely_lem key buffer is_key pos_key key_fits letters fits runs whole opened pid =
      let ((code, tmp), ciphers, (zero_code, tmp_letters, len, back)) =
        cipher_roundtrip key buffer is_key pos_key key_fits letters in
      let ciphers' : cipher mode_cipher buffer key ≡ done (0, tmp) =
        ciphers ∙ ap (λ (k : ℕ). done (k, tmp)) zero_code in
      let digits = AreLetters-NoDigits tmp tmp_letters in
      let short : length (compress tmp) ≤ entry_len_limit =
        omega (arith, length-compress tmp, len, fits) in
      let (m, sent, (m_fits, sound, m_pid, m_len, m_text, m_size)) =
        set_msg_lem os junk (compress tmp ++ drop (length (compress tmp)) tmp)
          (length (compress tmp)) (os.open_clipboard o_wronly w).1 whole short
          (omega (arith, length-append (compress tmp) (drop (length (compress tmp)) tmp))) pid in
      let (x, copies, answer) =
        copy_sends (compress tmp ++ drop (length (compress tmp)) tmp) (length (compress tmp)) m
          short opened sent in
      let carried : take (length (compress tmp)) (compress tmp ++ drop (length (compress tmp)) tmp)
          ≡ compress tmp =
        take-append_self (length (compress tmp)) (compress tmp) (drop (length (compress tmp)) tmp)
          refl in
      (
        (to_int x.0, length (compress tmp), x.1),
        rw (le→ltb_false max_size (length buffer) fits, ciphers', compress_at_same tmp, copies),
        (
          m,
          m_fits,
          sound,
          ap to_int answer,
          m_size
              ∙ ap expected_decompressed_size carried
              ∙ compress_size tmp digits (omega arith)
              ∙ len,
          sym m_len,
          ap (λ t. cipher mode_decipher (decompress t) key) (m_text ∙ carried)
              ∙ ap (λ t. cipher mode_decipher t key)
                  (compress_roundtrip tmp digits (runs tmp ciphers'))
              ∙ back,
        ),
      )
