-- ===== src/Safe/Paste.antt =====
-- paste_safely.
use clipboard.Prelude.{
  zero, suc, ℕ, ◌≤◌, ◌≡◌, refl, inl, inr, arith, le→leb, List, ◌++◌, drop, length, replicate, done,
  take-append_self, drop-append_self, length-append, length-replicate,
}
use clipboard.Compress.{decompress}
use clipboard.Cipher.{mode_decipher, cipher}
use clipboard.Libc.{Os, paste_from_clipboard}
use clipboard.Safe.{fmemset, paste_safely}
use clipboard.Safe.Zeros.{NoZeros, Ends, slen_lem}

-- The buffer with a text at its front, and zeros up to `buffer_len`.
abbrev pub padded : List ℕ → List ℕ → ℕ → List ℕ
padded text buffer buffer_len =
    text ++ drop (length text) (replicate buffer_len 0 ++ drop buffer_len buffer)

-- What follows a shorter text in it starts with a zero.
pub padded-Ends :
    (n : ℕ) (buffer : List ℕ) (buffer_len : ℕ)
    → n ≤ buffer_len
    → Ends n (drop n (replicate buffer_len 0 ++ drop buffer_len buffer)) buffer_len
padded-Ends n buffer buffer_len l = go n buffer_len (drop buffer_len buffer) l
  where
    go : (n m : ℕ) (rest : List ℕ) → n ≤ m → Ends n (drop n (replicate m 0 ++ rest)) m
    go n zero rest l = inl (omega arith)
    go zero (suc m) rest l = inr (replicate m 0 ++ rest, refl)
    go (suc n) (suc m) rest l = elim (go n m rest (omega arith)) [
      | inl e ↦ inl (omega arith)
      | inr s ↦ inr s
    ]

module _ {W : Type 0} (os : Os W) (address : ℕ) (tmp : List ℕ) (id : ℕ) where
  -- Once a text is pasted over the local, followed by `rest`.
  pub unpacks :
      (text rest plain out buffer key : List ℕ) (buffer_len : ℕ) (w w1 : W)
      → paste_from_clipboard os id tmp address w ≡ done (0, text ++ rest, w1)
      → NoZeros text
      → length text ≤ buffer_len
      → Ends (length text) rest buffer_len
      → decompress text ≡ plain
      → NoZeros plain
      → length plain ≤ buffer_len
      → buffer_len ≤ length buffer
      → cipher mode_decipher plain key ≡ done (0, out)
      → length out ≡ length plain
      → paste_safely os address tmp id buffer buffer_len key w
        ≡ done (0, padded out buffer buffer_len, w1)
  unfolding paste_safely fmemset
  unpacks text rest plain out buffer key buffer_len w w1 pastes z l ends plain_is plain_z plain_l
        room deciphers len =
      rw (
        pastes,
        slen_lem text rest buffer_len z l ends,
        le→leb buffer_len (length buffer) room,
        take-append_self (length text) text rest refl,
        plain_is,
        le→leb (length plain) (length (replicate buffer_len 0 ++ drop buffer_len buffer))
            (inside room plain_l),
        slen_lem plain (drop (length plain) (replicate buffer_len 0 ++ drop buffer_len buffer))
            buffer_len plain_z plain_l (padded-Ends (length plain) buffer buffer_len plain_l),
        take-append_self (length plain) plain
            (drop (length plain) (replicate buffer_len 0 ++ drop buffer_len buffer)) refl,
        deciphers,
        drop-append_self (length plain) plain
            (drop (length plain) (replicate buffer_len 0 ++ drop buffer_len buffer)) refl,
        len,
      )
    where
      inside :
          buffer_len ≤ length buffer
          → length plain ≤ buffer_len
          → length plain ≤ length (replicate buffer_len 0 ++ drop buffer_len buffer)
      inside room l = omega (
        arith,
        length-append (replicate buffer_len 0) (drop buffer_len buffer),
        length-replicate {A = ℕ} buffer_len 0,
      )
