-- ===== src/Tests/Text.antt =====
-- The text that clients put on the clipboard.
use clipboard.Prelude.{
  ℕ, zero, suc, ◌<◌, ◌≡◌, refl, inl, inr, arith, List, [], ◌∷◌, ◌++◌, length, replicate, drop,
  length-append, length-replicate, ap, done, Returns,
}
use clipboard.Libc.{expected_decompressed_size}
use clipboard.Compress.{
  alphabet_size, compress, decompress, compress_from, push_char_count, push_int, push_back_digits,
  itoa_inverse,
}
use clipboard.Compress.Roundtrip.{NoDigits, ShortRuns, compress_roundtrip}
use clipboard.Compress.Size.{compress_size}
use clipboard.Compress.Place.{compress_at}
use clipboard.Compress.Place.Same.{compress_at_same}
use clipboard.Cipher.{mode_cipher, mode_decipher, cipher}
use clipboard.Cipher.Key.{IsKey}
use clipboard.Cipher.Roundtrip.{AreLetters, cipher_roundtrip}

-- "aaaaaaaaaaaab"
abbrev twelve_a : List ℕ
twelve_a = replicate 12 97 ++ 98 ∷ []

-- "a12b"
compress_twelve : compress twelve_a ≡ 97 ∷ 49 ∷ 50 ∷ 98 ∷ []
unfolding compress compress_from push_char_count push_int push_back_digits itoa_inverse
compress_twelve = refl

a_run-NoDigits : (n : ℕ) → NoDigits (replicate n 97 ++ 98 ∷ [])
a_run-NoDigits zero = (refl, tt)
a_run-NoDigits (suc n) = (refl, a_run-NoDigits n)

pub short_text : (src : List ℕ) → length src < alphabet_size → ShortRuns src
short_text src l p q c e = omega (
  arith,
  ap length e,
  length-append (p ++ replicate alphabet_size c) q,
  length-append p (replicate alphabet_size c),
  length-replicate alphabet_size c,
)

compress_roundtrip_example : decompress (compress twelve_a) ≡ twelve_a
compress_roundtrip_example =
    compress_roundtrip twelve_a (a_run-NoDigits 12) (short_text twelve_a (omega arith))

compress_size_example : expected_decompressed_size (compress twelve_a) ≡ 13
compress_size_example = compress_size twelve_a (a_run-NoDigits 12) (omega arith)

-- "Zoo" and the key "b25"
abbrev pub zoo : List ℕ
zoo = 90 ∷ 111 ∷ 111 ∷ []

abbrev pub key_b25 : List ℕ
key_b25 = 98 ∷ 50 ∷ 53 ∷ []

pub key_b25-IsKey : IsKey key_b25
key_b25-IsKey = (
  inr (inl (omega arith, omega arith)),
  (inl (omega arith, omega arith), (inl (omega arith, omega arith), tt)),
)

pub zoo-AreLetters : AreLetters zoo
zoo-AreLetters = (
  inr (omega arith, omega arith),
  (inl (omega arith, omega arith), (inl (omega arith, omega arith), tt)),
)

cipher_roundtrip_example : Returns (cipher mode_cipher zoo key_b25) λ x.
    (x.0 ≡ 0)
    × AreLetters x.1
    × (length x.1 ≡ length zoo)
    × (cipher mode_decipher x.1 key_b25 ≡ done (0, zoo))
cipher_roundtrip_example =
    cipher_roundtrip key_b25 zoo key_b25-IsKey (omega arith) (omega arith) zoo-AreLetters

compress_at_same_example :
    compress_at twelve_a (length twelve_a)
    ≡ (compress twelve_a ++ drop (length (compress twelve_a)) twelve_a, length (compress twelve_a))
compress_at_same_example = compress_at_same twelve_a
