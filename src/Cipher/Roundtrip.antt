-- ===== src/Cipher/Roundtrip.antt =====
-- cipher and its inverse.
use clipboard.Prelude.{
  ℕ, ◌+◌, ◌-◌, ◌%◌, ◌≤◌, ◌<◌, ◌≡◌, refl, ◌⊎◌, inl, inr, arith, lt→ltb, le→ltb_false, lt→leb_false,
  le→leb, List, [], ◌∷◌, length, elem_or, done, Returns, ◌∙◌,
}
use clipboard.Compress.{alphabet_size}
use clipboard.Cipher.{
  max_size, mode_cipher, mode_decipher, normalize_key, char_base, rem_alphabet, shift_char,
  cipher_from, cipher,
}
use clipboard.Cipher.Key.{
  IsLower, IsUpper, IsKey, AreShifts, elem_or-AreShifts, isdigit_letter, normalize_key-AreShifts,
  normalize_key_pos,
}

abbrev pub AreLetters : List ℕ → Type 0
AreLetters [] = Unit {0}
AreLetters (c ∷ buffer) = (IsLower c ⊎ IsUpper c) × AreLetters buffer

base_lower : (c : ℕ) → IsLower c → char_base c ≡ 97
unfolding char_base
base_lower c (l, u) = rw (isdigit_letter c (omega arith), le→leb 97 c l, le→leb c 122 u)

base_upper : (c : ℕ) → IsUpper c → char_base c ≡ 65
unfolding char_base
base_upper c (l, u) =
    rw (
      isdigit_letter c (omega arith),
      lt→leb_false 97 c (omega arith),
      le→leb 65 c l,
      le→leb c 90 u,
    )

rem_small : (b : ℕ) → b < 128 → rem_alphabet b ≡ b % alphabet_size
unfolding rem_alphabet
rem_small b l = rw (lt→ltb b 128 l)

-- What the two modes do to a letter, whose place in the alphabet is c - base.
shift_forth :
    (base k c : ℕ)
    → base ≤ c
    → c < base + alphabet_size
    → k < alphabet_size
    → base < 128
    → shift_char mode_cipher base k c ≡ base + (c - base + k) % alphabet_size
unfolding shift_char
shift_forth base k c l u h b =
    rw (rem_small (((c + 256 - base) % 256 + k) % 256) (omega arith)) (omega arith)

shift_back :
    (base k c : ℕ)
    → base ≤ c
    → c < base + alphabet_size
    → k < alphabet_size
    → base < 128
    → shift_char mode_decipher base k c ≡ base + (c - base + alphabet_size - k) % alphabet_size
unfolding shift_char
shift_back base k c l u h b =
    rw (rem_small (((c + 256 - base) % 256 + (alphabet_size + 256 - k)) % 256) (omega arith))
      (omega arith)

shift_roundtrip :
    (base k c : ℕ)
    → base ≤ c
    → c < base + alphabet_size
    → k < alphabet_size
    → base < 128
    → shift_char mode_decipher base k (shift_char mode_cipher base k c) ≡ c
shift_roundtrip base k c l u h b = rw (shift_forth base k c l u h b) (
    shift_back base k (base + (c - base + k) % alphabet_size) (omega arith) (omega arith) h b
    ∙ omega arith)

-- A letter becomes one of the same case, and comes back.
letter_roundtrip :
    (k c : ℕ)
    → k < alphabet_size
    → IsLower c ⊎ IsUpper c
    → (IsLower (shift_char mode_cipher (char_base c) k c)
        ⊎ IsUpper (shift_char mode_cipher (char_base c) k c))
      × (shift_char mode_decipher
            (char_base (shift_char mode_cipher (char_base c) k c))
            k
            (shift_char mode_cipher (char_base c) k c)
          ≡ c)
letter_roundtrip k c h (inl (l, u)) = rw (base_lower c (l, u)) (
  inl low,
  rw (base_lower (shift_char mode_cipher 97 k c) low)
      (shift_roundtrip 97 k c l (omega arith) h (omega arith)),
)
  where
    low : IsLower (shift_char mode_cipher 97 k c)
    low = rw (shift_forth 97 k c l (omega arith) h (omega arith)) (omega arith, omega arith)
letter_roundtrip k c h (inr (l, u)) = rw (base_upper c (l, u)) (
  inr up,
  rw (base_upper (shift_char mode_cipher 65 k c) up)
      (shift_roundtrip 65 k c l (omega arith) h (omega arith)),
)
  where
    up : IsUpper (shift_char mode_cipher 65 k c)
    up = rw (shift_forth 65 k c l (omega arith) h (omega arith)) (omega arith, omega arith)

cipher_from_lem :
    (key : List ℕ) (k : ℕ) (buffer : List ℕ)
    → AreShifts key
    → k < length key
    → AreLetters buffer
    → Returns (cipher_from mode_cipher key k buffer) λ out.
      AreLetters out
      × (length out ≡ length buffer)
      × (cipher_from mode_decipher key k out ≡ done buffer)
unfolding cipher_from
cipher_from_lem key k [] s l a = ([], refl, (tt, refl, refl))
cipher_from_lem key k (c ∷ buffer) s l (ac, a) =
    let (out, e, (letters, len, back)) =
      cipher_from_lem key ((k + 1) % length key) buffer s (omega arith) a in
    let (letter, same) = letter_roundtrip (elem_or key k) c (elem_or-AreShifts key k s) ac in
    (
      shift_char mode_cipher (char_base c) (elem_or key k) c ∷ out,
      rw (lt→ltb k (length key) l, e),
      ((letter, letters), omega arith, rw (lt→ltb k (length key) l, back, same)),
    )

-- With a key of digits and letters, not empty and of at most 1024 characters, a text of letters is
-- ciphered to one of letters, of the same length, that the same key deciphers to the text.
pub cipher_roundtrip :
    (key buffer : List ℕ)
    → IsKey key
    → 1 ≤ length key
    → length key ≤ max_size
    → AreLetters buffer
    → Returns (cipher mode_cipher buffer key) λ x.
      (x.0 ≡ 0)
      × AreLetters x.1
      × (length x.1 ≡ length buffer)
      × (cipher mode_decipher x.1 key ≡ done (0, buffer))
unfolding cipher
cipher_roundtrip key buffer h l u a =
    let (out, e, (letters, len, back)) =
      cipher_from_lem (normalize_key key) 0 buffer (normalize_key-AreShifts key h)
        (normalize_key_pos key l) a in
    (
      (0, out),
      rw (le→ltb_false max_size (length key) u, e),
      (refl, letters, len, rw (le→ltb_false max_size (length key) u, back)),
    )
