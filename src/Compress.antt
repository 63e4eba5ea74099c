-- ===== src/Compress.antt =====
-- compress.h and compress.c of test: the text that a client puts on the clipboard is ciphered and then
-- its runs are counted. A char is kept as its pattern of 8 bits; a text that a function writes behind
-- `*pos` is the list of what it has written.
pub mod Runs
pub mod Roundtrip
pub mod Size
pub mod Length
pub mod Place
use clipboard.Prelude.{
  ℕ, zero, suc, ◌+◌, ◌-◌, ◌*◌, ◌/◌, ◌%◌, ◌≡◌, Bool, true, false, ◌&&◌, ◌==◌, ltb, leb,
  if◌then◌else◌, List, [], ◌∷◌, ◌++◌, u32_mod,
}

-- ALPHABET_SIZE
abbrev pub alphabet_size : ℕ
alphabet_size = 26

abbrev pub isdigit : ℕ → Bool
isdigit x = leb 48 x && leb x 57

abbrev pub islower : ℕ → Bool
islower x = leb 97 x && leb x 122

abbrev pub isupper : ℕ → Bool
isupper x = leb 65 x && leb x 90

abbrev pub push_char : List ℕ → ℕ → List ℕ
push_char dst c = dst ++ c ∷ []

-- The loop, with the buffer's contents as the result; a val of 32 bits takes at most 10 rounds.
unfoldable pub itoa_inverse : ℕ → ℕ → List ℕ
itoa_inverse zero val = []
itoa_inverse (suc n) val =
    let rest = itoa_inverse n (val / 10) in if ltb 0 val then (48 + val % 10) ∷ rest else []

-- The loop from the last digit down.
unfoldable pub push_back_digits : List ℕ → List ℕ → List ℕ
push_back_digits buffer [] = buffer
push_back_digits buffer (d ∷ tmp) = push_char (push_back_digits buffer tmp) d

-- `tmp` has 16 bytes.
unfoldable pub push_int : List ℕ → ℕ → List ℕ
push_int buffer val = push_back_digits buffer (itoa_inverse 16 val)

unfoldable pub push_char_count : List ℕ → ℕ → ℕ → List ℕ
push_char_count dst c count =
    if count == 0
    then dst
    else if count == 1
    then push_char dst c
    else push_int (push_char dst c) count

-- The loop over what is left of src, and the call behind it.
unfoldable pub compress_from : List ℕ → List ℕ → ℕ → ℕ → List ℕ
compress_from [] dst last_char count = push_char_count dst last_char count
compress_from (c ∷ src) dst last_char count =
    let same = compress_from src dst last_char ((count + 1) % u32_mod) in
    let other = compress_from src (push_char_count dst last_char count) c 1 in
    if c == last_char then same else other

-- The list is src[0..src_len), and the result dst[0..pos).
unfoldable pub compress : List ℕ → List ℕ
compress src = compress_from src [] 0 0

unfoldable pub push_decompressed : List ℕ → ℕ → ℕ → List ℕ
push_decompressed dst last_char zero = dst
push_decompressed dst last_char (suc zero) = dst
push_decompressed dst last_char (suc (suc n)) =
    push_decompressed (push_char dst last_char) last_char (suc n)

-- The locals of `decompress`.
pub record Decompressor : Type 0 where
  pub dst : List ℕ
  pub count : ℕ
  pub last_char : ℕ
  pub parsing : Bool

abbrev pub flush : Decompressor → List ℕ
flush s = push_decompressed s.dst s.last_char s.count

-- One character that is no digit. At pos 0 nothing is pushed before it.
abbrev pub take_char : ℕ → Decompressor → Decompressor
take_char c s = elim s.dst [
  | [] ↦ record s { dst = c ∷ []; last_char = c }
  | (x ∷ xs) ↦ record { dst = push_char (flush s) c; count = 0; last_char = c; parsing = false }
]

abbrev pub take_digit : ℕ → Decompressor → Decompressor
take_digit c s = record s {
  count = ((if s.parsing then 10 * s.count else 0) + c - 48) % alphabet_size;
  parsing = true;
}

unfoldable pub decompress_from : List ℕ → Decompressor → Decompressor
decompress_from [] s = s
decompress_from (c ∷ src) s =
    decompress_from src (if isdigit c then take_digit c s else take_char c s)

abbrev pub decompress_start : Decompressor
decompress_start = record { dst = []; count = 0; last_char = 0; parsing = false }

unfoldable pub decompress : List ℕ → List ℕ
decompress src = flush (decompress_from src decompress_start)
