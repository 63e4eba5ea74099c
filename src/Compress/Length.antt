-- ===== src/Compress/Length.antt =====
-- compress writes over its own source in copy_safely: how far it writes.
use clipboard.Prelude.{
  ℕ, zero, suc, ◌+◌, ◌/◌, ◌%◌, ◌≤◌, ◌≡◌, inl, inr, arith, List, [], ◌∷◌, ◌++◌, length,
  length-append, eq_cases, lt_cases, ne→==_false, eq→==, lt→ltb, le→ltb_false, u32_mod,
}
use clipboard.Compress.{
  itoa_inverse, push_back_digits, push_int, push_char_count, compress_from, compress,
}

length-itoa_inverse : (fuel n : ℕ) → length (itoa_inverse fuel n) ≤ n
unfolding itoa_inverse
length-itoa_inverse zero n = omega arith
length-itoa_inverse (suc fuel) n = elim (lt_cases 0 n) [
  | inl l ↦ rw (lt→ltb 0 n l) (omega (arith, length-itoa_inverse fuel (n / 10)))
  | inr g ↦ rw (le→ltb_false 0 n g) (omega arith)
]

pub length-itoa_inverse_less : (fuel n : ℕ) → 2 ≤ n → length (itoa_inverse fuel n) + 1 ≤ n
unfolding itoa_inverse
length-itoa_inverse_less zero n g = omega arith
length-itoa_inverse_less (suc fuel) n g =
    rw (lt→ltb 0 n (omega arith)) (omega (arith, length-itoa_inverse fuel (n / 10)))

pub length-push_back_digits :
    (xs tmp : List ℕ) → length (push_back_digits xs tmp) ≡ length xs + length tmp
unfolding push_back_digits
length-push_back_digits xs [] = omega arith
length-push_back_digits xs (d ∷ tmp) =
    omega (arith, length-append (push_back_digits xs tmp) (d ∷ []), length-push_back_digits xs tmp)

-- A run takes no more room than it had.
pub length-push_char_count :
    (dst : List ℕ) (c n : ℕ) → length (push_char_count dst c n) ≤ length dst + n
unfolding push_char_count push_int
length-push_char_count dst c zero = omega arith
length-push_char_count dst c (suc zero) = omega (arith, length-append dst (c ∷ []))
length-push_char_count dst c (suc (suc n)) =
    rw
      (
        ne→==_false (suc (suc n)) 0 (λ e. omega arith),
        ne→==_false (suc (suc n)) 1 (λ e. omega arith),
      )
      (omega (
        arith,
        length-push_back_digits (dst ++ c ∷ []) (itoa_inverse 16 (suc (suc n))),
        length-append dst (c ∷ []),
        length-itoa_inverse_less 16 (suc (suc n)) (omega arith),
      ))

length-compress_from :
    (src dst : List ℕ) (last_char n : ℕ)
    → length (compress_from src dst last_char n) ≤ length dst + n + length src
unfolding compress_from
length-compress_from [] dst last_char n = omega (arith, length-push_char_count dst last_char n)
length-compress_from (c ∷ src) dst last_char n = elim (eq_cases c last_char) [
  | inl same ↦
      rw (eq→== c last_char same)
        (omega (arith, length-compress_from src dst last_char ((n + 1) % u32_mod)))
  | inr ne ↦ rw (ne→==_false c last_char ne) (
      omega (
        arith,
        length-compress_from src (push_char_count dst last_char n) c 1,
        length-push_char_count dst last_char n,
      ))
]

-- No text grows when it is compressed.
pub length-compress : (src : List ℕ) → length (compress src) ≤ length src
unfolding compress
length-compress src = omega (arith, length-compress_from src [] 0 0)
