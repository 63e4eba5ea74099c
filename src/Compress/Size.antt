-- ===== src/Compress/Size.antt =====
-- compress against expected_decompressed_size of the C library, by which the driver is told how long
-- the text is that it stores.
use clipboard.Prelude.{
  ℕ, zero, suc, ◌+◌, ◌%◌, ◌^◌, ◌≤◌, ◌<◌, ◌≡◌, refl, inl, inr, arith, false, List, [], ◌∷◌, ◌++◌,
  length, length-append, append_assoc, append-nil, sym, ◌∙◌, ap, subst, eq_cases, ne→==_false,
  eq→==, lt→ltb, u32_mod,
}
use clipboard.Libc.{include_char, decompressed_size_from, expected_decompressed_size}
use clipboard.Compress.{
  isdigit, push_char, itoa_inverse, push_back_digits, push_int, push_char_count, compress_from,
  compress,
}
use clipboard.Compress.Runs.{
  number, AreDigits, itoa_inverse-AreDigits, number-itoa_inverse, isdigit_range,
}
use clipboard.Compress.Roundtrip.{NoDigits}

-- Behind `dst` the count stands at `len` and `current`.
abbrev Stands : List ℕ → ℕ → ℕ → Type 0
Stands dst len current =
    (ys : List ℕ)
    → decompressed_size_from (dst ++ ys) 0 0 0 ≡ decompressed_size_from ys (length dst) len current

-- Behind `dst` there are `total` characters.
abbrev Counts : List ℕ → ℕ → Type 0
Counts dst total =
    (len : ℕ) × (current : ℕ) × Stands dst len current
    × (include_char len current (length dst) ≡ (total, 0))

length-push_char : (dst : List ℕ) (c : ℕ) → length (push_char dst c) ≡ length dst + 1
length-push_char dst c = length-append dst (c ∷ [])

Stands-char :
    (dst : List ℕ) (c total : ℕ)
    → isdigit c ≡ false
    → Counts dst total
    → Stands (push_char dst c) total 0
unfolding decompressed_size_from
Stands-char dst c total h (len, current, stands, total_is) ys =
    ap (λ xs. decompressed_size_from xs 0 0 0) (append_assoc dst (c ∷ []) ys)
    ∙ stands (c ∷ ys)
    ∙ rw (h, total_is, length-push_char dst c)

Counts-char :
    (dst : List ℕ) (total : ℕ) (c : ℕ)
    → total + 1 < 2 ^ 32
    → Stands (push_char dst c) total 0
    → Counts (push_char dst c) (total + 1)
unfolding include_char
Counts-char dst total c l stands = (
  total,
  0,
  stands,
  rw (length-push_char dst c, lt→ltb 0 (length dst + 1) (omega arith))
      (ap (λ (k : ℕ). (k, 0)) (omega arith)),
)

Stands-digits :
    (xs tmp : List ℕ) (total : ℕ)
    → Stands xs total 0
    → AreDigits tmp
    → Stands (push_back_digits xs tmp) total (number tmp % 2 ^ 32)
unfolding push_back_digits number decompressed_size_from
Stands-digits xs [] total stands h ys = stands ys
Stands-digits xs (d ∷ tmp) total stands (l, u, h) ys =
    ap (λ zs. decompressed_size_from zs 0 0 0) (append_assoc (push_back_digits xs tmp) (d ∷ []) ys)
    ∙ Stands-digits xs tmp total stands h (d ∷ ys)
    ∙ rw (isdigit_range d l u, length-push_char (push_back_digits xs tmp) d)
        (ap (decompressed_size_from ys (length (push_back_digits xs tmp) + 1) total) (omega arith))

length-push_back_digits : (xs tmp : List ℕ) → length xs ≤ length (push_back_digits xs tmp)
unfolding push_back_digits
length-push_back_digits xs [] = omega arith
length-push_back_digits xs (d ∷ tmp) =
    omega (arith, length-push_back_digits xs tmp, length-push_char (push_back_digits xs tmp) d)

Counts-int :
    (dst : List ℕ) (total n : ℕ)
    → 2 ≤ n
    → total + n < 2 ^ 32
    → Stands dst total 0
    → Counts (push_int dst n) (total + n)
unfolding push_int include_char
Counts-int dst total n g l stands = (
  total,
  number (itoa_inverse 16 n) % 2 ^ 32,
  Stands-digits dst (itoa_inverse 16 n) total stands (itoa_inverse-AreDigits 16 n),
  rw (number-itoa_inverse 16 n (omega arith), small, ne→==_false n 0 (λ e. omega arith))
      (ap (λ (k : ℕ). (k, 0)) (omega arith)),
)
  where
    small : n % 2 ^ 32 ≡ n
    small = omega arith

Counts-run :
    (dst : List ℕ) (total c n : ℕ)
    → isdigit c ≡ false
    → total + n < 2 ^ 32
    → Counts dst total
    → Counts (push_char_count dst c n) (total + n)
unfolding push_char_count
Counts-run dst total c zero h l k = subst (Counts dst) (omega arith) k
Counts-run dst total c (suc zero) h l k = Counts-char dst total c l (Stands-char dst c total h k)
Counts-run dst total c (suc (suc n)) h l k =
    rw
      (
        ne→==_false (suc (suc n)) 0 (λ e. omega arith),
        ne→==_false (suc (suc n)) 1 (λ e. omega arith),
      )
      (Counts-int (push_char dst c) total (suc (suc n)) (omega arith) l
        (Stands-char dst c total h k))

compress_from-size :
    (src dst : List ℕ) (total last_char n : ℕ)
    → Counts dst total
    → NoDigits src
    → isdigit last_char ≡ false
    → total + n + length src < 2 ^ 32
    → expected_decompressed_size (compress_from src dst last_char n) ≡ total + n + length src
unfolding compress_from expected_decompressed_size decompressed_size_from
compress_from-size [] dst total last_char n k d h l =
    let (len, current, stands, total_is) = Counts-run dst total last_char n h (omega arith) k in
    ap (λ xs. decompressed_size_from xs 0 0 0) (sym (append-nil (push_char_count dst last_char n)))
    ∙ stands []
    ∙ ap (λ (x : ℕ × ℕ). x.0) total_is
    ∙ omega arith
compress_from-size (c ∷ src) dst total last_char n k (dc, d) h l = elim (eq_cases c last_char) [
  | inl same ↦
      rw (eq→== c last_char same, wrap)
        (compress_from-size src dst total last_char (n + 1) k d h (omega arith) ∙ omega arith)
  | inr ne ↦ rw (ne→==_false c last_char ne) (
      compress_from-size src (push_char_count dst last_char n) (total + n) c 1
        (Counts-run dst total last_char n h (omega arith) k) d dc (omega arith)
      ∙ omega arith)
]
  where
    wrap : (n + 1) % u32_mod ≡ n + 1
    wrap = omega arith

-- For a text without digits, of less than 2^32 characters, what the C library takes to be the
-- decompressed size of its compressed form is its length.
pub compress_size :
    (src : List ℕ)
    → NoDigits src
    → length src < 2 ^ 32
    → expected_decompressed_size (compress src) ≡ length src
unfolding compress include_char
compress_size src d l =
    compress_from-size src [] 0 0 0 (0, 0, (λ ys. refl), refl) d refl (omega arith) ∙ omega arith
