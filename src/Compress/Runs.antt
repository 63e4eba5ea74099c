-- ===== src/Compress/Runs.antt =====
-- compress and decompress on one run of a character.
use clipboard.Prelude.{
  ℕ, zero, suc, ◌+◌, ◌-◌, ◌*◌, ◌/◌, ◌%◌, ◌^◌, ◌≤◌, ◌<◌, ◌≡◌, refl, inl, inr, arith, true, false,
  if◌then◌else◌, List, [], ◌∷◌, ◌++◌, replicate, append_assoc, append-nil, sym, ◌∙◌, ap, lt_cases,
  lt→ltb, le→ltb_false, le→leb,
}
use clipboard.Compress.{
  alphabet_size, isdigit, itoa_inverse, push_back_digits, push_int, push_decompressed, Decompressor,
  take_char, take_digit, decompress_from,
}

pub push_decompressed_lem :
    (dst : List ℕ) (c n : ℕ) → push_decompressed dst c n ≡ dst ++ replicate (n - 1) c
unfolding push_decompressed
push_decompressed_lem dst c zero = sym (append-nil dst)
push_decompressed_lem dst c (suc zero) = sym (append-nil dst)
push_decompressed_lem dst c (suc (suc n)) = rw (pred_suc (suc n)) (
    push_decompressed_lem (dst ++ c ∷ []) c (suc n)
    ∙ rw (pred_suc n) (append_assoc dst (c ∷ []) (replicate n c)))
  where
    pred_suc : (k : ℕ) → suc k - 1 ≡ k
    pred_suc k = omega arith

pub decompress_from-append :
    (xs ys : List ℕ) (s : Decompressor)
    → decompress_from (xs ++ ys) s ≡ decompress_from ys (decompress_from xs s)
unfolding decompress_from
decompress_from-append [] ys s = refl
decompress_from-append (x ∷ xs) ys s =
    decompress_from-append xs ys (if isdigit x then take_digit x s else take_char x s)

-- What a list of digits means, the last digit first.
unfoldable pub number : List ℕ → ℕ
number [] = 0
number (d ∷ tmp) = 10 * number tmp + (d - 48)

abbrev pub AreDigits : List ℕ → Type 0
AreDigits [] = Unit {0}
AreDigits (d ∷ tmp) = (48 ≤ d) × (d ≤ 57) × AreDigits tmp

pub itoa_inverse-AreDigits : (n val : ℕ) → AreDigits (itoa_inverse n val)
unfolding itoa_inverse
itoa_inverse-AreDigits zero val = tt
itoa_inverse-AreDigits (suc n) val = elim (lt_cases 0 val) [
  | inl l ↦ rw (lt→ltb 0 val l) (omega arith, omega arith, itoa_inverse-AreDigits n (val / 10))
  | inr g ↦ rw (le→ltb_false 0 val g) tt
]

pub number-itoa_inverse : (n val : ℕ) → val < 10 ^ n → number (itoa_inverse n val) ≡ val
unfolding itoa_inverse number
number-itoa_inverse zero val l = omega arith
number-itoa_inverse (suc n) val l = elim (lt_cases 0 val) [
  | inl g ↦ rw (lt→ltb 0 val g) (omega (arith, number-itoa_inverse n (val / 10) (omega (arith, l))))
  | inr g ↦ rw (le→ltb_false 0 val g) (omega arith)
]

pub isdigit_range : (d : ℕ) → 48 ≤ d → d ≤ 57 → isdigit d ≡ true
isdigit_range d l u = rw (le→leb 48 d l, le→leb d 57 u)

-- The decompressor once it has read the digits behind `s`.
abbrev pub reading : List ℕ → Decompressor → Decompressor
reading [] s = s
reading (d ∷ tmp) s = record s { count = number (d ∷ tmp) % alphabet_size; parsing = true }

read_last :
    (d : ℕ) (tmp : List ℕ) (s : Decompressor)
    → 48 ≤ d
    → d ≤ 57
    → s.parsing ≡ false
    → decompress_from (d ∷ []) (reading tmp s) ≡ reading (d ∷ tmp) s
unfolding decompress_from number
read_last d [] s l u p =
    rw (isdigit_range d l u, p) (ap (λ k. record s { count = k; parsing = true }) (omega arith))
read_last d (e ∷ tmp) s l u p =
    rw (isdigit_range d l u) (ap (λ k. record s { count = k; parsing = true }) (omega arith))

pub read_digits :
    (xs tmp : List ℕ) (s : Decompressor)
    → (decompress_from xs s).parsing ≡ false
    → AreDigits tmp
    → decompress_from (push_back_digits xs tmp) s ≡ reading tmp (decompress_from xs s)
unfolding push_back_digits
read_digits xs [] s p h = refl
read_digits xs (d ∷ tmp) s p (l, u, h) =
    decompress_from-append (push_back_digits xs tmp) (d ∷ []) s
    ∙ ap (decompress_from (d ∷ [])) (read_digits xs tmp s p h)
    ∙ read_last d tmp (decompress_from xs s) l u p

-- A count of two or more.
pub read_int :
    (xs : List ℕ) (n : ℕ) (s : Decompressor)
    → (decompress_from xs s).parsing ≡ false
    → 1 ≤ n
    → n < alphabet_size
    → decompress_from (push_int xs n) s
      ≡ record (decompress_from xs s) { count = n; parsing = true }
unfolding push_int number
read_int xs n s p l u =
    read_digits xs (itoa_inverse 16 n) s p (itoa_inverse-AreDigits 16 n)
    ∙ whole (itoa_inverse 16 n) (number-itoa_inverse 16 n (omega (arith, u)))
  where
    whole :
        (tmp : List ℕ)
        → number tmp ≡ n
        → reading tmp (decompress_from xs s)
          ≡ record (decompress_from xs s) { count = n; parsing = true }
    whole [] e = absurd (omega arith)
    whole (d ∷ tmp) e =
        ap (λ k. record (decompress_from xs s) { count = k; parsing = true }) (omega arith)
