-- ===== src/Libc/Size.antt =====
-- expected_decompressed_size against the runs of the text.
use clipboard.Prelude.{
  ℕ, ◌+◌, ◌-◌, ◌*◌, ◌%◌, ◌^◌, ◌<◌, ◌≡◌, refl, true, false, ◌==◌, arith, if◌then◌else◌, List, [],
  ◌∷◌, ◌++◌, ◌∙◌,
}
use clipboard.Libc.{is_digit, include_char, decompressed_size_from, expected_decompressed_size}

-- A character that is no digit, and the digits of its count.
pub record Chunk : Type 0 where
  pub char : ℕ
  pub digits : List ℕ

abbrev pub AllDigits : List ℕ → Type 0
AllDigits [] = Unit {0}
AllDigits (d ∷ ds) = (is_digit d ≡ true) × AllDigits ds

abbrev pub WellFormed : List Chunk → Type 0
WellFormed [] = Unit {0}
WellFormed (r ∷ rs) = (is_digit r.char ≡ false) × AllDigits r.digits × WellFormed rs

abbrev pub render : List Chunk → List ℕ
render [] = []
render (r ∷ rs) = r.char ∷ (r.digits ++ render rs)

-- The number that the digits stand for, in 32 bits; no digits and zero count for one.
abbrev pub number_from : ℕ → List ℕ → ℕ
number_from n [] = n
number_from n (d ∷ ds) = number_from ((10 * n + d - 48) % 2 ^ 32) ds

abbrev pub repeats : ℕ → ℕ
repeats n = if n == 0 then 1 else n

abbrev pub total : List Chunk → ℕ
total [] = 0
total (r ∷ rs) = repeats (number_from 0 r.digits) + total rs

step_digit :
    (d : ℕ) (rest : List ℕ) (pos len current : ℕ)
    → is_digit d ≡ true
    → decompressed_size_from (d ∷ rest) pos len current
      ≡ decompressed_size_from rest (pos + 1) len ((10 * current + d - 48) % 2 ^ 32)
unfolding decompressed_size_from
step_digit d rest pos len current h = rw (h, decompressed_size_from)

step_char :
    (c : ℕ) (rest : List ℕ) (pos len current : ℕ)
    → is_digit c ≡ false
    → decompressed_size_from (c ∷ rest) pos len current
      ≡ decompressed_size_from rest
          (pos + 1)
          (include_char len current pos).0
          (include_char len current pos).1
unfolding decompressed_size_from
step_char c rest pos len current h = rw (h, decompressed_size_from)

digits_loop :
    (ds rest : List ℕ) (pos len current : ℕ)
    → AllDigits ds
    → 0 < pos
    → (rest' : ℕ → ℕ → ℕ) → ((p n : ℕ) → 0 < p → decompressed_size_from rest p len n ≡ rest' len n)
    → decompressed_size_from (ds ++ rest) pos len current ≡ rest' len (number_from current ds)
digits_loop [] rest pos len current all h rest' e = e pos current h
digits_loop (d ∷ ds) rest pos len current all h rest' e =
    rw (step_digit d (ds ++ rest) pos len current all.0) (
      digits_loop ds rest (pos + 1) len ((10 * current + d - 48) % 2 ^ 32) all.1 (omega arith) rest'
        e)

include_later :
    (len counter pos : ℕ)
    → 0 < pos
    → (include_char len counter pos) ≡ ((len + repeats counter) % 2 ^ 32, 0)
unfolding include_char
include_later len counter pos h = ground arith

-- Behind the first character: what is pending is counted, then the other runs.
pending :
    (rs : List Chunk) (pos len current : ℕ)
    → WellFormed rs
    → 0 < pos
    → decompressed_size_from (render rs) pos len current
      ≡ (len + (repeats current + total rs)) % 2 ^ 32
unfolding decompressed_size_from
pending [] pos len current w h =
    rw (decompressed_size_from, include_later len current pos h) (omega arith)
pending (r ∷ rs) pos len current w h =
    rw
      (
        step_char r.char (r.digits ++ render rs) pos len current w.0,
        include_later len current pos h,
      )
      (digits_loop r.digits (render rs) (pos + 1) ((len + repeats current) % 2 ^ 32) 0 w.1
          (omega arith) (λ l n. (l + (repeats n + total rs)) % 2 ^ 32)
          (λ p n k. pending rs p ((len + repeats current) % 2 ^ 32) n w.2 k)
        ∙ omega arith)

-- For a text that begins with no digit the result is, in 32 bits, the sum of the counts of its runs: a
-- character with no count, or with the count 0, counts once.
pub expected_decompressed_size_lem :
    (rs : List Chunk) → WellFormed rs → expected_decompressed_size (render rs) ≡ total rs % 2 ^ 32
unfolding expected_decompressed_size include_char
expected_decompressed_size_lem [] w = unfold decompressed_size_from in refl
expected_decompressed_size_lem (r ∷ rs) w =
    rw (expected_decompressed_size, step_char r.char (r.digits ++ render rs) 0 0 0 w.0)
      (digits_loop r.digits (render rs) 1 0 0 w.1 (omega arith)
          (λ l n. (l + (repeats n + total rs)) % 2 ^ 32) (λ p n k. pending rs p 0 n w.2 k)
        ∙ omega arith)

include_char-lt : (len counter pos : ℕ) → (include_char len counter pos).0 < 2 ^ 32
unfolding include_char
include_char-lt len counter pos = ground arith

size_from-lt :
    (buffer : List ℕ) (pos len current : ℕ) → decompressed_size_from buffer pos len current < 2 ^ 32
unfolding decompressed_size_from
size_from-lt [] pos len current = include_char-lt len current pos
size_from-lt (c ∷ buffer) pos len current = size_from-lt buffer (pos + 1) _ _

-- The result is a uint32_t.
pub expected_decompressed_size-lt : (buffer : List ℕ) → expected_decompressed_size buffer < 2 ^ 32
unfolding expected_decompressed_size
expected_decompressed_size-lt buffer = size_from-lt buffer 0 0 0
