-- ===== src/Safe/Zeros.antt =====
-- Texts without zeros, which slen measures.
use clipboard.Prelude.{
  ℕ, zero, suc, ◌+◌, ◌%◌, ◌/◌, ◌≤◌, ◌≡◌, refl, ◌≢◌, ◌⊎◌, inl, inr, arith, ltb, ◌==◌, Bool-cases,
  eq→==, ne→==_false, ==→eq, ◌∙◌, List, [], ◌∷◌, ◌++◌, length, done, u32_mod,
}
use clipboard.Compress.{
  itoa_inverse, push_back_digits, push_int, push_char_count, compress_from, compress,
}
use clipboard.Safe.{slen}

abbrev pub NoZeros : List ℕ → Type 0
NoZeros [] = Unit {0}
NoZeros (c ∷ s) = (c ≢ 0) × NoZeros s

-- The text is measured: it has `bound` characters, or a zero follows.
abbrev pub Ends : ℕ → List ℕ → ℕ → Type 0
Ends n rest bound = (n ≡ bound) ⊎ ((s : List ℕ) × (rest ≡ 0 ∷ s))

pub slen_lem :
    (text rest : List ℕ) (bound : ℕ)
    → NoZeros text
    → length text ≤ bound
    → Ends (length text) rest bound
    → slen (text ++ rest) bound ≡ done (length text)
unfolding slen
slen_lem [] rest zero z l e = refl
slen_lem [] rest (suc bound) z l (inl same) = absurd (omega arith)
slen_lem [] rest (suc bound) z l (inr (s, e)) = rw e
slen_lem (c ∷ text) rest zero z l e = absurd (omega arith)
slen_lem (c ∷ text) rest (suc bound) (n, z) l (inl same) =
    rw (ne→==_false c 0 n, slen_lem text rest bound z (omega arith) (inl (omega arith)))
slen_lem (c ∷ text) rest (suc bound) (n, z) l (inr e) =
    rw (ne→==_false c 0 n, slen_lem text rest bound z (omega arith) (inr e))

pub NoZeros-append : (s t : List ℕ) → NoZeros s → NoZeros t → NoZeros (s ++ t)
NoZeros-append [] t a b = b
NoZeros-append (c ∷ s) t (n, a) b = (n, NoZeros-append s t a b)

itoa_inverse-NoZeros : (n val : ℕ) → NoZeros (itoa_inverse n val)
unfolding itoa_inverse
itoa_inverse-NoZeros zero val = tt
itoa_inverse-NoZeros (suc n) val = elim (Bool-cases (ltb 0 val)) [
  | inl more ↦ rw more ((λ e. omega arith), itoa_inverse-NoZeros n (val / 10))
  | inr ended ↦ rw ended tt
]

push_back_digits-NoZeros :
    (buffer tmp : List ℕ) → NoZeros buffer → NoZeros tmp → NoZeros (push_back_digits buffer tmp)
unfolding push_back_digits
push_back_digits-NoZeros buffer [] b t = b
push_back_digits-NoZeros buffer (d ∷ tmp) b (n, t) =
    NoZeros-append (push_back_digits buffer tmp) (d ∷ []) (push_back_digits-NoZeros buffer tmp b t)
      (n, tt)

push_char_count-NoZeros :
    (dst : List ℕ) (c count : ℕ)
    → NoZeros dst
    → (count ≡ 0) ⊎ (c ≢ 0)
    → NoZeros (push_char_count dst c count)
unfolding push_char_count push_int
push_char_count-NoZeros dst c count d (inl none) = rw (eq→== count 0 none) d
push_char_count-NoZeros dst c count d (inr n) = elim (Bool-cases (count == 0)) [
  | inl none ↦ rw none d
  | inr some_chars ↦ elim (Bool-cases (count == 1)) [
    | inl one ↦ rw (some_chars, one) (NoZeros-append dst (c ∷ []) d (n, tt))
    | inr more ↦
        rw (some_chars, more)
          (push_back_digits-NoZeros (dst ++ c ∷ []) (itoa_inverse 16 count)
            (NoZeros-append dst (c ∷ []) d (n, tt)) (itoa_inverse-NoZeros 16 count))
  ]
]

compress_from-NoZeros :
    (src dst : List ℕ) (last_char count : ℕ)
    → NoZeros src
    → NoZeros dst
    → (count ≡ 0) ⊎ (last_char ≢ 0)
    → NoZeros (compress_from src dst last_char count)
unfolding compress_from
compress_from-NoZeros [] dst last_char count s d l = push_char_count-NoZeros dst last_char count d l
compress_from-NoZeros (c ∷ src) dst last_char count (n, s) d l =
    elim (Bool-cases (c == last_char)) [
      | inl same ↦ rw same (
          compress_from-NoZeros src dst last_char ((count + 1) % u32_mod) s d
            (inr (λ e. n (==→eq c last_char same ∙ e))))
      | inr other ↦ rw other (
          compress_from-NoZeros src (push_char_count dst last_char count) c 1 s
            (push_char_count-NoZeros dst last_char count d l) (inr n))
    ]

-- What stands for a text without zeros has none.
pub compress-NoZeros : (src : List ℕ) → NoZeros src → NoZeros (compress src)
unfolding compress
compress-NoZeros src s = compress_from-NoZeros src [] 0 0 s tt (inl refl)
