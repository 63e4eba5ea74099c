-- ===== src/Compress/Place/Same.antt =====
-- That a text compressed over itself is the text compressed.
use clipboard.Prelude.{
  ℕ, zero, suc, ◌+◌, ◌%◌, ◌≤◌, ◌<◌, ◌≡◌, refl, arith, ◌==◌, ne→==_false, Bool-cases, inl, inr, List,
  [], ◌∷◌, ◌++◌, length, drop, elem_or, ap, ◌∙◌, u32_mod, length-append,
}
use clipboard.Compress.{
  itoa_inverse, push_back_digits, push_int, push_char_count, compress_from, compress,
}
use clipboard.Compress.Length.{
  length-push_back_digits, length-itoa_inverse_less, length-push_char_count,
}
use clipboard.Compress.Place.{
  store_at, push_char_at, push_digits_at, push_char_count_at, compress_from_at, compress_at,
}

-- The buffer that held `all`, once `dst` is written at its front.
abbrev over : List ℕ → List ℕ → List ℕ × ℕ
over all dst = (dst ++ drop (length dst) all, length dst)

store_at-over :
    (all dst : List ℕ) (c : ℕ)
    → length dst < length all
    → store_at (dst ++ drop (length dst) all) (length dst) c
      ≡ (dst ++ c ∷ []) ++ drop (suc (length dst)) all
unfolding store_at
store_at-over [] dst c l = absurd (omega arith)
store_at-over (x ∷ all) [] c l = refl
store_at-over (x ∷ all) (y ∷ dst) c l = ap (λ r. y ∷ r) (store_at-over all dst c (omega arith))

push_char-over :
    (all dst : List ℕ) (c : ℕ)
    → length dst < length all
    → push_char_at (over all dst) c ≡ over all (dst ++ c ∷ [])
push_char-over all dst c l =
    let size : length (dst ++ c ∷ []) ≡ suc (length dst) =
      omega (arith, length-append dst (c ∷ [])) in
    rw size (ap (λ (b : List ℕ). (b, suc (length dst))) (store_at-over all dst c l))

push_digits-over :
    (all dst tmp : List ℕ)
    → length dst + length tmp ≤ length all
    → push_digits_at (over all dst) tmp ≡ over all (push_back_digits dst tmp)
unfolding push_digits_at push_back_digits
push_digits-over all dst [] l = refl
push_digits-over all dst (d ∷ tmp) l =
    ap (λ s. push_char_at s d) (push_digits-over all dst tmp (omega arith))
    ∙ push_char-over all (push_back_digits dst tmp) d
        (omega (arith, length-push_back_digits dst tmp))

push_char_count-over :
    (all dst : List ℕ) (c count : ℕ)
    → length dst + count ≤ length all
    → push_char_count_at (over all dst) c count ≡ over all (push_char_count dst c count)
unfolding push_char_count_at push_char_count push_int
push_char_count-over all dst c zero l = refl
push_char_count-over all dst c (suc zero) l = push_char-over all dst c (omega arith)
push_char_count-over all dst c (suc (suc n)) l =
    rw
      (
        ne→==_false (suc (suc n)) 0 (λ e. omega arith),
        ne→==_false (suc (suc n)) 1 (λ e. omega arith),
        push_char-over all dst c (omega arith),
      )
      (push_digits-over all (dst ++ c ∷ []) (itoa_inverse 16 (suc (suc n))) (
        omega (
          arith,
          length-append dst (c ∷ []),
          length-itoa_inverse_less 16 (suc (suc n)) (omega arith),
        )))

-- What is read at `i` has not been written over.
elem_or-over :
    (all dst rest : List ℕ) (c i : ℕ)
    → length dst ≤ i
    → drop i all ≡ c ∷ rest
    → (elem_or (dst ++ drop (length dst) all) i ≡ c) × (drop (suc i) all ≡ rest)
elem_or-over [] [] rest c zero l e = cc
elem_or-over [] [] rest c (suc i) l e = cc
elem_or-over [] (y ∷ dst) rest c zero l e = cc
elem_or-over [] (y ∷ dst) rest c (suc i) l e = cc
elem_or-over (x ∷ all) [] rest c zero l e = (cc, cc)
elem_or-over (x ∷ all) [] rest c (suc i) l e = elem_or-over all [] rest c i (omega arith) e
elem_or-over (x ∷ all) (y ∷ dst) rest c zero l e = absurd (omega arith)
elem_or-over (x ∷ all) (y ∷ dst) rest c (suc i) l e = elem_or-over all dst rest c i (omega arith) e

compress_from-over :
    (all rest dst : List ℕ) (i last_char count : ℕ)
    → drop i all ≡ rest
    → i + length rest ≡ length all
    → length dst + count ≤ i
    → compress_from_at (length rest) i (over all dst) last_char count
      ≡ over all (compress_from rest dst last_char count)
unfolding compress_from_at compress_from
compress_from-over all [] dst i last_char count e size l =
    push_char_count-over all dst last_char count (omega arith)
compress_from-over all (c ∷ rest) dst i last_char count e size l =
    let (read, later) = elem_or-over all dst rest c i (omega arith) e in
    let same =
      compress_from-over all rest dst (suc i) last_char ((count + 1) % u32_mod) later (omega arith)
        (omega arith) in
    let other =
      compress_from-over all rest (push_char_count dst last_char count) (suc i) c 1 later
        (omega arith) (omega (arith, length-push_char_count dst last_char count)) in
    elim (Bool-cases (c == last_char)) [
      | inl again ↦ rw (read, again) same
      | inr new ↦ rw (read, new, push_char_count-over all dst last_char count (omega arith)) other
    ]

-- Compressed over itself, a text gives what it gives in a buffer of its own: that stands at the front,
-- `pos` is its length, and behind it the buffer is as it was.
pub compress_at_same :
    (src : List ℕ)
    → compress_at src (length src)
      ≡ (compress src ++ drop (length (compress src)) src, length (compress src))
unfolding compress_at compress
compress_at_same src = compress_from-over src src [] 0 0 0 refl (omega arith) (omega arith)
