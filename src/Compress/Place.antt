-- ===== src/Compress/Place.antt =====
-- compress as copy_safely calls it, over its own source: the same buffer is read and written. Its
-- state is the buffer with `pos`.
pub mod Same
use clipboard.Prelude.{
  ℕ, zero, suc, ◌+◌, ◌%◌, ◌≡◌, ◌==◌, if◌then◌else◌, List, [], ◌∷◌, length, elem_or, u32_mod,
}
use clipboard.Compress.{itoa_inverse}

-- dst[pos] = c
unfoldable pub store_at : List ℕ → ℕ → ℕ → List ℕ
store_at [] pos c = []
store_at (x ∷ dst) zero c = c ∷ dst
store_at (x ∷ dst) (suc pos) c = x ∷ store_at dst pos c

abbrev pub push_char_at : List ℕ × ℕ → ℕ → List ℕ × ℕ
push_char_at s c = (store_at s.0 s.1 c, suc s.1)

-- The loop of push_int from the last digit down.
unfoldable pub push_digits_at : List ℕ × ℕ → List ℕ → List ℕ × ℕ
push_digits_at s [] = s
push_digits_at s (d ∷ tmp) = push_char_at (push_digits_at s tmp) d

unfoldable pub push_char_count_at : List ℕ × ℕ → ℕ → ℕ → List ℕ × ℕ
push_char_count_at s c count =
    if count == 0
    then s
    else if count == 1
    then push_char_at s c
    else push_digits_at (push_char_at s c) (itoa_inverse 16 count)

-- The loop at `i`, with `n` rounds left, and the call behind it.
unfoldable pub compress_from_at : ℕ → ℕ → List ℕ × ℕ → ℕ → ℕ → List ℕ × ℕ
compress_from_at zero i s last_char count = push_char_count_at s last_char count
compress_from_at (suc n) i s last_char count =
    let c = elem_or s.0 i in
    let same = compress_from_at n (suc i) s last_char ((count + 1) % u32_mod) in
    let other = compress_from_at n (suc i) (push_char_count_at s last_char count) c 1 in
    if c == last_char then same else other

-- The first `src_len` characters of the buffer are compressed at its front.
unfoldable pub compress_at : List ℕ → ℕ → List ℕ × ℕ
compress_at buffer src_len = compress_from_at src_len 0 (buffer, 0) 0 0
