-- ===== src/Hello/Read.antt =====
-- hello_read.
use clipboard.Prelude.{
  ℕ, ◌+◌, ◌-◌, ◌%◌, ◌^◌, ◌≤◌, ◌<◌, ◌≡◌, ◌⊎◌, inl, inr, arith, none, some, List, take, drop, length,
  length-drop, length-take, ℤ, pos, done, lt_cases, lt→ltb, le→ltb_false, lt→leb_false, le→leb,
  take_whole, sym, ◌∙◌,
}
use clipboard.Hello.{answer, limit_size, hello_read}

limit_size_cases :
    (n position size : ℕ)
    → n < 2 ^ 31
    → position < n
    → size < 2 ^ 32
    → ((n - position < size) × (limit_size n position size ≡ n - position))
      ⊎ ((size ≤ n - position) × (limit_size n position size ≡ size))
unfolding limit_size
limit_size_cases n position size l p s = elim (lt_cases n (position + size)) [
  | inl long ↦
      inl (omega arith, rw (lt→ltb n ((position + size) % 2 ^ 64) (omega arith)) (omega arith))
  | inr fits ↦ inr (omega arith, rw (le→ltb_false n ((position + size) % 2 ^ 64) (omega arith)))
]

module _ (message : List ℕ) (copy_to : List ℕ → ℤ) (position size : ℕ) where
  limited_bytes :
      length message < 2 ^ 31
      → position < length message
      → size < 2 ^ 32
      → take (limit_size (length message) position size) (drop position message)
        ≡ take size (drop position message)
  limited_bytes l p s = elim (limit_size_cases (length message) position size l p s) [
    | inl (long, e) ↦ rw e (
        take_whole (length message - position) (drop position message)
          (omega (arith, length-drop position message))
        ∙ sym
            (take_whole size (drop position message) (omega (arith, length-drop position message))))
    | inr (fits, e) ↦ rw e
  ]

  limited_length :
      length message < 2 ^ 31
      → position < length message
      → size < 2 ^ 32
      → limit_size (length message) position size ≡ length (take size (drop position message))
  limited_length l p s = elim (limit_size_cases (length message) position size l p s) [
    | inl (long, e) ↦
        e ∙ omega (arith, length-take size (drop position message), length-drop position message)
    | inr (fits, e) ↦
        e ∙ omega (arith, length-take size (drop position message), length-drop position message)
  ]

  -- For a message of less than 2^31 bytes and any 32-bit size, a read never touches bytes outside of
  -- the message. At or behind its end it returns 0 and copies nothing; before, it copies what the
  -- message has there, at most `size` bytes, and returns their number if the copy succeeds, its code
  -- if not.
  pub hello_read_lem :
      length message < 2 ^ 31
      → size < 2 ^ 32
      → ((length message ≤ position)
          × (hello_read message copy_to position size ≡ done (pos 0, none)))
        ⊎ ((position < length message)
            × (hello_read message copy_to position size
                ≡ done (
                  answer
                      (copy_to (take size (drop position message)))
                      (length (take size (drop position message))),
                  some (take size (drop position message)),
                )))
  unfolding hello_read
  hello_read_lem l s = elim (lt_cases position (length message)) [
    | inr over ↦ inl (over, rw (le→leb (length message) position over))
    | inl p ↦ inr (
      p,
      rw (
        lt→leb_false (length message) position p,
        le→leb (position + limit_size (length message) position size) (length message) (within p),
        limited_bytes l p s,
        limited_length l p s,
      ),
    )
  ]
    where
      within :
          position < length message
          → position + limit_size (length message) position size ≤ length message
      within p = elim (limit_size_cases (length message) position size l p s) [
        | inl (long, e) ↦ omega arith
        | inr (fits, e) ↦ omega arith
      ]
