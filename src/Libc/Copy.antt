-- ===== src/Libc/Copy.antt =====
-- copy_to_clipboard.
use clipboard.Prelude.{
  ℕ, ◌^◌, ◌≤◌, ◌<◌, ◌≡◌, refl, true, ltb, if◌then◌else◌, List, ◌++◌, take, drop, length, arith,
  minus_one, is_negative, to_uint, done, lt→ltb, length-append, length-take, length-drop,
  take-append_self, Returns, ◌⊎◌, inl, inr, Bool-cases,
}
use clipboard.Memory.Laws.{memcpy_fits}
use clipboard.Protocol.{entry_len_limit}
use clipboard.Protocol.Codec.{SetFits}
use clipboard.Clipboard.Fill.{IsSound}
use clipboard.Libc.{Os, o_wronly, expected_decompressed_size, set_msg, copy_to_clipboard}
use clipboard.Libc.Size.{expected_decompressed_size-lt}

module _ {W : Type 0} (os : Os W) (junk buffer : List ℕ) (buffer_len : ℕ) (w : W) where
  -- If the text has more than ENTRY_LEN_LIMIT bytes or the device cannot be opened, -1 is returned,
  -- and nothing is sent; a text that is too long is refused before the device is opened.
  pub copy_refused :
      (entry_len_limit < buffer_len) ⊎ (is_negative (os.open_clipboard o_wronly w).0 ≡ true)
      → copy_to_clipboard os junk buffer buffer_len w
        ≡ done (
          to_uint minus_one,
          if ltb entry_len_limit buffer_len then w else (os.open_clipboard o_wronly w).1,
        )
  unfolding copy_to_clipboard
  copy_refused (inl long) = rw (lt→ltb entry_len_limit buffer_len long)
  copy_refused (inr bad) = elim (Bool-cases (ltb entry_len_limit buffer_len)) [
    | inl long ↦ rw long
    | inr fits ↦ rw (fits, bad)
  ]

  -- What `copy_to_clipboard` sends is a message that the driver handles safely: it fits its
  -- struct, its length is within its buffer, and it carries the caller's pid, text and size.
  pub set_msg_lem :
      length junk ≡ entry_len_limit
      → buffer_len ≤ entry_len_limit
      → buffer_len ≤ length buffer
      → os.getpid w < 2 ^ 32
      → Returns (set_msg os junk buffer buffer_len w) λ m.
        SetFits m
        × IsSound m
        × (m.pid ≡ os.getpid w)
        × (m.buffer_len ≡ buffer_len)
        × (take m.buffer_len m.buffer ≡ take buffer_len buffer)
        × (m.decompressed_len ≡ expected_decompressed_size (take buffer_len buffer))
  unfolding set_msg
  set_msg_lem whole fits inside pid = (
    record {
      pid = os.getpid w;
      buffer_len = buffer_len;
      decompressed_len = expected_decompressed_size (take buffer_len buffer);
      buffer = take buffer_len buffer ++ drop buffer_len junk;
    },
    rw (memcpy_fits junk buffer buffer_len inside (omega arith)),
    (
      (pid, omega arith, expected_decompressed_size-lt (take buffer_len buffer), size),
      (size, fits),
      refl,
      refl,
      take-append_self buffer_len (take buffer_len buffer) (drop buffer_len junk) short,
      refl,
    ),
  )
    where
      short : length (take buffer_len buffer) ≡ buffer_len
      short = omega (arith, length-take buffer_len buffer)

      size : length (take buffer_len buffer ++ drop buffer_len junk) ≡ entry_len_limit
      size = omega (
        arith,
        short,
        length-append (take buffer_len buffer) (drop buffer_len junk),
        length-drop buffer_len junk,
        whole,
      )
