-- ===== src/Protocol.antt =====
-- clipboard_protocol.h, which the driver and the C library share
-- (new/usr/src/minix/drivers/examples/clipboard and new/usr/src/lib/libc/misc): the messages, their
-- layout in memory (little-endian, no padding) and the queries encoded in the size of a read.
pub mod Codec
use clipboard.Prelude.{
  ℕ, zero, suc, ◌+◌, ◌-◌, ◌*◌, ◌/◌, ◌%◌, ◌^◌, ◌≡◌, Bool, ltb, List, [], ◌∷◌, ◌++◌, length, take,
  drop, Option, get_elem?, elem_or,
}

abbrev pub entry_len_limit : ℕ
entry_len_limit = 1024

abbrev pub buf_max_count : ℕ
buf_max_count = 100

pub record LockMsg : Type 0 where
  pub pid : ℕ
  pub id : ℕ
  pub buffer_len : ℕ

pub record GetMsg : Type 0 where
  pub buffer_len : ℕ
  pub decompressed_len : ℕ
  pub buffer : List ℕ

pub record SetMsg : Type 0 where
  pub pid : ℕ
  pub buffer_len : ℕ
  pub decompressed_len : ℕ
  pub buffer : List ℕ

-- sizeof each message: three words; two words and the text; three words and the text.
abbrev pub lock_size : ℕ
lock_size = 12

abbrev pub get_size : ℕ
get_size = 1032

abbrev pub set_size : ℕ
set_size = 1036

unfoldable pub is_pid_query : ℕ → Bool
is_pid_query size = ltb size get_size

-- The macro reads `size`, not its parameter.
unfoldable pub is_correct_id : ℕ → Bool
is_correct_id size = ltb size buf_max_count

unfoldable pub encode_id : ℕ → ℕ
encode_id id = id

unfoldable pub decode_id : ℕ → ℕ
decode_id size = size

-- size_t is a 32-bit word, and wraps.
unfoldable pub encode_pid : ℕ → ℕ
encode_pid pid = (get_size + pid) % 2 ^ 32

unfoldable pub decode_pid : ℕ → ℕ
decode_pid size = (size + 2 ^ 32 - get_size) % 2 ^ 32

-- The four bytes of a uint32_t, and the word that stands at an offset.
unfoldable pub word_bytes : ℕ → List ℕ
word_bytes w = w % 256 ∷ w / 256 % 256 ∷ w / 65536 % 256 ∷ w / 16777216 % 256 ∷ []

unfoldable pub word_at : List ℕ → ℕ → ℕ
word_at bytes i =
    elem_or bytes i
    + 256 * elem_or bytes (i + 1)
    + 65536 * elem_or bytes (i + 2)
    + 16777216 * elem_or bytes (i + 3)

-- A message as the bytes of its struct.
unfoldable pub lock_bytes : LockMsg → List ℕ
unfolding word_bytes
lock_bytes m = word_bytes m.pid ++ (word_bytes m.id ++ word_bytes m.buffer_len)

unfoldable pub set_bytes : SetMsg → List ℕ
unfolding word_bytes
set_bytes m =
    word_bytes m.pid ++ (word_bytes m.buffer_len ++ (word_bytes m.decompressed_len ++ m.buffer))

unfoldable pub get_bytes : GetMsg → List ℕ
unfolding word_bytes
get_bytes m = word_bytes m.buffer_len ++ (word_bytes m.decompressed_len ++ m.buffer)

-- The members of the union read from its bytes.
unfoldable pub lock_of_bytes : List ℕ → LockMsg
unfolding word_at
lock_of_bytes bytes = record {
  pid = word_at bytes 0;
  id = word_at bytes 4;
  buffer_len = word_at bytes 8;
}

unfoldable pub set_of_bytes : List ℕ → SetMsg
unfolding word_at
set_of_bytes bytes = record {
  pid = word_at bytes 0;
  buffer_len = word_at bytes 4;
  decompressed_len = word_at bytes 8;
  buffer = take entry_len_limit (drop 12 bytes);
}

unfoldable pub get_of_bytes : List ℕ → GetMsg
unfolding word_at
get_of_bytes bytes = record {
  buffer_len = word_at bytes 0;
  decompressed_len = word_at bytes 4;
  buffer = take entry_len_limit (drop 8 bytes);
}
