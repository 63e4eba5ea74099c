-- ===== src/Protocol/Codec.antt =====
-- Round trips of the protocol.
use clipboard.Prelude.{
  ℕ, ◌+◌, ◌*◌, ◌/◌, ◌%◌, ◌^◌, ◌<◌, ◌≡◌, refl, true, false, length, arith, take_whole,
}
use clipboard.Protocol.{
  LockMsg, SetMsg, GetMsg, lock_size, get_size, set_size, entry_len_limit, buf_max_count,
  lock_bytes, set_bytes, get_bytes, lock_of_bytes, set_of_bytes, get_of_bytes, is_pid_query,
  is_correct_id, encode_id, decode_id, encode_pid, decode_pid,
}

-- The fields of a message fit their C types.
abbrev pub LockFits : LockMsg → Type 0
LockFits m = (m.pid < 2 ^ 32) × (m.id < 2 ^ 32) × (m.buffer_len < 2 ^ 32)

abbrev pub SetFits : SetMsg → Type 0
SetFits m =
    (m.pid < 2 ^ 32)
    × (m.buffer_len < 2 ^ 32)
    × (m.decompressed_len < 2 ^ 32)
    × (length m.buffer ≡ entry_len_limit)

abbrev pub GetFits : GetMsg → Type 0
GetFits m =
    (m.buffer_len < 2 ^ 32) × (m.decompressed_len < 2 ^ 32) × (length m.buffer ≡ entry_len_limit)

word_lem :
    (w : ℕ)
    → w < 2 ^ 32
    → w % 256 + 256 * (w / 256 % 256) + 65536 * (w / 65536 % 256) + 16777216 * (w / 16777216 % 256)
      ≡ w
word_lem w h = omega arith

-- A lock message read back from the bytes of its struct is the message, and has LOCK_SIZE bytes.
pub lock_roundtrip :
    (m : LockMsg)
    → LockFits m
    → (lock_of_bytes (lock_bytes m) ≡ m) × (length (lock_bytes m) ≡ lock_size)
unfolding lock_of_bytes lock_bytes
lock_roundtrip m h = ground (arith, word_lem m.pid, word_lem m.id, word_lem m.buffer_len)

-- The same of a set message.
pub set_roundtrip :
    (m : SetMsg) → SetFits m → (set_of_bytes (set_bytes m) ≡ m) × (length (set_bytes m) ≡ set_size)
unfolding set_of_bytes set_bytes
set_roundtrip m h = ground (
  arith,
  word_lem m.pid,
  word_lem m.buffer_len,
  word_lem m.decompressed_len,
  take_whole entry_len_limit m.buffer,
)

-- The same of a get message.
pub get_roundtrip :
    (m : GetMsg) → GetFits m → (get_of_bytes (get_bytes m) ≡ m) × (length (get_bytes m) ≡ get_size)
unfolding get_of_bytes get_bytes
get_roundtrip m h =
    ground (
      arith,
      word_lem m.buffer_len,
      word_lem m.decompressed_len,
      take_whole entry_len_limit m.buffer,
    )

-- Of a get message, the text alone.
pub get_text_roundtrip :
    (m : GetMsg)
    → m.buffer_len < 2 ^ 32
    → length m.buffer ≡ entry_len_limit
    → ((get_of_bytes (get_bytes m)).buffer_len ≡ m.buffer_len)
      × ((get_of_bytes (get_bytes m)).buffer ≡ m.buffer)
      × (length (get_bytes m) ≡ get_size)
unfolding get_of_bytes get_bytes
get_text_roundtrip m h k =
    ground (arith, word_lem m.buffer_len, take_whole entry_len_limit m.buffer)

-- The two queries encoded in the size of a read never meet: that for a slot is told from that for a
-- pid, and each gives back what was encoded.
pub query_roundtrip :
    (id pid : ℕ)
    → id < buf_max_count
    → pid < 2 ^ 31
    → (is_pid_query (encode_id id) ≡ true)
      × (is_correct_id (encode_id id) ≡ true)
      × (decode_id (encode_id id) ≡ id)
      × (is_pid_query (encode_pid pid) ≡ false)
      × (decode_pid (encode_pid pid) ≡ pid)
unfolding is_pid_query is_correct_id encode_id decode_id encode_pid decode_pid
query_roundtrip id pid h k = (ground arith, ground arith, refl, ground arith, omega arith)
