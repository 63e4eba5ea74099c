-- ===== src/Libc.antt =====
-- copy_paste_clipboard.c and check_if_ancestor.c of the C library (new/usr/src/lib/libc/misc).
-- The system calls that they make are the kernel's and the file server's: a parameter.
pub mod Size
pub mod Copy
use clipboard.Prelude.{
  ℕ, zero, suc, ◌+◌, ◌-◌, ◌*◌, ◌%◌, ◌^◌, ◌≡◌, Bool, true, false, not, ◌&&◌, ◌==◌, ltb, leb,
  if◌then◌else◌, List, [], ◌∷◌, ◌++◌, take, drop, length, replicate, ℤ, minus_one, is_negative,
  to_int, to_uint, Run, done, ◌>>=◌,
}
use clipboard.Memory.{memcpy}
use clipboard.Protocol.{
  LockMsg, GetMsg, SetMsg, lock_size, get_size, set_size, entry_len_limit, buf_max_count, encode_id,
  encode_pid, lock_bytes, set_bytes, get_of_bytes,
}
use clipboard.Pm.CallNr.{pm_checkancestor}

-- isdigit of <ctype.h>, on a byte of ASCII text.
abbrev pub is_digit : ℕ → Bool
is_digit c = leb 48 c && leb c 57

-- The results are the new `*len` and `*counter`.
unfoldable pub include_char : ℕ → ℕ → ℕ → ℕ × ℕ
include_char len counter pos =
    if counter == 0 && ltb 0 pos
    then ((len + 1) % 2 ^ 32, counter)
    else ((len + counter) % 2 ^ 32, 0)

-- The loop over buffer[pos..buffer_len), and the last call behind it.
unfoldable pub decompressed_size_from : List ℕ → ℕ → ℕ → ℕ → ℕ
decompressed_size_from [] pos len current = (include_char len current pos).0
decompressed_size_from (c ∷ buffer) pos len current =
    let s =
      (if not (is_digit c)
        then include_char len current pos
        else (len, (10 * current + c - 48) % 2 ^ 32)) in
    decompressed_size_from buffer (pos + 1) s.0 s.1

-- The list is the text, of buffer_len bytes.
unfoldable pub expected_decompressed_size : List ℕ → ℕ
expected_decompressed_size buffer = decompressed_size_from buffer 0 0 0

pub data Access : Type 0 where
  o_rdwr o_wronly : Access

-- The system calls on a state `W` of the system. `read` gives the bytes that it stored.
pub record Os (W : Type 0) : Type 0 where
  pub open_clipboard : Access → W → ℤ × W
  pub read : ℤ → ℕ → W → ℤ × List ℕ × W
  pub write : ℤ → List ℕ → W → ℤ × W
  pub close : ℤ → W → ℤ × W
  pub getpid : W → ℕ
  pub syscall : ℕ → ℕ → ℕ → W → ℤ × W

module _ {W : Type 0} (os : Os W) where
  -- The result is a uint8_t.
  unfoldable pub check_if_ancestor : ℕ → ℕ → W → ℕ × W
  check_if_ancestor pid1 pid2 w =
      let (r, w') = os.syscall pm_checkancestor pid1 pid2 w in (to_uint r % 2 ^ 8, w')

  -- The message that is sent, its buffer over the uninitialised bytes of the local.
  unfoldable pub set_msg : List ℕ → List ℕ → ℕ → W → Run SetMsg
  set_msg junk buffer buffer_len w = do
    text ← memcpy junk buffer buffer_len
    done (record {
      pid = os.getpid w;
      buffer_len = buffer_len;
      decompressed_len = expected_decompressed_size (take buffer_len buffer);
      buffer = text;
    })

  unfoldable pub copy_to_clipboard : List ℕ → List ℕ → ℕ → W → Run (ℕ × W)
  copy_to_clipboard junk buffer buffer_len w =
      if ltb entry_len_limit buffer_len then done (to_uint minus_one, w) else (do
        let (fd, w1) = os.open_clipboard o_wronly w
        if is_negative fd then done (to_uint minus_one, w1) else (do
          ms ← set_msg junk buffer buffer_len w1
          let (ret, w2) = os.write fd (set_bytes ms) w1
          let (_, w3) = os.close fd w2
          done (to_uint ret, w3)))

  -- The end of `paste_from_clipboard`, once the slot is locked: the message is read over zeros, and
  -- its text copied to the caller's buffer.
  unfoldable pub fetch : ℤ → ℕ → List ℕ → W → Run (ℕ × List ℕ × W)
  fetch fd pid buffer w =
      let (ret, bytes, w1) = os.read fd (encode_pid pid) w in
      if is_negative ret then done (to_uint ret, buffer, w1) else (do
        let mg = get_of_bytes (bytes ++ drop (length bytes) (replicate get_size 0))
        buffer' ← memcpy buffer mg.buffer mg.buffer_len
        let (_, w2) = os.close fd w1
        done (to_uint ret, buffer', w2))

  -- The lock request of `paste_from_clipboard`, once the caller may read the entry.
  unfoldable pub lock_and_fetch : ℤ → ℕ → ℕ → List ℕ → ℕ → W → Run (ℕ × List ℕ × W)
  lock_and_fetch fd pid id buffer buffer_len w =
      let (ret, w1) =
        os.write fd (lock_bytes (record { pid = pid; id = id; buffer_len = buffer_len })) w in
      if is_negative ret then done (to_uint ret, buffer, w1) else fetch fd pid buffer w1

  -- The results are the value returned and the caller's buffer. What the first read stores in the
  -- local message is overwritten before it is used.
  unfoldable pub paste_from_clipboard : ℕ → List ℕ → ℕ → W → Run (ℕ × List ℕ × W)
  paste_from_clipboard id buffer buffer_len w =
      let (fd, w1) = os.open_clipboard o_rdwr w in
      if is_negative fd
      then done (to_uint minus_one, buffer, w1)
      else if not (ltb id buf_max_count)
      then done (to_uint minus_one, buffer, w1)
      else (let (source_pid, _, w2) = os.read fd (encode_id id) w1 in
          if is_negative source_pid
          then done (to_uint minus_one, buffer, w2)
          else (let (allowed, w3) = check_if_ancestor (to_uint source_pid) (os.getpid w2) w2 in
              if allowed == 0
              then done (to_uint minus_one, buffer, w3)
              else lock_and_fetch fd (os.getpid w2) id buffer buffer_len w3))
