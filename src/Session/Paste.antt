-- ===== src/Session/Paste.antt =====
-- paste_from_clipboard where it gives the text.
use clipboard.Prelude.{
  ℕ, ◌^◌, ◌≤◌, ◌<◌, ◌≡◌, ◌≢◌, arith, true, false, lt→ltb, some, none, List, ℤ, length, ap, sym,
  subst, ◌∙◌, Returns, is_negative, to_int, to_uint_small, to_int_small, update, pos, ne→==_false,
}
use clipboard.Memory.{Allocator}
use clipboard.Protocol.{buf_max_count, encode_id}
use clipboard.Clipboard.{Clipboard}
use clipboard.Clipboard.Invariant.{IsValid}
use clipboard.Clipboard.View.{Item, view, release}
use clipboard.Clipboard.Requests.{read_owner}
use clipboard.Libc.{Os, o_rdwr, check_if_ancestor, paste_from_clipboard}
use clipboard.Session.{Device, accept}
use clipboard.Session.Lock.{Offered, Pasted, lock_and_fetch_lem}

encode_id_range :
    (id : ℕ) → 0 < id → id < buf_max_count → (0 < encode_id id) × (encode_id id < 2 ^ 31)
unfolding encode_id
encode_id_range id h l = (h, omega arith)

module _ {W : Type 0} (os : Os W) (a : Allocator) (dev : Device os a) where
  pub check_aside :
      (fd : ℤ) (p q : ℕ) (w : W)
      → dev.is_open fd w ≡ true
      → (dev.clip (check_if_ancestor os p q w).1 ≡ dev.clip w)
        × (dev.is_open fd (check_if_ancestor os p q w).1 ≡ true)
        × (os.getpid (check_if_ancestor os p q w).1 ≡ os.getpid w)
  unfolding check_if_ancestor
  check_aside fd p q w opened = dev.syscall_aside fd p q w opened

  -- The system when paste_from_clipboard, called on `w`, asks the process manager.
  abbrev pub asked : ℕ → W → W
  asked id w =
      (os.read (os.open_clipboard o_rdwr w).0 (encode_id id) (os.open_clipboard o_rdwr w).1).2

  -- Asked by a paste of that entry, the process manager lets the process read what the owner wrote.
  abbrev pub Permitted : ℕ → ℕ → ℕ → W → Type 0
  Permitted owner pid id w = (check_if_ancestor os owner pid (asked id w)).0 ≢ 0

  -- The first read: the owner's pid.
  pub owner_read :
      (fd : ℤ) (id : ℕ) (it : Item) (w : W)
      → dev.is_open fd w ≡ true
      → 0 < id
      → id < buf_max_count
      → it.owner < 2 ^ 31
      → view (dev.clip w) id ≡ some it
      → ((os.read fd (encode_id id) w).0 ≡ pos it.owner)
        × (dev.clip (os.read fd (encode_id id) w).2 ≡ dev.clip w)
        × (dev.is_open fd (os.read fd (encode_id id) w).2 ≡ true)
        × (os.getpid (os.read fd (encode_id id) w).2 ≡ os.getpid w)
  owner_read fd id it w opened some_bytes l small seen =
      let (ret_is, _, clip_is, opened', pid_is) =
        dev.read_reaches fd (encode_id id) w
          (record { ret = to_int it.owner; sent = none; after = dev.clip w }) opened
          (encode_id_range id some_bytes l).0 (encode_id_range id some_bytes l).1
          (read_owner accept (dev.local_msg w) id (dev.clip w) it l seen) in
      (ret_is ∙ to_int_small it.owner small, clip_is, opened', pid_is)

  -- On a valid state of the driver a process whose pid is below 2^30 pastes an item that is in the
  -- store, under a number other than 0, that nobody holds, and whose text fits the buffer in both
  -- forms; the owner's pid is below 2^31, and the process manager permits it. If the device opens, it
  -- gets the text at the front of its buffer and 0 as the result; the item is gone from the store,
  -- and what the process held before is given up.
  pub paste_lem :
      (id : ℕ) (it : Item) (buffer : List ℕ) (buffer_len : ℕ) (w : W)
      → is_negative (os.open_clipboard o_rdwr w).0 ≡ false
      → 0 < id
      → id < buf_max_count
      → os.getpid w < 2 ^ 30
      → buffer_len < 2 ^ 32
      → it.owner < 2 ^ 31
      → IsValid (dev.clip w)
      → view (dev.clip w) id ≡ some it
      → Offered buffer_len it
      → Permitted it.owner (os.getpid w) id w
      → length it.text ≤ length buffer
      → Returns
          (paste_from_clipboard os id buffer buffer_len w)
          (Pasted os a dev (os.getpid w) id it buffer w)
  unfolding paste_from_clipboard
  paste_lem id it buffer buffer_len w opens some_bytes l small word owner_small v seen offered
        permitted room =
      let fd = (os.open_clipboard o_rdwr w).0 in
      let w1 = (os.open_clipboard o_rdwr w).1 in
      let w2 = (os.read fd (encode_id id) w1).2 in
      let w3 = (check_if_ancestor os it.owner (os.getpid w) w2).1 in
      let seen1 : view (dev.clip w1) id ≡ some it =
        ap (λ c. view c id) (dev.clip-open o_rdwr w) ∙ seen in
      let (ret_is, clip2, opened2, pid2) =
        owner_read fd id it w1 (dev.open_gives o_rdwr w opens) some_bytes l owner_small seen1 in
      let pid2' : os.getpid w2 ≡ os.getpid w = pid2 ∙ dev.getpid-open o_rdwr w in
      let (clip3, opened3, _) = check_aside fd it.owner (os.getpid w) w2 opened2 in
      let same : dev.clip w3 ≡ dev.clip w = clip3 ∙ clip2 ∙ dev.clip-open o_rdwr w in
      let (x, runs, (zero_ret, text, v', after)) =
        lock_and_fetch_lem os a dev fd (os.getpid w) id it buffer buffer_len w3 opened3 small l word
          (subst IsValid (sym same) v) (ap (λ c. view c id) same ∙ seen) offered room in
      (
        x,
        rw
            (
              opens,
              lt→ltb id buf_max_count l,
              ret_is,
              to_uint_small it.owner (omega arith),
              pid2',
              ne→==_false (check_if_ancestor os it.owner (os.getpid w) w2).0 0 permitted,
            )
            runs,
        (
          zero_ret,
          text,
          v',
          λ i li.
              after i li
              ∙ ap (λ (c : Clipboard). update (release (os.getpid w) (view c)) id none i) same,
        ),
      )
