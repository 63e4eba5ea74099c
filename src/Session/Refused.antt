-- ===== src/Session/Refused.antt =====
-- paste_from_clipboard where it is refused.
use clipboard.Prelude.{
  ℕ, ◌^◌, ◌≤◌, ◌<◌, ◌≡◌, refl, ◌⊎◌, inl, inr, arith, true, false, lt→ltb, some, List, ℤ, length, ap,
  sym, subst, ◌∙◌, done, Returns, is_negative, minus_one, to_uint, to_uint_small, ne→==_false,
  Bool-cases, le→ltb_false,
}
use clipboard.Memory.{Allocator}
use clipboard.Protocol.{LockMsg, buf_max_count, lock_size, lock_bytes, encode_id}
use clipboard.Protocol.Codec.{LockFits, lock_roundtrip}
use clipboard.Clipboard.{Clipboard, clipboard_write}
use clipboard.Clipboard.Invariant.{IsValid}
use clipboard.Clipboard.View.{Item, view, release, is_free_for}
use clipboard.Clipboard.View.Refine.{◌≈◌, lock_refines}
use clipboard.Clipboard.Requests.{write_lock}
use clipboard.Libc.{Os, o_rdwr, check_if_ancestor, lock_and_fetch, paste_from_clipboard}
use clipboard.Session.{Device, brings}
use clipboard.Session.Paste.{asked, Permitted, check_aside, owner_read}

module _ {W : Type 0} (os : Os W) (a : Allocator) (dev : Device os a) where
  -- Why a paste of an item in the store is refused before anything is locked: the device does not open,
  -- the number is out of range, or the process manager denies it.
  abbrev pub Refused : ℕ → W → Type 0
  Refused id w =
      (is_negative (os.open_clipboard o_rdwr w).0 ≡ true)
      ⊎ ((buf_max_count ≤ id)
          ⊎ ((it : Item) × (0 < id)
              × (id < buf_max_count)
              × (it.owner < 2 ^ 31)
              × (view (dev.clip w) id ≡ some it)
              × ((check_if_ancestor os it.owner (os.getpid w) (asked os a dev id w)).0 ≡ 0)))

  refused_open :
      (id : ℕ) (buffer : List ℕ) (buffer_len : ℕ) (w : W)
      → is_negative (os.open_clipboard o_rdwr w).0 ≡ true
      → paste_from_clipboard os id buffer buffer_len w
        ≡ done (to_uint minus_one, buffer, (os.open_clipboard o_rdwr w).1)
  unfolding paste_from_clipboard
  refused_open id buffer buffer_len w closed = rw closed

  refused_range :
      (id : ℕ) (buffer : List ℕ) (buffer_len : ℕ) (w : W)
      → buf_max_count ≤ id
      → paste_from_clipboard os id buffer buffer_len w
        ≡ done (to_uint minus_one, buffer, (os.open_clipboard o_rdwr w).1)
  unfolding paste_from_clipboard
  refused_range id buffer buffer_len w out =
      elim (Bool-cases (is_negative (os.open_clipboard o_rdwr w).0)) [
        | inl closed ↦ rw closed
        | inr opens ↦ rw (opens, le→ltb_false id buf_max_count out)
      ]

  -- A paste whose device does not open, whose number is not below 100, or whose item, under a number
  -- other than 0 and with an owner's pid below 2^31, the process manager does not let the process
  -- read, returns -1 and leaves the caller's buffer and the driver's state alone.
  pub paste-Refused :
      (id : ℕ) (buffer : List ℕ) (buffer_len : ℕ) (w : W)
      → Refused id w
      → Returns
          (paste_from_clipboard os id buffer buffer_len w)
          λ x. (x.0 ≡ to_uint minus_one) × (x.1 ≡ buffer) × (dev.clip x.2 ≡ dev.clip w)
  unfolding paste_from_clipboard
  paste-Refused id buffer buffer_len w (inl closed) = (
    (to_uint minus_one, buffer, (os.open_clipboard o_rdwr w).1),
    refused_open id buffer buffer_len w closed,
    (refl, refl, dev.clip-open o_rdwr w),
  )
  paste-Refused id buffer buffer_len w (inr (inl out)) = (
    (to_uint minus_one, buffer, (os.open_clipboard o_rdwr w).1),
    refused_range id buffer buffer_len w out,
    (refl, refl, dev.clip-open o_rdwr w),
  )
  paste-Refused id buffer buffer_len w (inr (inr (it, some_bytes, l, owner_small, seen, denied))) =
      elim (Bool-cases (is_negative (os.open_clipboard o_rdwr w).0)) [
        | inl closed ↦ (
          (to_uint minus_one, buffer, (os.open_clipboard o_rdwr w).1),
          refused_open id buffer buffer_len w closed,
          (refl, refl, dev.clip-open o_rdwr w),
        )
        | inr opens ↦
            let fd = (os.open_clipboard o_rdwr w).0 in
            let w1 = (os.open_clipboard o_rdwr w).1 in
            let w2 = (os.read fd (encode_id id) w1).2 in
            let (ret_is, clip2, opened2, pid2) =
              owner_read os a dev fd id it w1 (dev.open_gives o_rdwr w opens) some_bytes l
                owner_small (ap (λ c. view c id) (dev.clip-open o_rdwr w) ∙ seen) in
            let (clip3, _, _) = check_aside os a dev fd it.owner (os.getpid w) w2 opened2 in
            (
              (to_uint minus_one, buffer, (check_if_ancestor os it.owner (os.getpid w) w2).1),
              rw (
                opens,
                lt→ltb id buf_max_count l,
                ret_is,
                to_uint_small it.owner (omega arith),
                pid2 ∙ dev.getpid-open o_rdwr w,
                denied,
              ),
              (refl, refl, clip3 ∙ clip2 ∙ dev.clip-open o_rdwr w),
            )
      ]

  lock_refused :
      (fd : ℤ) (pid id : ℕ) (buffer : List ℕ) (buffer_len : ℕ) (w : W)
      → dev.is_open fd w ≡ true
      → pid < 2 ^ 30
      → id < buf_max_count
      → buffer_len < 2 ^ 32
      → IsValid (dev.clip w)
      → is_free_for buffer_len (release pid (view (dev.clip w)) id) ≡ false
      → Returns (lock_and_fetch os fd pid id buffer buffer_len w) λ x.
        (x.0 ≡ to_uint minus_one)
        × (x.1 ≡ buffer)
        × IsValid (dev.clip x.2)
        × (view (dev.clip x.2) ≈ release pid (view (dev.clip w)))
  unfolding lock_and_fetch
  lock_refused fd pid id buffer buffer_len w opened small l word v taken =
      elim (lock_refines m v l) [
        | inl (d, free, runs, v', after) ↦ absurd (cc (taken, free))
        | inr (d, still_taken, runs, v', after) ↦
            let (ret_is, clip_is, _, _) =
              dev.write_reaches fd (lock_bytes m) w minus_one d opened (omega (arith, size)) (
                ap (λ n. clipboard_write a (brings (lock_bytes m)) n (dev.clip w)) size
                ∙ write_lock a (brings (lock_bytes m)) (dev.clip w) m fits refl
                ∙ runs) in
            (
              (to_uint minus_one, buffer, (os.write fd (lock_bytes m) w).1),
              rw ret_is,
              (
                refl,
                refl,
                subst IsValid (sym clip_is) v',
                λ i li. ap (λ c. view c i) clip_is ∙ after i li,
              ),
            )
      ]
    where
      m : LockMsg
      m = record { pid = pid; id = id; buffer_len = buffer_len }

      fits : LockFits m
      fits = (omega arith, omega arith, word)

      size : length (lock_bytes m) ≡ lock_size
      size = (lock_roundtrip m fits).1

  -- On a valid state of the driver the device opens for a paste, by a process whose pid is below 2^30
  -- and that the process manager permits, of an item under a number from 1 to 99, with an owner's pid
  -- below 2^31 and a buffer length of 32 bits. If another process holds the item, or its decompressed
  -- text does not fit the buffer, the paste returns -1 and leaves the caller's buffer alone; the
  -- state stays valid. No text is lost, but what the process held before is given up.
  pub paste_locked_out :
      (id : ℕ) (it : Item) (buffer : List ℕ) (buffer_len : ℕ) (w : W)
      → is_negative (os.open_clipboard o_rdwr w).0 ≡ false
      → 0 < id
      → id < buf_max_count
      → os.getpid w < 2 ^ 30
      → buffer_len < 2 ^ 32
      → it.owner < 2 ^ 31
      → IsValid (dev.clip w)
      → view (dev.clip w) id ≡ some it
      → is_free_for buffer_len (release (os.getpid w) (view (dev.clip w)) id) ≡ false
      → Permitted os a dev it.owner (os.getpid w) id w
      → Returns (paste_from_clipboard os id buffer buffer_len w) λ x.
        (x.0 ≡ to_uint minus_one)
        × (x.1 ≡ buffer)
        × IsValid (dev.clip x.2)
        × (view (dev.clip x.2) ≈ release (os.getpid w) (view (dev.clip w)))
  unfolding paste_from_clipboard
  paste_locked_out id it buffer buffer_len w opens some_bytes l small word owner_small v seen taken
        permitted =
      let fd = (os.open_clipboard o_rdwr w).0 in
      let w1 = (os.open_clipboard o_rdwr w).1 in
      let w2 = (os.read fd (encode_id id) w1).2 in
      let w3 = (check_if_ancestor os it.owner (os.getpid w) w2).1 in
      let (ret_is, clip2, opened2, pid2) =
        owner_read os a dev fd id it w1 (dev.open_gives o_rdwr w opens) some_bytes l owner_small
          (ap (λ c. view c id) (dev.clip-open o_rdwr w) ∙ seen) in
      let (clip3, opened3, _) = check_aside os a dev fd it.owner (os.getpid w) w2 opened2 in
      let same : dev.clip w3 ≡ dev.clip w = clip3 ∙ clip2 ∙ dev.clip-open o_rdwr w in
      let (x, runs, (minus, kept, v', after)) =
        lock_refused fd (os.getpid w) id buffer buffer_len w3 opened3 small l word
          (subst IsValid (sym same) v)
          (ap (λ (c : Clipboard). is_free_for buffer_len (release (os.getpid w) (view c) id)) same
            ∙ taken) in
      (
        x,
        rw
            (
              opens,
              lt→ltb id buf_max_count l,
              ret_is,
              to_uint_small it.owner (omega arith),
              pid2 ∙ dev.getpid-open o_rdwr w,
              ne→==_false (check_if_ancestor os it.owner (os.getpid w) w2).0 0 permitted,
            )
            runs,
        (
          minus,
          kept,
          v',
          λ i li. after i li ∙ ap (λ (c : Clipboard). release (os.getpid w) (view c) i) same,
        ),
      )
