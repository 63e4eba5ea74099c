-- ===== src/Clipboard/Others.antt =====
-- What one process holds, while requests come, in any order, that do not carry its pid.
use clipboard.Prelude.{
  zero, suc, ℕ, ◌<◌, ◌≡◌, refl, ◌≢◌, inl, inr, false, ◌||◌, ◌==◌, Option, none, some, List, length,
  update_ne, ℤ, pos, negsuc, minus_one, Returns, is_negative, to_int, Bool-cases, eq_cases, eq→==,
  ne→==_false, load_within, ap, sym, ◌∙◌,
}
use clipboard.Memory.{Allocator}
use clipboard.Protocol.{
  LockMsg, GetMsg, lock_size, set_size, buf_max_count, entry_len_limit, is_pid_query, is_correct_id,
  decode_id, decode_pid, lock_of_bytes, set_of_bytes,
}
use clipboard.Clipboard.{
  Clipboard, Request, open_device, close_device, read_device, write_device, ok, handle, of_read,
  clipboard_open, clipboard_close, clipboard_read, clipboard_write, answer_get, dispatch,
  dispatch_copied, do_clipboard_set, do_clipboard_get, do_clipboard_lock,
}
use clipboard.Clipboard.Invariant.{IsValid}
use clipboard.Clipboard.Reach.{Sound, SoundWrite, in_range}
use clipboard.Clipboard.View.{Item, Store, view, release, is_free_for}
use clipboard.Clipboard.View.Refine.{set_refines, get_refines, lock_refines}

-- The item under a number, which a process holds.
abbrev pub Holding : ℕ → ℕ → Item → Clipboard → Type 0
Holding pid id it c =
    IsValid c × (id < buf_max_count) × (view c id ≡ some it) × (it.holder ≡ some pid)

-- The request does not carry the pid of the process: its size does not encode it for a read of a
-- text, and it stands in no lock message. The driver takes the pid from the request and does not ask
-- who sends it.
abbrev pub Apart : ℕ → Request → Type 0
Apart pid open_device = Unit {0}
Apart pid close_device = Unit {0}
Apart pid (read_device copy_to msg size) = is_pid_query size ≡ false → decode_pid size ≢ pid
Apart pid (write_device copy_from size) =
    size ≡ lock_size → (lock_of_bytes (copy_from size).1).pid ≢ pid

kept_by_release :
    (s : Store) (pid other id : ℕ) (it : Item)
    → other ≢ pid
    → s id ≡ some it
    → it.holder ≡ some pid
    → release other s id ≡ some it
kept_by_release s pid other id it ne seen held =
    rw (seen, held, ne→==_false pid other (λ e. ne (sym e)))
      (ap (λ h. some (record it { holder = h })) held)

not_free :
    (n pid : ℕ) (o : Option Item) (it : Item)
    → o ≡ some it
    → it.holder ≡ some pid
    → is_free_for n o ≡ false
not_free n pid o it seen held = rw (seen, held)

module _ (pid id : ℕ) (it : Item) {c : Clipboard} where
  set_keeps :
      (a : Allocator) (bytes : List ℕ)
      → Holding pid id it c
      → SoundWrite a set_size bytes c
      → Returns (do_clipboard_set a (set_of_bytes bytes) c) λ x. Holding pid id it x.1
  set_keeps a bytes (v, l, seen, held) s =
      let (sound, (p, placed)) = s.1 refl in
      elim (set_refines a p (set_of_bytes bytes) v sound placed) [
        | inl (full, runs) ↦ ((minus_one, c), runs, (v, l, seen, held))
        | inr (id', d, l', free, runs, v', after) ↦
            let ne : id ≢ id' = λ e. cc (ap (view c) e, seen, free) in
            ((pos id', d), runs, (v', l, after id l ∙ update_ne (view c) id' _ id ne ∙ seen, held))
      ]

  lock_keeps :
      (m : LockMsg)
      → Holding pid id it c
      → m.id < buf_max_count
      → m.pid ≢ pid
      → Returns (do_clipboard_lock m c) λ x. Holding pid id it x.1
  lock_keeps m (v, l, seen, held) lm ne =
      let released = kept_by_release (view c) pid m.pid id it ne seen held in
      elim (lock_refines m v lm) [
        | inl (d, free, runs, v', after) ↦
            let other : id ≢ m.id = λ e. cc (
              free,
              not_free m.buffer_len pid (release m.pid (view c) m.id) it
                  (ap (release m.pid (view c)) (sym e) ∙ released) held,
            ) in
            (
              (ok, d),
              runs,
              (
                v',
                l,
                after id l ∙ update_ne (release m.pid (view c)) m.id _ id other ∙ released,
                held,
              ),
            )
        | inr (d, taken, runs, v', after) ↦
            ((minus_one, d), runs, (v', l, after id l ∙ released, held))
      ]

  get_keeps :
      (msg : GetMsg) (other : ℕ)
      → Holding pid id it c
      → length msg.buffer ≡ entry_len_limit
      → other ≢ pid
      → Returns (do_clipboard_get msg other c) λ x. Holding pid id it x.2
  get_keeps msg other (v, l, seen, held) room ne = elim (get_refines msg other v room) [
    | inl (id', it', msg', d, l', seen', held', runs, _, _, _, v', after) ↦
        let apart : id ≢ id' = λ e. ne (same_holder id' it' (ap (view c) e) seen' held') in
        (
          (ok, msg', d),
          runs,
          (v', l, after id l ∙ update_ne (view c) id' none id apart ∙ seen, held),
        )
    | inr (none_held, runs) ↦ ((minus_one, msg, c), runs, (v, l, seen, held))
  ]
    where
      same_holder :
          (id' : ℕ) (it' : Item)
          → view c id ≡ view c id'
          → view c id' ≡ some it'
          → it'.holder ≡ some other
          → other ≡ pid
      same_holder id' it' e seen' held' = cc (seen, seen', e, held, held')

  write_keeps :
      (a : Allocator) (size : ℕ) (copied : ℤ × List ℕ)
      → Holding pid id it c
      → SoundWrite a size copied.1 c
      → (size ≡ lock_size → (lock_of_bytes copied.1).pid ≢ pid)
      → Returns (dispatch_copied a size copied c) λ x. Holding pid id it x.1
  unfolding dispatch_copied dispatch
  write_keeps a size (pos (suc n), bytes) h s apart = ((pos (suc n), c), refl, h)
  write_keeps a size (negsuc n, bytes) h s apart = ((negsuc n, c), refl, h)
  write_keeps a size (pos zero, bytes) h s apart = elim (eq_cases size lock_size) [
    | inl l ↦ rw (eq→== size lock_size l) (lock_keeps (lock_of_bytes bytes) h (s.0 l) (apart l))
    | inr n ↦ elim (eq_cases size set_size) [
      | inl k ↦
          rw (ne→==_false size lock_size n, eq→== size set_size k) (set_keeps a bytes h (rw k at s))
      | inr m ↦
          rw (ne→==_false size lock_size n, ne→==_false size set_size m) ((minus_one, c), refl, h)
    ]
  ]

  read_keeps :
      (copy_to : List ℕ → ℤ) (msg : GetMsg) (size : ℕ)
      → Holding pid id it c
      → length msg.buffer ≡ entry_len_limit
      → (is_pid_query size ≡ false → decode_pid size ≢ pid)
      → Returns (clipboard_read copy_to msg size c) λ r. Holding pid id it r.after
  unfolding clipboard_read answer_get
  read_keeps copy_to msg size h room apart = elim (Bool-cases (is_pid_query size)) [
    | inl query ↦ elim (Bool-cases (is_correct_id size)) [
      | inl correct ↦
          rw
            (
              query,
              correct,
              load_within buf_max_count c.entries (decode_id size) (in_range size correct),
            )
            (
              record {
                ret = to_int (c.entries (decode_id size)).source_pid;
                sent = none;
                after = c;
              },
              refl,
              h,
            )
      | inr wrong ↦ rw (query, wrong) (record { ret = minus_one; sent = none; after = c }, refl, h)
    ]
    | inr get ↦ elim (Bool-cases (is_negative (to_int (decode_pid size)))) [
      | inl negative ↦
          rw (get, negative) (record { ret = minus_one; sent = none; after = c }, refl, h)
      | inr fine ↦
          let (got, runs, h') = get_keeps msg (decode_pid size) h room (apart get) in
          rw (get, fine, runs) (answer_get copy_to got, refl, answered got h')
    ]
  ]
    where
      answered :
          (got : ℤ × GetMsg × Clipboard)
          → Holding pid id it got.2
          → Holding pid id it (answer_get copy_to got).after
      answered (pos zero, msg', d) h' = h'
      answered (pos (suc n), msg', d) h' = h'
      answered (negsuc n, msg', d) h' = h'

  -- A sound request that does not carry the pid of the process ends with a value, and leaves the
  -- item as it is, in the hands of the process.
  pub handle_keeps :
      (a : Allocator) (q : Request)
      → Holding pid id it c
      → Sound a q c
      → Apart pid q
      → Returns (handle a q c) λ x. Holding pid id it x.1
  unfolding handle clipboard_open clipboard_close clipboard_write
  handle_keeps a open_device h s apart = ((ok, c), refl, h)
  handle_keeps a close_device h s apart = ((ok, c), refl, h)
  handle_keeps a (read_device copy_to msg size) h s apart =
      let (r, runs, h') = read_keeps copy_to msg size h s apart in (of_read r, rw runs, h')
  handle_keeps a (write_device copy_from size) h s apart =
      elim (Bool-cases (size == lock_size || size == set_size)) [
        | inl right ↦ rw right (write_keeps a size (copy_from size) h s apart)
        | inr wrong ↦ rw wrong ((minus_one, c), refl, h)
      ]
