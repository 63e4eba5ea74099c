-- ===== src/Clipboard/Reach.antt =====
-- The states that the driver reaches, and that it never faults in them.
use clipboard.Prelude.{
  ℕ, zero, suc, ◌<◌, ◌≡◌, refl, inl, inr, true, ◌||◌, ◌==◌, Run, done, Returns, done_injective, sym,
  ap, subst, ◌∙◌, ℤ, pos, negsuc, minus_one, none, some, List, length, is_negative, to_int,
  Bool-cases, eq_cases, load_within, eq→==, ne→==_false, ltb→lt,
}
use clipboard.Memory.{Allocator, no_blocks}
use clipboard.Protocol.{
  GetMsg, lock_size, set_size, buf_max_count, entry_len_limit, is_pid_query, is_correct_id,
  decode_id, decode_pid, lock_of_bytes, set_of_bytes,
}
use clipboard.Clipboard.{
  Clipboard, Request, open_device, close_device, read_device, write_device, ok, handle, of_read,
  clipboard_open, clipboard_close, clipboard_init, clipboard_read, clipboard_write, answer_get,
  dispatch, dispatch_copied, do_clipboard_lock, do_clipboard_set,
}
use clipboard.Clipboard.Invariant.{IsValid}
use clipboard.Clipboard.Fill.{IsSound}
use clipboard.Clipboard.Init.{clipboard_init_lem}
use clipboard.Clipboard.View.Refine.{get_refines, lock_refines, set_refines}

-- What the driver relies on without a test: the slot number of a lock message, the text length of a
-- set message, and a malloc that succeeds. A read may encode anything in its size.
abbrev pub SoundWrite : Allocator → ℕ → List ℕ → Clipboard → Type 0
SoundWrite a size bytes c =
    (size ≡ lock_size → (lock_of_bytes bytes).id < buf_max_count)
    × (size ≡ set_size
        → IsSound (set_of_bytes bytes)
          × ((p : ℕ) × (a.place c.heap (set_of_bytes bytes).buffer_len ≡ some p)))

abbrev pub Sound : Allocator → Request → Clipboard → Type 0
Sound a open_device c = Unit {0}
Sound a close_device c = Unit {0}
Sound a (read_device copy_to msg size) c = length msg.buffer ≡ entry_len_limit
Sound a (write_device copy_from size) c = SoundWrite a size (copy_from size).1 c

abbrev Ends : Run (ℤ × Clipboard) → Type 0
Ends r = Returns r λ x. IsValid x.1

set_total :
    (a : Allocator) {c : Clipboard} (bytes : List ℕ)
    → IsValid c
    → SoundWrite a set_size bytes c
    → Ends (do_clipboard_set a (set_of_bytes bytes) c)
set_total a {c} bytes v s =
    let (sound, (p, placed)) = s.1 refl in
    elim (set_refines a p (set_of_bytes bytes) v sound placed) [
      | inl (full, e) ↦ ((minus_one, c), e, v)
      | inr (id, d, l, em, e, v', after) ↦ ((pos id, d), e, v')
    ]

lock_total :
    {c : Clipboard} (bytes : List ℕ)
    → IsValid c
    → (lock_of_bytes bytes).id < buf_max_count
    → Ends (do_clipboard_lock (lock_of_bytes bytes) c)
lock_total bytes v h = elim (lock_refines (lock_of_bytes bytes) v h) [
  | inl (d, g, e, v', after) ↦ ((ok, d), e, v')
  | inr (d, g, e, v', after) ↦ ((minus_one, d), e, v')
]

dispatch_total :
    (a : Allocator) {c : Clipboard} (size : ℕ) (copied : ℤ × List ℕ)
    → IsValid c
    → SoundWrite a size copied.1 c
    → Ends (dispatch_copied a size copied c)
unfolding dispatch_copied dispatch
dispatch_total a {c} size (pos (suc n), bytes) v s = ((pos (suc n), c), refl, v)
dispatch_total a {c} size (negsuc n, bytes) v s = ((negsuc n, c), refl, v)
dispatch_total a {c} size (pos zero, bytes) v s = elim (eq_cases size lock_size) [
  | inl l ↦ rw (eq→== size lock_size l) (lock_total bytes v (s.0 l))
  | inr n ↦ elim (eq_cases size set_size) [
    | inl k ↦
        rw (ne→==_false size lock_size n, eq→== size set_size k) (set_total a bytes v (rw k at s))
    | inr m ↦
        rw (ne→==_false size lock_size n, ne→==_false size set_size m) ((minus_one, c), refl, v)
  ]
]

write_total :
    (a : Allocator) {c : Clipboard} (copy_from : ℕ → ℤ × List ℕ) (size : ℕ)
    → IsValid c
    → SoundWrite a size (copy_from size).1 c
    → Ends (clipboard_write a copy_from size c)
unfolding clipboard_write
write_total a {c} copy_from size v s = elim (Bool-cases (size == lock_size || size == set_size)) [
  | inl right ↦ rw right (dispatch_total a size (copy_from size) v s)
  | inr wrong ↦ rw wrong ((minus_one, c), refl, v)
]

pub in_range : (n : ℕ) → is_correct_id n ≡ true → decode_id n < buf_max_count
unfolding is_correct_id decode_id
in_range n e = ltb→lt n buf_max_count e

read_total :
    {c : Clipboard} (copy_to : List ℕ → ℤ) (msg : GetMsg) (size : ℕ)
    → IsValid c
    → length msg.buffer ≡ entry_len_limit
    → Returns (clipboard_read copy_to msg size c) λ r. IsValid r.after
unfolding clipboard_read answer_get
read_total {c} copy_to msg size v room = elim (Bool-cases (is_pid_query size)) [
  | inl query ↦ elim (Bool-cases (is_correct_id size)) [
    | inl correct ↦
        rw
          (
            query,
            correct,
            load_within buf_max_count c.entries (decode_id size) (in_range size correct),
          )
          (
            record { ret = to_int (c.entries (decode_id size)).source_pid; sent = none; after = c },
            refl,
            v,
          )
    | inr wrong ↦ rw (query, wrong) (record { ret = minus_one; sent = none; after = c }, refl, v)
  ]
  | inr get ↦ elim (Bool-cases (is_negative (to_int (decode_pid size)))) [
    | inl negative ↦
        rw (get, negative) (record { ret = minus_one; sent = none; after = c }, refl, v)
    | inr fine ↦
        rw (get, fine)
          (elim (get_refines msg (decode_pid size) v room) [
            | inl (id, it, msg', d, h, seen, held, runs, el, dl, eb, v', after) ↦
                rw runs (answer_get copy_to (ok, msg', d), refl, v')
            | inr (none_held, runs) ↦ rw runs (answer_get copy_to (minus_one, msg, c), refl, v)
          ])
  ]
]

-- On a valid state every call of the driver that is sound ends with a value, with no failed assertion
-- and no undefined behaviour, and leaves a valid state.
pub handle_total :
    (a : Allocator) {c : Clipboard} (q : Request)
    → IsValid c
    → Sound a q c
    → Returns (handle a q c) λ r. IsValid r.1
unfolding handle clipboard_open clipboard_close
handle_total a {c} open_device v s = ((ok, c), refl, v)
handle_total a {c} close_device v s = ((ok, c), refl, v)
handle_total a (read_device copy_to msg size) v s =
    let (r, runs, v') = read_total copy_to msg size v s in (of_read r, rw runs, v')
handle_total a (write_device copy_from size) v s = write_total a copy_from size v s

-- The states after a fresh start and any number of sound calls.
pub data Reach (a : Allocator) : Clipboard → Type 0 where
  start :
      (c : Clipboard) {d : Clipboard} → c.heap ≡ no_blocks → clipboard_init c ≡ done d → Reach a d
  next :
      {c d : Clipboard} {ret : ℤ} (q : Request)
      → Reach a c
      → Sound a q c
      → handle a q c ≡ done (ret, d)
      → Reach a d

pub Reach-IsValid : {a : Allocator} {c : Clipboard} → Reach a c → IsValid c
Reach-IsValid (start c {d} e runs) =
    let (d', runs', (v, _)) = clipboard_init_lem c e in
    subst IsValid (done_injective (sym runs' ∙ runs)) v
Reach-IsValid {a} (next {d} q r s runs) =
    let ((ret', d'), runs', v) = handle_total a q (Reach-IsValid r) s in
    subst IsValid (ap (λ (x : ℤ × Clipboard). x.1) (done_injective (sym runs' ∙ runs))) v

-- After a fresh start and any number of sound calls, the next sound call ends with a value too: no
-- failed assertion, no undefined behaviour; and the state that it leaves is valid.
pub Reach-total :
    {a : Allocator} {c : Clipboard} (q : Request)
    → Reach a c
    → Sound a q c
    → Returns (handle a q c) λ r. IsValid r.1
Reach-total {a} q r s = handle_total a q (Reach-IsValid r) s
