-- ===== src/Main/Traffic/Writes.antt =====
-- A write: what it puts into the store is what it was given.
use clipboard.Prelude.{
  ℕ, zero, suc, ◌<◌, ◌≡◌, refl, inl, inr, Bool, ◌||◌, ◌==◌, arith, List, [], ℤ, pos, negsuc,
  minus_one, Returns, Bool-cases, eq_cases, ne→==_false,
}
use clipboard.Memory.{Allocator}
use clipboard.Protocol.{lock_size, set_size, buf_max_count, lock_of_bytes, set_of_bytes}
use clipboard.Clipboard.{
  Clipboard, ok, clipboard_write, dispatch, dispatch_copied, do_clipboard_lock, do_clipboard_set,
}
use clipboard.Clipboard.Invariant.{IsValid}
use clipboard.Clipboard.Reach.{SoundWrite}
use clipboard.Clipboard.View.{view, sent_item}
use clipboard.Clipboard.View.Count.{stored-put, stored-release, stored-hold}
use clipboard.Clipboard.View.Refine.{set_refines, lock_refines}
use clipboard.Main.Traffic.{accepted, Balanced}

module _ (counts : List ℕ → Bool) where
  set_balance :
      (a : Allocator) {c : Clipboard} (bytes : List ℕ)
      → IsValid c
      → SoundWrite a set_size bytes c
      → Returns
          (do_clipboard_set a (set_of_bytes bytes) c)
          λ x. IsValid x.1 × Balanced counts c (accepted set_size (ok, bytes) x.0, [], x.1)
  set_balance a {c} bytes v s =
      let (sound, (p, placed)) = s.1 refl in
      elim (set_refines a p (set_of_bytes bytes) v sound placed) [
        | inl (full, runs) ↦ ((minus_one, c), runs, (v, refl))
        | inr (id, d, l, free, runs, v', after) ↦
            let more =
              stored-put counts (view c) (view d) id (sent_item (set_of_bytes bytes)) l free
                after in
            ((pos id, d), runs, (v', omega (arith, more)))
      ]

  lock_balance :
      {c : Clipboard} (bytes : List ℕ)
      → IsValid c
      → (lock_of_bytes bytes).id < buf_max_count
      → Returns
          (do_clipboard_lock (lock_of_bytes bytes) c)
          λ x. IsValid x.1 × Balanced counts c (accepted lock_size (ok, bytes) x.0, [], x.1)
  lock_balance {c} bytes v l =
      let m = lock_of_bytes bytes in
      elim (lock_refines m v l) [
        | inl (d, g, runs, v', after) ↦
            let same = stored-hold counts (view c) (view d) m.id m.pid after in
            ((ok, d), runs, (v', omega (arith, same)))
        | inr (d, g, runs, v', after) ↦
            let same = stored-release counts (view c) (view d) m.pid after in
            ((minus_one, d), runs, (v', omega (arith, same)))
      ]

  dispatch_balance :
      (a : Allocator) {c : Clipboard} (size : ℕ) (copied : ℤ × List ℕ)
      → IsValid c
      → SoundWrite a size copied.1 c
      → Returns
          (dispatch_copied a size copied c)
          λ x. IsValid x.1 × Balanced counts c (accepted size copied x.0, [], x.1)
  unfolding dispatch_copied dispatch
  dispatch_balance a {c} size (pos (suc n), bytes) v s = ((pos (suc n), c), refl, (v, refl))
  dispatch_balance a {c} size (negsuc n, bytes) v s = ((negsuc n, c), refl, (v, refl))
  dispatch_balance a {c} size (pos zero, bytes) v s = elim (eq_cases size lock_size) [
    | inl l ↦ rw l (lock_balance bytes v (s.0 l))
    | inr n ↦ elim (eq_cases size set_size) [
      | inl k ↦ rw k (set_balance a bytes v (rw k at s))
      | inr m ↦
          rw (ne→==_false size lock_size n, ne→==_false size set_size m)
            ((minus_one, c), refl, (v, refl))
    ]
  ]

  accepted_none : (size : ℕ) (copied : ℤ × List ℕ) → accepted size copied minus_one ≡ []
  accepted_none size (pos zero, bytes) = refl
  accepted_none size (pos (suc n), bytes) = refl
  accepted_none size (negsuc n, bytes) = refl

  pub write_balance :
      (a : Allocator) {c : Clipboard} (copy_from : ℕ → ℤ × List ℕ) (size : ℕ)
      → IsValid c
      → SoundWrite a size (copy_from size).1 c
      → Returns
          (clipboard_write a copy_from size c)
          λ x. IsValid x.1 × Balanced counts c (accepted size (copy_from size) x.0, [], x.1)
  unfolding clipboard_write
  write_balance a {c} copy_from size v s =
      elim (Bool-cases (size == lock_size || size == set_size)) [
        | inl right ↦ rw right (dispatch_balance a size (copy_from size) v s)
        | inr wrong ↦ rw wrong ((minus_one, c), refl, (v, rw (accepted_none size (copy_from size))))
      ]
