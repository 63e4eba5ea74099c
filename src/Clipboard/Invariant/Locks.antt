-- ===== src/Clipboard/Invariant/Locks.antt =====
-- What each change of a slot does to the locks.
use clipboard.Prelude.{
  ℕ, ◌<◌, ◌≡◌, ◌≢◌, inl, inr, update, update_self, update_ne, eq_cases, sym, ◌∙◌,
}
use clipboard.Protocol.{buf_max_count}
use clipboard.Clipboard.{Entry, locked, lock_by}
use clipboard.Clipboard.Invariant.{LockedBy, OneLock}

module _ (entries : ℕ → Entry) (v : OneLock entries) where
  -- A slot whose new entry is not locked.
  pub OneLock-unlocked : (id : ℕ) (e : Entry) → e.in_use ≢ locked → OneLock (update entries id e)
  OneLock-unlocked id e free pid i j li lj (a, b) (c, d) = v pid i j li lj (was i a b) (was j c d)
    where
      was :
          (i : ℕ)
          → (update entries id e i).in_use ≡ locked
          → (update entries id e i).locking_pid ≡ pid
          → LockedBy pid (entries i)
      was i a b = elim (eq_cases i id) [
        | inl same ↦ absurd (free (rw (same, update_self entries id e) at a))
        | inr ne ↦ (rw (update_ne entries id e i ne) at a, rw (update_ne entries id e i ne) at b)
      ]

  -- A process that holds no lock takes one.
  pub OneLock-lock :
      (id pid : ℕ) (e : Entry)
      → ((i : ℕ) → i < buf_max_count → ¬ LockedBy pid (entries i))
      → OneLock (update entries id (lock_by pid e))
  OneLock-lock id pid e none_held pid' i j li lj a b = elim (eq_cases i id) [
    | inl si ↦ elim (eq_cases j id) [
      | inl sj ↦ si ∙ sym sj
      | inr nj ↦ absurd (clash i j lj si nj a b)
    ]
    | inr ni ↦ elim (eq_cases j id) [
      | inl sj ↦ absurd (clash j i li sj ni b a)
      | inr nj ↦ v pid' i j li lj (was i ni a) (was j nj b)
    ]
  ]
    where
      was :
          (k : ℕ)
          → k ≢ id
          → LockedBy pid' (update entries id (lock_by pid e) k)
          → LockedBy pid' (entries k)
      was k ne l = rw (update_ne entries id (lock_by pid e) k ne) at l

      same_pid : (k : ℕ) → k ≡ id → LockedBy pid' (update entries id (lock_by pid e) k) → pid ≡ pid'
      same_pid k s l = (rw (s, update_self entries id (lock_by pid e)) at l).1

      clash :
          (k m : ℕ)
          → m < buf_max_count
          → k ≡ id
          → m ≢ id
          → LockedBy pid' (update entries id (lock_by pid e) k)
          → LockedBy pid' (update entries id (lock_by pid e) m)
          → ⊥
      clash k m lm s ne a b = none_held m lm ((was m ne b).0, (was m ne b).1 ∙ sym (same_pid k s a))
