-- ===== src/Clipboard/Lock.antt =====
-- do_clipboard_lock.
use clipboard.Prelude.{
  ℕ, ◌≤◌, ◌<◌, ◌≡◌, refl, ◌⊎◌, inl, inr, arith, update, done, load_within, store_within, minus_one,
  update_self, update_ne, eq_cases, lt_cases,
}
use clipboard.Protocol.{LockMsg, buf_max_count}
use clipboard.Clipboard.{
  Entry, Slot, empty, used, locked, Clipboard, lock_by, unlock, ok, unlock_held, lock_slot,
  do_clipboard_lock,
}
use clipboard.Clipboard.Invariant.{IsValid, Occupied, LockedBy}
use clipboard.Clipboard.Invariant.Slots.{FreeList-keep}
use clipboard.Clipboard.Invariant.Blocks.{Buffers-keep}
use clipboard.Clipboard.Invariant.Locks.{OneLock-unlocked, OneLock-lock}
use clipboard.Clipboard.Search.{get_lock_id_lem}

abbrev pub released : ℕ → Clipboard → Clipboard
released id c = record c { entries = update c.entries id (unlock (c.entries id)) }

abbrev pub locked_state : LockMsg → Clipboard → Clipboard
locked_state msg c = record c {
  entries = update c.entries msg.id (lock_by msg.pid (c.entries msg.id));
}

-- What the first step of a lock request leaves.
pub unlock_held_cases :
    (pid : ℕ) (c : Clipboard)
    → ((id : ℕ) × (id < buf_max_count)
        × LockedBy pid (c.entries id)
        × (unlock_held pid c ≡ released id c))
      ⊎ (((i : ℕ) → i < buf_max_count → ¬ LockedBy pid (c.entries i)) × (unlock_held pid c ≡ c))
unfolding unlock_held
unlock_held_cases pid c = elim (get_lock_id_lem pid c) [
  | inl (id, found, low, h, l, first) ↦ inl (id, h, l, rw (found, unlock_held))
  | inr (missing, none_held) ↦ inr (λ i h. none_held i (omega arith) h, rw (missing, unlock_held))
]

-- A change of the state of an occupied slot, its block left alone.
occupied-IsValid :
    {c : Clipboard} (id : ℕ) (e : Entry)
    → IsValid c
    → id < buf_max_count
    → Occupied (c.entries id)
    → Occupied e
    → e.buffer ≡ (c.entries id).buffer
    → e.buffer_len ≡ (c.entries id).buffer_len
    → ((pid i j : ℕ)
        → i < buf_max_count
        → j < buf_max_count
        → LockedBy pid (update c.entries id e i)
        → LockedBy pid (update c.entries id e j)
        → i ≡ j)
    → IsValid (record c { entries = update c.entries id e })
occupied-IsValid id e v h o o' eb el one = record {
  free_list = FreeList-keep v.free_list id e h o o';
  buffers = Buffers-keep v.buffers id e h o o' eb el;
  one_lock = one;
}

released-IsValid :
    {c : Clipboard} (id : ℕ)
    → IsValid c
    → id < buf_max_count
    → Occupied (c.entries id)
    → IsValid (released id c)
released-IsValid {c} id v h o =
    occupied-IsValid id (unlock (c.entries id)) v h o (λ em. cc) refl refl
      (OneLock-unlocked c.entries v.one_lock id (unlock (c.entries id)) (λ em. cc))

-- A lock request first gives up the lock that the process holds: the state stays valid, and the
-- process holds none.
pub unlock_held-IsValid :
    {c : Clipboard} (pid : ℕ)
    → IsValid c
    → IsValid (unlock_held pid c)
      × ((i : ℕ) → i < buf_max_count → ¬ LockedBy pid ((unlock_held pid c).entries i))
unlock_held-IsValid {c} pid v = elim (unlock_held_cases pid c) [
  | inl (id, h, l, e) ↦ rw e (
    released-IsValid id v h (λ em. cc (l.0)),
    λ i hi held. elim (eq_cases i id) [
      | inl same ↦ cc ((rw (same, update_self c.entries id (unlock (c.entries id))) at held).0)
      | inr ne ↦ ne (
          v.one_lock pid i id hi h
            (rw (update_ne c.entries id (unlock (c.entries id)) i ne) at held) l)
    ],
  )
  | inr (none_held, e) ↦ rw e (v, none_held)
]

-- Which requests `lock_slot` grants.
abbrev pub Grants : LockMsg → Clipboard → Type 0
Grants msg c =
    ((c.entries msg.id).in_use ≡ used) × ((c.entries msg.id).decompressed_len ≤ msg.buffer_len)

pub lock_slot_cases :
    (msg : LockMsg) (c : Clipboard)
    → msg.id < buf_max_count
    → (Grants msg c × (lock_slot msg c ≡ done (ok, locked_state msg c)))
      ⊎ ((¬ Grants msg c) × (lock_slot msg c ≡ done (minus_one, c)))
unfolding lock_slot
lock_slot_cases msg c h =
    split (c.entries msg.id).in_use refl
      (lt_cases msg.buffer_len (c.entries msg.id).decompressed_len)
  where
    e : Entry
    e = c.entries msg.id

    split :
        (s : Slot)
        → e.in_use ≡ s
        → (msg.buffer_len < e.decompressed_len) ⊎ (e.decompressed_len ≤ msg.buffer_len)
        → (Grants msg c × (lock_slot msg c ≡ done (ok, locked_state msg c)))
          ⊎ ((¬ Grants msg c) × (lock_slot msg c ≡ done (minus_one, c)))
    split empty s _ =
        inr (λ g. cc (g.0), rw (load_within buf_max_count c.entries msg.id h) (ground arith))
    split locked s _ =
        inr (λ g. cc (g.0), rw (load_within buf_max_count c.entries msg.id h) (ground arith))
    split used s (inl small) =
        inr (λ g. omega arith, rw (load_within buf_max_count c.entries msg.id h) (ground arith))
    split used s (inr large) = inl (
      (s, large),
      rw (load_within buf_max_count c.entries msg.id h)
          (ground (arith, store_within buf_max_count c.entries msg.id (lock_by msg.pid e) h)),
    )

-- On a valid state, and for a slot number in range, `do_clipboard_lock` never faults. The lock that the
-- process held is given up in every case; the named slot is then locked, and OK returned, exactly if
-- it is in use, locked by nobody, and the buffer has room for the decompressed text. If not, -1 is
-- returned and no slot is locked by the process. Both leave a valid state.
pub do_clipboard_lock_lem :
    {c : Clipboard} (msg : LockMsg)
    → IsValid c
    → msg.id < buf_max_count
    → (Grants msg (unlock_held msg.pid c)
        × (do_clipboard_lock msg c ≡ done (ok, locked_state msg (unlock_held msg.pid c)))
        × IsValid (locked_state msg (unlock_held msg.pid c)))
      ⊎ ((¬ Grants msg (unlock_held msg.pid c))
          × (do_clipboard_lock msg c ≡ done (minus_one, unlock_held msg.pid c))
          × IsValid (unlock_held msg.pid c)
          × ((i : ℕ) → i < buf_max_count → ¬ LockedBy msg.pid ((unlock_held msg.pid c).entries i)))
unfolding do_clipboard_lock
do_clipboard_lock_lem {c} msg v h =
    let (v', none_held) = unlock_held-IsValid msg.pid v in
    elim (lock_slot_cases msg (unlock_held msg.pid c) h) [
      | inl (g, e) ↦ inl (
        g,
        e,
        occupied-IsValid msg.id (lock_by msg.pid ((unlock_held msg.pid c).entries msg.id)) v' h
            (λ em. cc (g.0)) (λ em. cc) refl refl
            (OneLock-lock (unlock_held msg.pid c).entries v'.one_lock msg.id msg.pid
              ((unlock_held msg.pid c).entries msg.id) none_held),
      )
      | inr (g, e) ↦ inr (g, e, v', none_held)
    ]
