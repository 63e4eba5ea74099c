-- ===== src/Clipboard/View/Changes.antt =====
-- What each change of the driver's state is in the store.
use clipboard.Prelude.{
  ℕ, ◌<◌, ◌≡◌, refl, ◌≢◌, inl, inr, update, sym, ◌∙◌, ap, none, some, update_self, update_ne,
  eq_cases, take, eq→==, ne→==_false,
}
use clipboard.Memory.{Heap}
use clipboard.Protocol.{LockMsg, SetMsg, buf_max_count}
use clipboard.Clipboard.{Entry, Slot, empty, used, locked, Clipboard, unlock_held, lock_by, unlock}
use clipboard.Clipboard.Invariant.{IsValid, Occupied, LockedBy}
use clipboard.Clipboard.Delete.{deleted}
use clipboard.Clipboard.Fill.{filled, filled_entry}
use clipboard.Clipboard.Lock.{locked_state, unlock_held_cases}
use clipboard.Clipboard.View.{view_entry, view, sent_item, give_up, release, hold_item, hold}

-- Only the block of an occupied entry matters.
view_entry-heap :
    (h h' : Heap) (e : Entry) (s : Slot)
    → e.in_use ≡ s
    → (Occupied e → h' e.buffer ≡ h e.buffer)
    → view_entry h' e s ≡ view_entry h e s
view_entry-heap h h' e empty is_s same = refl
view_entry-heap h h' e used is_s same = rw (same (λ em. cc))
view_entry-heap h h' e locked is_s same = rw (same (λ em. cc))

-- A slot that is not written, while the heap changes elsewhere.
view-other :
    (c d : Clipboard) (i : ℕ)
    → d.entries i ≡ c.entries i
    → (Occupied (c.entries i) → d.heap (c.entries i).buffer ≡ c.heap (c.entries i).buffer)
    → view d i ≡ view c i
view-other c d i e same =
    ap (λ (x : Entry). view_entry d.heap x x.in_use) e
    ∙ view_entry-heap c.heap d.heap (c.entries i) (c.entries i).in_use refl same

pub view-filled :
    {c : Clipboard} (id p : ℕ) (msg : SetMsg)
    → IsValid c
    → c.heap p ≡ none
    → (i : ℕ) → i < buf_max_count
    → view (filled id p msg c) i ≡ update (view c) id (some (sent_item msg)) i
view-filled {c} id p msg v new i h = elim (eq_cases i id) [
  | inl same ↦ rw (
    same,
    update_self c.entries id (filled_entry msg p (c.entries id)),
    update_self c.heap p (some (take msg.buffer_len msg.buffer)),
    update_self (view c) id (some (sent_item msg)),
  )
  | inr ne ↦
      view-other c (filled id p msg c) i
        (update_ne c.entries id (filled_entry msg p (c.entries id)) i ne)
        (λ o.
          update_ne c.heap p (some (take msg.buffer_len msg.buffer)) (c.entries i).buffer (apart o))
      ∙ sym (update_ne (view c) id (some (sent_item msg)) i ne)
]
  where
    apart : Occupied (c.entries i) → (c.entries i).buffer ≢ p
    apart o same =
        let (b, live, size, small) = v.buffers.owned i h o in cc (ap c.heap same, live, new)

pub view-deleted :
    {c : Clipboard} (id : ℕ)
    → IsValid c
    → id < buf_max_count
    → Occupied (c.entries id)
    → (i : ℕ) → i < buf_max_count
    → view (deleted id c) i ≡ update (view c) id none i
view-deleted {c} id v l o i h = elim (eq_cases i id) [
  | inl same ↦ rw (
    same,
    update_self c.entries id (record (c.entries id) { in_use = empty }),
    update_self (view c) id none,
  )
  | inr ne ↦
      view-other c (deleted id c) i
        (update_ne c.entries id (record (c.entries id) { in_use = empty }) i ne)
        (λ o'.
          update_ne c.heap (c.entries id).buffer none (c.entries i).buffer
            (λ same. ne (v.buffers.apart i id h l o' o same)))
      ∙ sym (update_ne (view c) id none i ne)
]

view_entry-unlock :
    (h : Heap) (pid : ℕ) (e : Entry)
    → LockedBy pid e
    → view_entry h (unlock e) used ≡ give_up pid (view_entry h e e.in_use)
view_entry-unlock h pid e (l, p) = rw (l, eq→== e.locking_pid pid p)

give_up_other :
    (h : Heap) (pid : ℕ) (e : Entry) (s : Slot)
    → e.in_use ≡ s
    → ¬ LockedBy pid e
    → view_entry h e s ≡ give_up pid (view_entry h e s)
give_up_other h pid e empty is_s n = refl
give_up_other h pid e used is_s n = refl
give_up_other h pid e locked is_s n = rw (ne→==_false e.locking_pid pid (λ same. n (is_s, same)))

pub view-unlock_held :
    {c : Clipboard} (pid : ℕ)
    → IsValid c
    → (i : ℕ) → i < buf_max_count
    → view (unlock_held pid c) i ≡ release pid (view c) i
view-unlock_held {c} pid v i h = elim (unlock_held_cases pid c) [
  | inr (none_held, e) ↦
      rw e (give_up_other c.heap pid (c.entries i) (c.entries i).in_use refl (none_held i h))
  | inl (id, l, held, e) ↦ rw e (elim (eq_cases i id) [
    | inl same ↦
        rw (same, update_self c.entries id (unlock (c.entries id)))
          (view_entry-unlock c.heap pid (c.entries id) held)
    | inr ne ↦ rw (update_ne c.entries id (unlock (c.entries id)) i ne) (
        give_up_other c.heap pid (c.entries i) (c.entries i).in_use refl
          (λ held'. ne (v.one_lock pid i id h l held' held)))
  ])
]

view_entry-lock :
    (h : Heap) (pid : ℕ) (e : Entry)
    → e.in_use ≡ used
    → view_entry h (lock_by pid e) locked ≡ hold_item pid (view_entry h e e.in_use)
view_entry-lock h pid e u = rw u

pub view-locked_state :
    (c : Clipboard) (msg : LockMsg)
    → (c.entries msg.id).in_use ≡ used
    → (i : ℕ) → view (locked_state msg c) i ≡ hold msg.id msg.pid (view c) i
view-locked_state c msg u i = elim (eq_cases i msg.id) [
  | inl same ↦
      rw
        (
          same,
          update_self c.entries msg.id (lock_by msg.pid (c.entries msg.id)),
          update_self (view c) msg.id (hold_item msg.pid (view c msg.id)),
        )
        (view_entry-lock c.heap msg.pid (c.entries msg.id) u)
  | inr ne ↦ rw (
    update_ne c.entries msg.id (lock_by msg.pid (c.entries msg.id)) i ne,
    update_ne (view c) msg.id (hold_item msg.pid (view c msg.id)) i ne,
  )
]
