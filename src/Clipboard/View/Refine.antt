-- ===== src/Clipboard/View/Refine.antt =====
-- The driver's three requests as operations on the store.
use clipboard.Prelude.{
  ℕ, ◌≤◌, ◌<◌, ◌≡◌, refl, ◌≢◌, ◌⊎◌, inl, inr, true, false, update, sym, ◌∙◌, Option, none, some,
  ◌++◌, drop, eq_cases, length, pos, minus_one, done, le→leb, leb→le, ◌↔◌, ne→==_false, Bool-cases,
}
use clipboard.Memory.{Heap, Allocator}
use clipboard.Protocol.{LockMsg, SetMsg, GetMsg, buf_max_count, entry_len_limit}
use clipboard.Clipboard.{
  Entry, Slot, empty, used, locked, Clipboard, ok, unlock_held, do_clipboard_set, do_clipboard_get,
  do_clipboard_lock,
}
use clipboard.Clipboard.Invariant.{IsValid, Occupied, LockedBy}
use clipboard.Clipboard.Delete.{deleted, message_of, do_clipboard_get_lem}
use clipboard.Clipboard.Fill.{filled, IsSound, do_clipboard_set_lem}
use clipboard.Clipboard.Lock.{locked_state, Grants, do_clipboard_lock_lem}
use clipboard.Clipboard.View.{
  Item, Store, item_of, view_entry, view, sent_item, release, hold, is_free_for,
}
use clipboard.Clipboard.View.Changes.{
  view-filled, view-deleted, view-unlock_held, view-locked_state,
}

-- Two stores agree on the numbers that there are.
infix 4 ◌≈◌
abbrev pub ◌≈◌ : Store → Store → Type 0
s ≈ t = (i : ℕ) → i < buf_max_count → s i ≡ t i

view_entry-Occupied :
    (h : Heap) (e : Entry) (s : Slot)
    → e.in_use ≡ s
    → Occupied e
    → (it : Item) × (view_entry h e s ≡ some it)
view_entry-Occupied h e empty is_s o = absurd (o is_s)
view_entry-Occupied h e used is_s o = (item_of h e none, refl)
view_entry-Occupied h e locked is_s o = (item_of h e (some e.locking_pid), refl)

-- A sound set request, on a valid state and with room in memory. If every number is taken, it
-- returns -1 and nothing changes; if not, it returns a number that was free, under which the store
-- now has the text, held by nobody. The state stays valid.
pub set_refines :
    (a : Allocator) {c : Clipboard} (p : ℕ) (msg : SetMsg)
    → IsValid c
    → IsSound msg
    → a.place c.heap msg.buffer_len ≡ some p
    → (((i : ℕ) → i < buf_max_count → (it : Item) × (view c i ≡ some it))
        × (do_clipboard_set a msg c ≡ done (minus_one, c)))
      ⊎ ((id : ℕ) × (d : Clipboard) × (id < buf_max_count)
          × (view c id ≡ none)
          × (do_clipboard_set a msg c ≡ done (pos id, d))
          × IsValid d
          × (view d ≈ update (view c) id (some (sent_item msg))))
set_refines a {c} p msg v sound placed = elim (do_clipboard_set_lem a p msg v sound placed) [
  | inl (full, e) ↦
      inl (λ i h. view_entry-Occupied c.heap (c.entries i) (c.entries i).in_use refl (full i h), e)
  | inr (id, l, em, e, v') ↦ inr (
    id,
    filled id p msg c,
    l,
    rw em,
    e,
    v',
    view-filled id p msg v (a.fresh c.heap msg.buffer_len p placed),
  )
]

abbrev holder_of : Option Item → Option (Option ℕ)
holder_of none = none
holder_of (some it) = some it.holder

pub held_locked :
    (h : Heap) (e : Entry) (s : Slot) (pid : ℕ) (it : Item)
    → e.in_use ≡ s
    → view_entry h e s ≡ some it
    → it.holder ≡ some pid
    → LockedBy pid e
held_locked h e empty pid it is_s seen held = cc
held_locked h e used pid it is_s seen held = cc (seen, held)
held_locked h e locked pid it is_s seen held = (is_s, cc (seen, held))

-- A get request, on a valid state. If the process holds an item, it returns OK with the item's text
-- at the front of the message's buffer, and the item is gone from the store; if it holds none, it
-- returns -1 and nothing changes. The state stays valid.
pub get_refines :
    {c : Clipboard} (msg : GetMsg) (pid : ℕ)
    → IsValid c
    → length msg.buffer ≡ entry_len_limit
    → ((id : ℕ) × (it : Item) × (msg' : GetMsg) × (d : Clipboard) × (id < buf_max_count)
        × (view c id ≡ some it)
        × (it.holder ≡ some pid)
        × (do_clipboard_get msg pid c ≡ done (ok, msg', d))
        × (msg'.buffer_len ≡ length it.text)
        × (msg'.decompressed_len ≡ it.decompressed_len)
        × (msg'.buffer ≡ it.text ++ drop (length it.text) msg.buffer)
        × IsValid d
        × (view d ≈ update (view c) id none))
      ⊎ (((i : ℕ) (it : Item) → i < buf_max_count → view c i ≡ some it → it.holder ≢ some pid)
          × (do_clipboard_get msg pid c ≡ done (minus_one, msg, c)))
get_refines {c} msg pid v room = elim (do_clipboard_get_lem msg pid v room) [
  | inl (id, text, h, l, live, size, e, v') ↦ inl (
    id,
    item_of c.heap (c.entries id) (some pid),
    message_of id text msg c,
    deleted id c,
    h,
    rw (l.0, l.1),
    refl,
    e,
    rw (live, size),
    refl,
    rw (live, size),
    v',
    view-deleted id v h (λ em. cc (l.0)),
  )
  | inr (none_held, e) ↦ inr (
    λ i it h seen held.
        none_held i h (held_locked c.heap (c.entries i) (c.entries i).in_use pid it refl seen held),
    e,
  )
]

grants_view :
    (h : Heap) (e : Entry) (s : Slot) (n : ℕ)
    → e.in_use ≡ s
    → ((e.in_use ≡ used) × (e.decompressed_len ≤ n)) ↔ (is_free_for n (view_entry h e s) ≡ true)
grants_view h e empty n is_s = (λ g. cc (g.0), λ f. cc)
grants_view h e used n is_s =
    (λ g. le→leb e.decompressed_len n g.1, λ f. (is_s, leb→le e.decompressed_len n f))
grants_view h e locked n is_s = (λ g. cc (g.0), λ f. cc)

-- A lock request, on a valid state and for a number in range. In every case the process first gives
-- up what it holds. It then holds the item that it names, and OK is returned, exactly if there is such
-- an item, nobody holds it, and its decompressed text fits the buffer; if not, -1 is returned. The
-- state stays valid.
pub lock_refines :
    {c : Clipboard} (msg : LockMsg)
    → IsValid c
    → msg.id < buf_max_count
    → ((d : Clipboard) × (is_free_for msg.buffer_len (release msg.pid (view c) msg.id) ≡ true)
        × (do_clipboard_lock msg c ≡ done (ok, d))
        × IsValid d
        × (view d ≈ hold msg.id msg.pid (release msg.pid (view c))))
      ⊎ ((d : Clipboard) × (is_free_for msg.buffer_len (release msg.pid (view c) msg.id) ≡ false)
          × (do_clipboard_lock msg c ≡ done (minus_one, d))
          × IsValid d
          × (view d ≈ release msg.pid (view c)))
lock_refines {c} msg v h = elim (do_clipboard_lock_lem msg v h) [
  | inl (g, e, v') ↦ inl (
    locked_state msg (unlock_held msg.pid c),
    rw (sym (at_id)) (free_test.0 g),
    e,
    v',
    λ i hi. view-locked_state (unlock_held msg.pid c) msg g.0 i ∙ hold-cong i hi,
  )
  | inr (g, e, v', none_held) ↦ inr (
    unlock_held msg.pid c,
    elim (Bool-cases (is_free_for msg.buffer_len (release msg.pid (view c) msg.id))) [
      | inl free ↦ absurd (g (free_test.1 (rw at_id free)))
      | inr taken ↦ taken
    ],
    e,
    v',
    view-unlock_held msg.pid v,
  )
]
  where
    at_id : view (unlock_held msg.pid c) msg.id ≡ release msg.pid (view c) msg.id
    at_id = view-unlock_held msg.pid v msg.id h

    free_test :
        Grants msg (unlock_held msg.pid c)
        ↔ (is_free_for msg.buffer_len (view (unlock_held msg.pid c) msg.id) ≡ true)
    free_test =
        grants_view (unlock_held msg.pid c).heap ((unlock_held msg.pid c).entries msg.id)
          ((unlock_held msg.pid c).entries msg.id).in_use msg.buffer_len refl

    hold-cong :
        (i : ℕ)
        → i < buf_max_count
        → hold msg.id msg.pid (view (unlock_held msg.pid c)) i
          ≡ hold msg.id msg.pid (release msg.pid (view c)) i
    hold-cong i hi = elim (eq_cases i msg.id) [
      | inl same ↦ rw (same, at_id)
      | inr ne ↦ rw (ne→==_false i msg.id ne) (view-unlock_held msg.pid v i hi)
    ]
