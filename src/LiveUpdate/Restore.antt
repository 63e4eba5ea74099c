-- ===== src/LiveUpdate/Restore.antt =====
-- The loop of lu_state_restore.
use clipboard.Prelude.{
  ℕ, zero, suc, ◌+◌, ◌≤◌, ◌<◌, ◌≡◌, refl, ◌≢◌, inl, inr, arith, none, some, List, length, done,
  Returns, load_within, store_within, update, update_self, update_ne, update_twice, eq_cases,
  take_whole, sym, ◌∙◌, ap, subst, Bool-cases, replicate, length-replicate, le→ltb_false, drop_all,
  append-nil,
}
use clipboard.Memory.{Heap, Allocator}
use clipboard.Memory.Laws.{malloc_placed, block_at_live}
use clipboard.Protocol.{buf_max_count, entry_len_limit}
use clipboard.Clipboard.{Entry, empty, Clipboard}
use clipboard.Clipboard.Invariant.{IsValid, Buffers, Occupied, Holds}
use clipboard.Clipboard.Invariant.Blocks.{Buffers-fill}
use clipboard.LiveUpdate.{buf_key, text, DataStore, in_slot, restore_entry, restore_entries}
use clipboard.LiveUpdate.Save.{in_slot-Occupied, in_slot_empty}
use clipboard.LiveUpdate.Slots.{below, below-update, below-skip}

-- A malloc for each occupied slot from `i` on, in this order, finds a place.
abbrev pub Room : Allocator → Clipboard → ℕ → ℕ → Heap → Type 0
Room a c zero i h = Unit {0}
Room a c (suc n) i h =
    ((b : List ℕ)
      → Occupied (c.entries i)
      → c.heap (c.entries i).buffer ≡ some b
      → (p : ℕ) × (a.place h (c.entries i).buffer_len ≡ some p)
        × Room a c n (i + 1) (update h p (some b)))
    × ((c.entries i).in_use ≡ empty → Room a c n (i + 1) h)

-- Between two rounds: `r` has the entries of `c`, with new blocks for the slots before `i`.
abbrev pub Restored : {D : Type 0} → DataStore D → Clipboard → ℕ → Clipboard → D → Type 0
Restored ds c i r d =
    ((k : ℕ) → r.entries k ≡ record (c.entries k) { buffer = (r.entries k).buffer })
    × (r.available_entries ≡ c.available_entries)
    × Buffers (below i r.entries) r.heap
    × ((k : ℕ) (b : List ℕ)
        → k < i
        → k < buf_max_count
        → Occupied (c.entries k)
        → c.heap (c.entries k).buffer ≡ some b
        → r.heap (r.entries k).buffer ≡ some b)
    × ((k : ℕ) (b : List ℕ)
        → i ≤ k
        → k < buf_max_count
        → Occupied (c.entries k)
        → c.heap (c.entries k).buffer ≡ some b
        → ds.retrieve (buf_key k) d ≡ some (text b))

module _ {D : Type 0} (ds : DataStore D) (a : Allocator) (c : Clipboard) (v : IsValid c) where
  abbrev restored : ℕ → ℕ → List ℕ → Clipboard → Clipboard
  restored i p b r = record r {
    entries = update r.entries i (record (r.entries i) { buffer = p });
    heap = update r.heap p (some b);
  }

  restore_entry_runs :
      (i p : ℕ) (b : List ℕ) (r : Clipboard) (d : D)
      → i < buf_max_count
      → a.place r.heap (r.entries i).buffer_len ≡ some p
      → ds.retrieve (buf_key i) d ≡ some (text b)
      → length b ≡ (r.entries i).buffer_len
      → restore_entry ds a i r d ≡ done (restored i p b r, ds.delete (buf_key i) d)
  unfolding restore_entry
  restore_entry_runs i p b r d l placed stored size = rw (
    malloc_placed a (r.entries i).buffer_len p r.heap placed,
    restore_entry,
    block_at_live p (update r.heap p (some zeros)) zeros (update_self r.heap p (some zeros)),
    store_within buf_max_count r.entries i (record (r.entries i) { buffer = p }) l,
    stored,
    take_whole (r.entries i).buffer_len b (omega arith),
    drop_all (length b) zeros
        (omega (arith, length-replicate {0} (r.entries i).buffer_len zero_byte)),
    append-nil b,
    update_twice r.heap p (some zeros) (some b),
  )
    where
      zero_byte : ℕ
      zero_byte = 0

      zeros : List ℕ
      zeros = replicate (r.entries i).buffer_len zero_byte

  restore_step :
      (i p : ℕ) (b : List ℕ) (r : Clipboard) (d : D)
      → i < buf_max_count
      → Occupied (c.entries i)
      → c.heap (c.entries i).buffer ≡ some b
      → length b ≡ (c.entries i).buffer_len
      → a.place r.heap (r.entries i).buffer_len ≡ some p
      → Restored ds c i r d
      → Restored ds c (i + 1) (restored i p b r) (ds.delete (buf_key i) d)
  restore_step i p b r d l o live size placed (same, stack, blocks, texts, stored) = (
    λ k. elim (eq_cases k i) [
      | inl at_i ↦
          rw (at_i, update_self r.entries i e)
            (ap (λ (x : Entry). record x { buffer = p }) (same i))
      | inr ne ↦ rw (update_ne r.entries i e k ne) (same k)
    ],
    stack,
    rw (below-update i r.entries e) (
        Buffers-fill blocks i e b l hidden (rw (same i) o) free
          (size ∙ sym (ap (λ (x : Entry). x.buffer_len) (same i))) (fits (v.buffers.owned i l o))),
    λ k b' lt lk ok e'. elim (eq_cases k i) [
      | inl at_i ↦
          rw (at_i, update_self r.entries i e, update_self r.heap p (some b))
            (sym live ∙ rw at_i at e')
      | inr ne ↦ rw (update_ne r.entries i e k ne) (
          update_ne r.heap p (some b) (r.entries k).buffer
            (λ at_p. taken (sym (ap r.heap at_p) ∙ texts k b' (omega arith) lk ok e'))
          ∙ texts k b' (omega arith) lk ok e')
    ],
    λ k b' ge lk ok e'.
        ds.retrieve-delete_ne (buf_key i) (buf_key k) d
          (λ same_key. omega (arith, key_eq k i same_key))
        ∙ stored k b' (omega arith) lk ok e',
  )
    where
      e : Entry
      e = record (r.entries i) { buffer = p }

      free : r.heap p ≡ none
      free = a.fresh r.heap (r.entries i).buffer_len p placed

      taken : {x : List ℕ} → r.heap p ≢ some x
      taken full = cc (free, full)

      hidden : (below i r.entries i).in_use ≡ empty
      hidden = rw (le→ltb_false i i (omega arith))

      fits : Holds c.heap (c.entries i) → (r.entries i).buffer_len ≤ entry_len_limit
      fits (b', live', size', small) = rw (ap (λ (x : Entry). x.buffer_len) (same i)) small

      key_eq : (k j : ℕ) → buf_key k ≡ buf_key j → k ≡ j
      key_eq k j h = cc

  restore_skip :
      (i : ℕ) (r : Clipboard) (d : D)
      → (c.entries i).in_use ≡ empty
      → Restored ds c i r d
      → Restored ds c (i + 1) r d
  restore_skip i r d em (same, stack, blocks, texts, stored) = (
    same,
    stack,
    rw (below-skip i r.entries (ap (λ (x : Entry). x.in_use) (same i) ∙ em)) blocks,
    λ k b lt lk ok e. elim (eq_cases k i) [
      | inl at_i ↦ absurd (ok (ap (λ m. (c.entries m).in_use) at_i ∙ em))
      | inr ne ↦ texts k b (omega arith) lk ok e
    ],
    λ k b ge lk ok e. stored k b (omega arith) lk ok e,
  )

  pub restore_loop :
      (n i : ℕ) (r : Clipboard) (d : D)
      → i + n ≡ buf_max_count
      → Restored ds c i r d
      → Room a c n i r.heap
      → Returns (restore_entries ds a n i r d) λ x. Restored ds c buf_max_count x.0 x.1
  unfolding restore_entries
  restore_loop zero i r d e s room =
      ((r, d), refl, subst (λ k. Restored ds c k r d) (omega arith) s)
  restore_loop (suc n) i r d e s room = elim (Bool-cases (in_slot (r.entries i))) [
    | inr free_slot ↦
        let em : (c.entries i).in_use ≡ empty =
          ap (λ (x : Entry). x.in_use) (sym (s.0 i)) ∙ in_slot_empty (r.entries i) free_slot in
        rw (load_within buf_max_count r.entries i (omega arith), free_slot)
          (restore_loop n (i + 1) r d (omega arith) (restore_skip i r d em s) (room.1 em))
    | inl taken ↦
        let o : Occupied (c.entries i) =
          λ em. in_slot-Occupied (r.entries i) taken (ap (λ (x : Entry). x.in_use) (s.0 i) ∙ em) in
        let (b, live, size, small) = v.buffers.owned i (omega arith) o in
        let (p, placed, room') = room.0 b o live in
        let placed' : a.place r.heap (r.entries i).buffer_len ≡ some p =
          ap (λ (x : Entry). a.place r.heap x.buffer_len) (s.0 i) ∙ placed in
        rw
          (
            load_within buf_max_count r.entries i (omega arith),
            taken,
            restore_entry_runs i p b r d (omega arith) placed'
                (s.4 i b (omega arith) (omega arith) o live)
                (size ∙ sym (ap (λ (x : Entry). x.buffer_len) (s.0 i))),
          )
          (restore_loop n (i + 1) (restored i p b r) (ds.delete (buf_key i) d) (omega arith)
            (restore_step i p b r d (omega arith) o live size placed' s) room')
  ]
