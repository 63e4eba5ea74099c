-- ===== src/LiveUpdate/Whole.antt =====
-- A live update as a whole: save and restore.
use clipboard.Prelude.{
  ℕ, ◌+◌, ◌-◌, ◌*◌, ◌%◌, ◌≤◌, le→leb, eq→==, Run, ◌>>=◌, ◌<◌, ◌≡◌, refl, ◌≢◌, arith, Option, some,
  List, done, Returns, sym, ◌∙◌, ap, subst, fun_ext, le→ltb_false,
}
use clipboard.Memory.{Heap, Allocator, no_blocks}
use clipboard.Protocol.{buf_max_count}
use clipboard.Stack.{stack_size}
use clipboard.Clipboard.{Entry, Clipboard, ok}
use clipboard.Clipboard.Invariant.{IsValid, FreeList, LockedBy, Occupied}
use clipboard.Clipboard.View.{view, view_entry}
use clipboard.Clipboard.View.Refine.{◌≈◌}
use clipboard.LiveUpdate.{
  clipboard_key, buf_key, Blob, text, DataStore, address_of, element_at, image_at, restore_entries,
  lu_state_restore, image_of, sef_cb_lu_state_save, sef_init_lu, sef_cb_init,
}
use clipboard.LiveUpdate.Save.{AllPublished, sef_cb_lu_state_save_lem}
use clipboard.LiveUpdate.Slots.{moved, FreeList-moved, below_all, Buffers-cong, view_entry-moved}
use clipboard.LiveUpdate.Restore.{Room, Restored, restore_loop}

element_at_address : (base k : ℕ) → k ≤ stack_size → element_at base (address_of base k) ≡ some k
unfolding element_at
element_at_address base k h =
    rw
      (
        le→leb base (base + 4 * k) (omega arith),
        le→leb (base + 4 * k - base) (4 * stack_size) (omega arith),
        eq→== ((base + 4 * k - base) % 4) 0 (omega arith),
      )
      (ap some (omega arith))

-- CLIPBOARD of the old instance, in the new one.
abbrev taken_over : Clipboard → Clipboard → Clipboard
taken_over c r = record r { entries = c.entries; available_entries = c.available_entries }

image_of_image :
    (from to : ℕ) (c r : Clipboard)
    → to ≡ from
    → IsValid c
    → image_of to (some (image_at from c)) r ≡ done (taken_over c r)
image_of_image from to c r same v =
    let k = c.available_entries.current in
    let found : element_at to (address_of from k) ≡ some k =
      ap (λ base. element_at to (address_of base k)) (sym same)
      ∙ element_at_address to k (omega (arith, v.free_list.within)) in
    rw (found, image_of)

lu_state_restore_image :
    {D : Type 0} (ds : DataStore D) (a : Allocator) (from to : ℕ) (c r : Clipboard) (d : D)
    → to ≡ from
    → IsValid c
    → ds.retrieve clipboard_key d ≡ some (image_at from c)
    → lu_state_restore ds a to r d
      ≡ restore_entries ds a buf_max_count 0 (taken_over c r) (ds.delete clipboard_key d)
unfolding lu_state_restore
lu_state_restore_image {D} ds a from to c r d same v e =
    ap
      (λ (b : Option Blob). image_of to b r >>= λ c'.
        restore_entries ds a buf_max_count 0 c' (ds.delete clipboard_key d))
      e
    ∙ ap
        (λ (m : Run Clipboard).
          m >>= λ c'. restore_entries ds a buf_max_count 0 c' (ds.delete clipboard_key d))
        (image_of_image from to c r same v)

sef_cb_init_update :
    {D : Type 0} (ds : DataStore D) (a : Allocator) (base : ℕ) (r : Clipboard) (d : D)
    (x : Clipboard × D)
    → lu_state_restore ds a base r d ≡ done x
    → sef_cb_init ds a base sef_init_lu r d ≡ done (ok, x.0, x.1)
unfolding sef_cb_init
sef_cb_init_update {D} ds a base r d x e = rw e

module _ {D : Type 0} (ds : DataStore D) (a : Allocator) (c : Clipboard) (v : IsValid c) where
  -- What a new instance is given, before its first round.
  new_instance :
      (r : Clipboard) (d : D)
      → r.heap ≡ no_blocks
      → ((k : ℕ) (b : List ℕ)
          → k < buf_max_count
          → Occupied (c.entries k)
          → c.heap (c.entries k).buffer ≡ some b
          → ds.retrieve (buf_key k) d ≡ some (text b))
      → Restored ds c 0 (taken_over c r) (ds.delete clipboard_key d)
  new_instance r d clean stored = (
    λ k. refl,
    refl,
    record {
      owned = λ k l o. absurd (o (rw (le→ltb_false k 0 (omega arith))));
      apart = λ i j li lj oi oj p. absurd (oi (rw (le→ltb_false i 0 (omega arith))));
      no_leak = λ p b live. absurd (no_block p b live);
    },
    λ k b lt lk o e. absurd (omega arith),
    λ k b ge lk o e.
        ds.retrieve-delete_ne clipboard_key (buf_key k) d (λ e'. cc) ∙ stored k b lk o e,
  )
    where
      no_block : (p : ℕ) (b : List ℕ) → r.heap p ≢ some b
      no_block p b live = cc (live, ap (λ (h : Heap). h p) clean)

  restored-IsValid : (r : Clipboard) (d : D) → Restored ds c buf_max_count r d → IsValid r
  restored-IsValid r d (same, stack, blocks, texts, stored) = record {
    free_list =
        subst (λ es. FreeList es r.available_entries) (sym entries_moved)
          (subst (FreeList (moved c.entries q)) (sym stack) (FreeList-moved q v.free_list));
    buffers = Buffers-cong (below_all r.entries) blocks;
    one_lock = λ pid i j li lj l m. v.one_lock pid i j li lj (was pid i l) (was pid j m);
  }
    where
      q : ℕ → ℕ
      q k = (r.entries k).buffer

      entries_moved : r.entries ≡ moved c.entries q
      entries_moved = fun_ext same

      was : (pid k : ℕ) → LockedBy pid (r.entries k) → LockedBy pid (c.entries k)
      was pid k (l, p) = (
        ap (λ (x : Entry). x.in_use) (sym (same k)) ∙ l,
        ap (λ (x : Entry). x.locking_pid) (sym (same k)) ∙ p,
      )

  restored-view : (r : Clipboard) (d : D) → Restored ds c buf_max_count r d → view r ≈ view c
  restored-view r d (same, stack, blocks, texts, stored) i h =
      ap (view_entry r.heap (r.entries i)) (ap (λ (x : Entry). x.in_use) (same i))
      ∙ view_entry-moved r.heap c.heap (r.entries i) (c.entries i) (c.entries i).in_use (same i)
          (λ ne.
            let (b, live, size, small) = v.buffers.owned i h ne in texts i b h h ne live ∙ sym live)

  -- A live update, of a valid state, to a new instance that has no blocks yet, with room in its
  -- memory. The data store takes CLIPBOARD and each text, and the stack's array has the same address
  -- in both instances, since the stack's pointer is handed over as it is. Then neither side faults,
  -- the state that the new instance gets is valid, and the clients see the same store as before,
  -- whatever the new blocks' addresses.
  pub live_update_lem :
      (from to : ℕ) (d : D) (r : Clipboard)
      → to ≡ from
      → AllPublished ds from c d
      → r.heap ≡ no_blocks
      → Room a c buf_max_count 0 no_blocks
      → Returns (sef_cb_lu_state_save ds from c d) λ x.
        Returns
          (sef_cb_init ds a to sef_init_lu r x.0)
          λ y. (y.0 ≡ ok) × IsValid y.1 × (view y.1 ≈ view c)
  live_update_lem from to d r same fits clean room =
      let (x, saves, (freed, whole, stored)) = sef_cb_lu_state_save_lem ds from c v d fits in
      let (y, restores, s) =
        restore_loop ds a c v buf_max_count 0 (taken_over c r) (ds.delete clipboard_key x.0)
          (omega arith) (new_instance r x.0 clean stored)
          (subst (Room a c buf_max_count 0) (sym clean) room) in
      (
        x,
        saves,
        (
          (ok, y.0, y.1),
          sef_cb_init_update ds a to r x.0 y
              (lu_state_restore_image ds a from to c r x.0 same v whole ∙ restores),
          (refl, restored-IsValid y.0 y.1 s, restored-view y.0 y.1 s),
        ),
      )
