-- ===== src/Simulator/Write.antt =====
-- clipboard_write.
use clipboard.Prelude.{
  ℕ, suc, ◌-◌, ◌≤◌, ◌<◌, ◌≡◌, refl, ◌≢◌, ◌⊎◌, inl, inr, arith, true, false, some, List, take,
  length, replicate, update, update_self, update_ne, update_twice, load_within, store_within,
  length-replicate, length-take, done, pos, minus_one, eq_cases, eq→==, ne→==_false, ap,
}
use clipboard.Memory.{Allocator}
use clipboard.Memory.Laws.{malloc_placed, block_at_live, memcpy_over}
use clipboard.Stack.Refine.{take_room, is_empty_zero}
use clipboard.Simulator.{
  Entry, used, Clipboard, WriteMsg, buf_max_count, busy, use_entry, set_decompressed_len,
  clipboard_write,
}
use clipboard.Simulator.Invariant.{IsValid}
use clipboard.Simulator.Invariant.Blocks.{Buffers-fill}
use clipboard.Simulator.Shelf.{view, left, sent_text, view_live, view_keep}

abbrev written_entry : WriteMsg → ℕ → Entry → Entry
written_entry m p e = record e {
  buffer = p;
  buffer_len = m.buffer_len;
  decompressed_len = m.decompressed_len;
  in_use = used;
}

-- The state with the message under the number k, its block at p.
abbrev pub written : ℕ → ℕ → WriteMsg → Clipboard → Clipboard
written k p m c = record {
  entries = update c.entries k (written_entry m p (c.entries k));
  available_entries = record c.available_entries { current = k };
  heap = update c.heap p (some (take m.buffer_len m.buffer));
}

use_entry_runs :
    (a : Allocator) (k p : ℕ) (m : WriteMsg) (c : Clipboard)
    → m.buffer_len ≤ length m.buffer
    → k < buf_max_count
    → busy (c.entries k) ≡ false
    → a.place c.heap m.buffer_len ≡ some p
    → use_entry a k m.buffer m.buffer_len c
      ≡ done (record c {
        entries =
            update c.entries k
              (record (c.entries k) { buffer = p; buffer_len = m.buffer_len; in_use = used });
        heap = update c.heap p (some (take m.buffer_len m.buffer));
      })
unfolding use_entry
use_entry_runs a k p m c fits l em placed = rw (
  load_within buf_max_count c.entries k l,
  em,
  malloc_placed a m.buffer_len p c.heap placed,
  use_entry,
  block_at_live p (update c.heap p (some zeros)) zeros (update_self c.heap p (some zeros)),
  memcpy_over zeros m.buffer m.buffer_len fits (length-replicate m.buffer_len 0),
  store_within buf_max_count c.entries k
      (record (c.entries k) { buffer = p; buffer_len = m.buffer_len; in_use = used }) l,
  update_twice c.heap p (some zeros) (some (take m.buffer_len m.buffer)),
)
  where
    zeros : List ℕ
    zeros = replicate m.buffer_len 0

write_runs :
    (a : Allocator) (k p : ℕ) (m : WriteMsg) (c : Clipboard)
    → IsValid c
    → left c ≡ suc k
    → m.buffer_len ≤ length m.buffer
    → a.place c.heap m.buffer_len ≡ some p
    → clipboard_write a m c ≡ done (pos k, written k p m c)
unfolding clipboard_write set_decompressed_len
write_runs a k p m c v top_is fits placed =
    let (some_left, number, popped) =
      take_room c.available_entries (omega (arith, v.fresh.within)) (λ e. omega (arith, top_is)) in
    let last : c.available_entries.current - 1 ≡ k = omega arith in
    let same : c.available_entries.value k ≡ k = v.fresh.number k (omega arith) in
    let l : k < buf_max_count = omega (arith, v.fresh.within) in
    rw (
      some_left,
      number,
      popped,
      last,
      same,
      load_within buf_max_count c.entries k l,
      v.fresh.unused k (omega arith),
      use_entry_runs a k p m
          (record c { available_entries = record c.available_entries { current = k } }) fits l
          (v.fresh.unused k (omega arith)) placed,
      load_within buf_max_count (update c.entries k first_entry) k l,
      update_self c.entries k first_entry,
      store_within buf_max_count (update c.entries k first_entry) k
          (written_entry m p (c.entries k)) l,
      update_twice c.entries k first_entry (written_entry m p (c.entries k)),
    )
  where
    first_entry : Entry
    first_entry = record (c.entries k) { buffer = p; buffer_len = m.buffer_len; in_use = used }

pub written-IsValid :
    (a : Allocator) (k p : ℕ) (m : WriteMsg) (c : Clipboard)
    → IsValid c
    → left c ≡ suc k
    → m.buffer_len ≤ length m.buffer
    → a.place c.heap m.buffer_len ≡ some p
    → IsValid (written k p m c)
written-IsValid a k p m c v top_is fits placed = record {
  fresh = record {
    within = omega (arith, v.fresh.within);
    number = λ j l. v.fresh.number j (omega arith);
    unused = λ j l.
        rw (update_ne c.entries k e j (λ (same : j ≡ k). omega arith))
          (v.fresh.unused j (omega arith));
  };
  buffers =
      Buffers-fill v.buffers k e (take m.buffer_len m.buffer) (omega (arith, v.fresh.within))
        (v.fresh.unused k (omega arith)) refl (a.fresh c.heap m.buffer_len p placed)
        (omega (arith, length-take m.buffer_len m.buffer));
}
  where
    e : Entry
    e = written_entry m p (c.entries k)

view-written :
    (a : Allocator) (k p : ℕ) (m : WriteMsg) (c : Clipboard)
    → IsValid c
    → a.place c.heap m.buffer_len ≡ some p
    → (i : ℕ) → i < buf_max_count
    → view (written k p m c) i ≡ update (view c) k (some (sent_text m)) i
view-written a k p m c v placed i l = elim (eq_cases i k) [
  | inl same ↦ rw (eq→== i k same) (
      view_live (update c.heap p (some (take m.buffer_len m.buffer)))
        (written_entry m p (c.entries k)) (take m.buffer_len m.buffer) refl
        (update_self c.heap p (some (take m.buffer_len m.buffer))))
  | inr ne ↦ rw (ne→==_false i k ne) (
      view_keep c.heap (update c.heap p (some (take m.buffer_len m.buffer))) (c.entries i) (λ b.
        update_ne c.heap p (some (take m.buffer_len m.buffer)) (c.entries i).buffer (apart b)))
]
  where
    apart : busy (c.entries i) ≡ true → (c.entries i).buffer ≢ p
    apart b same =
        let (block, live, _) = v.buffers.owned i l b in
        cc (ap c.heap same, live, a.fresh c.heap m.buffer_len p placed)

-- On a valid state, for a message whose length is within its buffer and with room in memory, a write
-- never faults. If no number is left it returns -1 and changes nothing. If not, it returns the last
-- one that is left, which is then left no more, and the text stands under it; the state is valid.
pub clipboard_write_lem :
    (a : Allocator) (p : ℕ) (m : WriteMsg) (c : Clipboard)
    → IsValid c
    → m.buffer_len ≤ length m.buffer
    → a.place c.heap m.buffer_len ≡ some p
    → ((left c ≡ 0) × (clipboard_write a m c ≡ done (minus_one, c)))
      ⊎ ((k : ℕ) × (d : Clipboard) × (left c ≡ suc k)
          × (clipboard_write a m c ≡ done (pos k, d))
          × IsValid d
          × (left d ≡ k)
          × ((i : ℕ) → i < buf_max_count → view d i ≡ update (view c) k (some (sent_text m)) i))
unfolding clipboard_write
clipboard_write_lem a p m c v fits placed = elim (eq_cases (left c) 0) [
  | inl none_left ↦ inl (none_left, rw (is_empty_zero c.available_entries none_left))
  | inr ne ↦
      let k = left c - 1 in
      let top_is : left c ≡ suc k = omega arith in
      inr (
        k,
        written k p m c,
        top_is,
        write_runs a k p m c v top_is fits placed,
        written-IsValid a k p m c v top_is fits placed,
        refl,
        view-written a k p m c v placed,
      )
]
