-- ===== src/Simulator/Read.antt =====
-- clipboard_read and delete_entry.
use clipboard.Prelude.{
  ℕ, ◌≤◌, ◌<◌, ◌≡◌, refl, ◌⊎◌, inl, inr, arith, true, none, some, List, drop, ◌++◌, length, update,
  update_ne, load_within, store_within, done, pos, minus_one, lt_cases, eq_cases, eq→==,
  ne→==_false, ap, sym, lt→ltb, le→ltb_false,
}
use clipboard.Memory.Laws.{block_at_live, memcpy_source, free_live}
use clipboard.Simulator.{
  empty, Clipboard, ReadMsg, buf_max_count, busy, delete_entry, clipboard_read,
}
use clipboard.Simulator.Invariant.{IsValid}
use clipboard.Simulator.Invariant.Blocks.{Buffers-drop}
use clipboard.Simulator.Shelf.{Text, view, left, view_keep, view_cases}

-- The state without the text under the number i.
abbrev removed : ℕ → Clipboard → Clipboard
removed i c = record c {
  entries = update c.entries i (record (c.entries i) { in_use = empty });
  heap = update c.heap (c.entries i).buffer none;
}

removed-IsValid :
    (i : ℕ) (c : Clipboard)
    → IsValid c
    → i < buf_max_count
    → busy (c.entries i) ≡ true
    → IsValid (removed i c)
removed-IsValid i c v l b = record {
  fresh = record {
    within = v.fresh.within;
    number = v.fresh.number;
    unused = λ j lj. elim (eq_cases j i) [
      | inl same ↦ rw (eq→== j i same)
      | inr ne ↦ rw (ne→==_false j i ne) (v.fresh.unused j lj)
    ];
  };
  buffers = Buffers-drop v.buffers i (record (c.entries i) { in_use = empty }) l b refl;
}

view-removed :
    (i : ℕ) (c : Clipboard)
    → IsValid c
    → i < buf_max_count
    → busy (c.entries i) ≡ true
    → (j : ℕ) → j < buf_max_count
    → view (removed i c) j ≡ update (view c) i none j
view-removed i c v l b j lj = elim (eq_cases j i) [
  | inl same ↦ rw (eq→== j i same)
  | inr ne ↦ rw (ne→==_false j i ne) (
      view_keep c.heap (update c.heap (c.entries i).buffer none) (c.entries j) (λ bj.
        update_ne c.heap (c.entries i).buffer none (c.entries j).buffer
          (λ p. ne (v.buffers.apart j i lj l bj b p))))
]

delete_entry_runs :
    (i : ℕ) (b : List ℕ) (c : Clipboard)
    → i < buf_max_count
    → busy (c.entries i) ≡ true
    → c.heap (c.entries i).buffer ≡ some b
    → delete_entry i c ≡ done (removed i c)
unfolding delete_entry
delete_entry_runs i b c l b_is live = rw (
  load_within buf_max_count c.entries i l,
  b_is,
  free_live (c.entries i).buffer c.heap b live,
  store_within buf_max_count c.entries i (record (c.entries i) { in_use = empty }) l,
)

read_runs :
    (m : ReadMsg) (b : List ℕ) (c : Clipboard)
    → m.id < buf_max_count
    → busy (c.entries m.id) ≡ true
    → c.heap (c.entries m.id).buffer ≡ some b
    → length b ≡ (c.entries m.id).buffer_len
    → length b ≤ m.buffer_len
    → length b ≤ length m.buffer
    → clipboard_read m c
      ≡ done (pos 0, record m { buffer = b ++ drop (length b) m.buffer }, removed m.id c)
unfolding clipboard_read
read_runs m b c l b_is live size fits room =
    rw
      (
        load_within buf_max_count c.entries m.id l,
        b_is,
        le→ltb_false m.buffer_len (c.entries m.id).buffer_len (omega arith),
        block_at_live (c.entries m.id).buffer c.heap b live,
        memcpy_source m.buffer b (c.entries m.id).buffer_len size (omega arith),
        delete_entry_runs m.id b c l b_is live,
      )
      (ap (λ n. done (pos 0, record m { buffer = b ++ drop n m.buffer }, removed m.id c))
        (sym size))

-- On a valid state, for a number below 100 and a buffer that is as long as the message says, a read
-- never faults. If the text is not there or longer than the buffer, it returns -1 and changes
-- nothing. If not, it returns 0 and puts the text at the front of the buffer; the text is gone, the
-- other texts are as before, the state is valid, and no number is left more than before.
pub clipboard_read_lem :
    (m : ReadMsg) (c : Clipboard)
    → IsValid c
    → m.id < buf_max_count
    → m.buffer_len ≤ length m.buffer
    → (((view c m.id ≡ none)
          ⊎ ((t : Text) × (view c m.id ≡ some t) × (m.buffer_len < length t.bytes)))
        × (clipboard_read m c ≡ done (minus_one, m, c)))
      ⊎ ((t : Text) × (d : Clipboard) × (view c m.id ≡ some t)
          × (length t.bytes ≤ m.buffer_len)
          × (clipboard_read m c
              ≡ done (pos 0, record m { buffer = t.bytes ++ drop (length t.bytes) m.buffer }, d))
          × IsValid d
          × (left d ≡ left c)
          × ((i : ℕ) → i < buf_max_count → view d i ≡ update (view c) m.id none i))
unfolding clipboard_read
clipboard_read_lem m c v l room = elim (view_cases c m.id v l) [
  | inl (em, seen) ↦ inl (inl seen, rw (load_within buf_max_count c.entries m.id l, em))
  | inr (b, b_is, live, size, seen) ↦ elim (lt_cases m.buffer_len (length b)) [
    | inl short ↦ inl (
      inr (_, seen, short),
      rw (
        load_within buf_max_count c.entries m.id l,
        b_is,
        lt→ltb m.buffer_len (c.entries m.id).buffer_len (omega arith),
      ),
    )
    | inr fits ↦ inr (
      _,
      removed m.id c,
      seen,
      fits,
      read_runs m b c l b_is live size fits (omega arith),
      removed-IsValid m.id c v l b_is,
      refl,
      view-removed m.id c v l b_is,
    )
  ]
]
