-- ===== src/Simulator/Start.antt =====
-- clipboard_init.
use clipboard.Prelude.{
  ℕ, zero, suc, ◌+◌, ◌≤◌, ◌<◌, ◌≡◌, refl, inl, inr, arith, update, Returns, none, ◌∙◌, load_within,
  store_within, update_self, update_ne, eq_cases, ap, false,
}
use clipboard.Memory.{no_blocks}
use clipboard.Stack.Init.{init_lem}
use clipboard.Simulator.{Entry, empty, Clipboard, buf_max_count, busy, clipboard_init, empty_slots}
use clipboard.Simulator.Invariant.{IsValid}
use clipboard.Simulator.Shelf.{view, left}

empty_slots_lem :
    (n i j : ℕ) (entries : ℕ → Entry)
    → i + n ≡ j
    → j ≤ buf_max_count
    → Returns (empty_slots n i entries) λ entries'.
      ((k : ℕ) → k < i → entries' k ≡ entries k)
      × ((k : ℕ) → i ≤ k → k < j → (entries' k).in_use ≡ empty)
unfolding empty_slots
empty_slots_lem zero i j entries e h = (entries, refl, (λ k _. refl, λ k a b. absurd (omega arith)))
empty_slots_lem (suc n) i j entries e h =
    let (entries', runs, (below, above)) =
      empty_slots_lem n (i + 1) j (update entries i (record (entries i) { in_use = empty }))
        (omega arith) h in
    (
      entries',
      rw
          (
            load_within buf_max_count entries i (omega arith),
            store_within buf_max_count entries i (record (entries i) { in_use = empty })
                (omega arith),
          )
          runs,
      (
        λ k a.
            below k (omega arith)
            ∙ update_ne entries i (record (entries i) { in_use = empty }) k (omega arith),
        λ k a b. elim (eq_cases k i) [
          | inl same ↦ rw same (
              ap (λ (x : Entry). x.in_use)
                (below i (omega arith)
                  ∙ update_self entries i (record (entries i) { in_use = empty })))
          | inr other ↦ above k (omega arith) b
        ],
      ),
    )

idle_entry : (e : Entry) → e.in_use ≡ empty → busy e ≡ false
idle_entry e em = rw em

-- Started with no live block, clipboard_init never faults, whatever CLIPBOARD holds: no text is on
-- the shelf, and each of the 100 numbers is left.
pub clipboard_init_lem :
    (c : Clipboard)
    → c.heap ≡ no_blocks
    → Returns
        (clipboard_init c)
        λ d. IsValid d × (left d ≡ buf_max_count) × ((i : ℕ) → i < buf_max_count → view d i ≡ none)
unfolding clipboard_init
clipboard_init_lem c e =
    let (s, init_runs, (top, filled)) = init_lem c.available_entries in
    let (entries, slots_run, (_, cleared)) =
      empty_slots_lem buf_max_count 0 buf_max_count c.entries (omega arith) (omega arith) in
    let em : (k : ℕ) → k < buf_max_count → (entries k).in_use ≡ empty =
      λ k l. cleared k (omega arith) l in
    let idle : (k : ℕ) → k < buf_max_count → busy (entries k) ≡ false =
      λ k l. idle_entry (entries k) (em k l) in
    (
      record { entries = entries; available_entries = s; heap = c.heap },
      rw (init_runs, slots_run),
      (
        record {
          fresh = record {
            within = omega (arith, top);
            number = λ k l. filled k (omega arith);
            unused = λ k l. idle k (omega arith);
          };
          buffers = record {
            owned = λ i l b. cc (idle i l, b);
            apart = λ i j li lj bi bj p. cc (idle i li, bi);
            no_leak = λ p b live. cc (ap (λ h. h p) e, live);
          };
        },
        top,
        λ i l. rw (em i l),
      ),
    )
