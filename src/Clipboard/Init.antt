-- ===== src/Clipboard/Init.antt =====
-- clipboard_init.
use clipboard.Prelude.{
  ℕ, zero, suc, ◌+◌, ◌≤◌, ◌<◌, ◌≡◌, refl, inl, inr, arith, update, Returns, none, ◌∙◌, load_within,
  store_within, update_self, update_ne, eq_cases, ap,
}
use clipboard.Memory.{no_blocks}
use clipboard.Stack.Init.{init_lem}
use clipboard.Protocol.{buf_max_count}
use clipboard.Clipboard.{Entry, empty, Clipboard, clipboard_init, empty_slots}
use clipboard.Clipboard.Invariant.{IsValid, occupied}
use clipboard.Clipboard.View.{view}

empty_slots_lem :
    (n i j : ℕ) (entries : ℕ → Entry)
    → i + n ≡ j
    → j ≤ buf_max_count
    → Returns (empty_slots n i entries) λ entries'.
      ((k : ℕ) → k < i → entries' k ≡ entries k)
      × ((k : ℕ) → i ≤ k → k < j → (entries' k).in_use ≡ empty)
unfolding empty_slots
empty_slots_lem zero i j entries e h = (entries, refl, (λ k _. refl, λ k a b. absurd (omega arith)))
empty_slots_lem (suc n) i j entries e h =
    let (entries', runs, (below, above)) =
      empty_slots_lem n (i + 1) j (update entries i (record (entries i) { in_use = empty }))
        (omega arith) h in
    (
      entries',
      rw
          (
            load_within buf_max_count entries i (omega arith),
            store_within buf_max_count entries i (record (entries i) { in_use = empty })
                (omega arith),
          )
          runs,
      (
        λ k a.
            below k (omega arith)
            ∙ update_ne entries i (record (entries i) { in_use = empty }) k (omega arith),
        λ k a b. elim (eq_cases k i) [
          | inl same ↦ rw same (
              ap (λ (x : Entry). x.in_use)
                (below i (omega arith)
                  ∙ update_self entries i (record (entries i) { in_use = empty })))
          | inr other ↦ above k (omega arith) b
        ],
      ),
    )

occupied_none :
    (entries : ℕ → Entry) (n : ℕ)
    → ((k : ℕ) → k < n → (entries k).in_use ≡ empty)
    → occupied entries n ≡ 0
unfolding occupied
occupied_none entries zero h = refl
occupied_none entries (suc n) h =
    ground (arith, h n (omega arith), occupied_none entries n (λ k l. h k (omega arith)))

-- Started with no live block, `clipboard_init` never faults, whatever CLIPBOARD holds, and leaves a
-- valid state in which every number is free.
pub clipboard_init_lem :
    (c : Clipboard)
    → c.heap ≡ no_blocks
    → Returns (clipboard_init c) λ d. IsValid d × ((i : ℕ) → i < buf_max_count → view d i ≡ none)
unfolding clipboard_init
clipboard_init_lem c e =
    let (s, init_runs, (top, filled)) = init_lem c.available_entries in
    let (entries, slots_run, (_, cleared)) =
      empty_slots_lem buf_max_count 0 buf_max_count c.entries (omega arith) (omega arith) in
    let em : (k : ℕ) → k < buf_max_count → (entries k).in_use ≡ empty =
      λ k l. cleared k (omega arith) l in
    (
      record { entries = entries; available_entries = s; heap = c.heap },
      rw (init_runs, slots_run),
      (
        record {
          free_list = record {
            within = omega (arith, top, occupied_none entries buf_max_count em);
            index = λ k l. omega (arith, filled k (omega arith));
            free = λ k l. rw (filled k (omega arith)) (em k (omega arith));
            once = λ k l less h. omega (arith, filled k (omega arith), filled l (omega arith));
            complete = λ id l _. (id, omega arith, filled id l);
          };
          buffers = record {
            owned = λ id l o. absurd (o (em id l));
            apart = λ i j li lj oi oj p. absurd (oi (em i li));
            no_leak = λ p b live. cc (ap (λ h. h p) e, live);
          };
          one_lock = λ pid i j li lj a b. cc (em i li, a.0);
        },
        λ i l. rw (em i l),
      ),
    )
