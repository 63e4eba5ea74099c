-- ===== src/LiveUpdate/Save.antt =====
-- sef_cb_lu_state_save.
use clipboard.Prelude.{
  ℕ, zero, suc, ◌+◌, ◌≤◌, ◌<◌, ◌≡◌, refl, ◌≢◌, inl, inr, arith, true, false, le→leb, none, some,
  List, length, done, Returns, load_within, update, update_self, update_ne, eq_cases, take_whole,
  sym, ◌∙◌, ap, subst, Bool-cases, Option-cases,
}
use clipboard.Memory.{Heap}
use clipboard.Memory.Laws.{block_at_live, free_live}
use clipboard.Protocol.{buf_max_count}
use clipboard.Clipboard.{Entry, empty, Clipboard, ok}
use clipboard.Clipboard.Invariant.{IsValid, Occupied}
use clipboard.LiveUpdate.{
  clipboard_key, buf_key, image_at, text, DataStore, in_slot, save_entry, save_entries,
  sef_cb_lu_state_save,
}

pub in_slot-Occupied : (e : Entry) → in_slot e ≡ true → Occupied e
in_slot-Occupied e h em = ground arith

pub in_slot_empty : (e : Entry) → in_slot e ≡ false → e.in_use ≡ empty
in_slot_empty e h = ground arith

buf_key_injective : (i j : ℕ) → buf_key i ≡ buf_key j → i ≡ j
buf_key_injective i j h = cc

-- The data store takes the text of each occupied slot from `i` on, in this order.
abbrev pub Publishes : {D : Type 0} → DataStore D → Clipboard → ℕ → ℕ → D → Type 0
Publishes ds c zero i d = Unit {0}
Publishes ds c (suc n) i d =
    ((b : List ℕ)
      → Occupied (c.entries i)
      → c.heap (c.entries i).buffer ≡ some b
      → ((ds.publish (buf_key i) (text b) d).0 ≡ ok)
        × Publishes ds c n (i + 1) (ds.publish (buf_key i) (text b) d).1)
    × ((c.entries i).in_use ≡ empty → Publishes ds c n (i + 1) d)

-- It takes CLIPBOARD, and then these texts.
abbrev pub AllPublished : {D : Type 0} → DataStore D → ℕ → Clipboard → D → Type 0
AllPublished ds base c d =
    ((ds.publish clipboard_key (image_at base c) d).0 ≡ ok)
    × Publishes ds c buf_max_count 0 (ds.publish clipboard_key (image_at base c) d).1

module _ {D : Type 0} (ds : DataStore D) (base : ℕ) (c : Clipboard) (v : IsValid c) where
  -- Between two rounds: the blocks of the slots from `i` on are as they were, and those before are in
  -- the store.
  abbrev Saved : ℕ → D → Heap → Type 0
  Saved i d h =
      ((k : ℕ)
        → i ≤ k
        → k < buf_max_count
        → Occupied (c.entries k)
        → h (c.entries k).buffer ≡ c.heap (c.entries k).buffer)
      × ((p : ℕ) (b : List ℕ)
          → h p ≡ some b
          → (k : ℕ) × (i ≤ k)
            × (k < buf_max_count)
            × Occupied (c.entries k)
            × ((c.entries k).buffer ≡ p))
      × ((k : ℕ) (b : List ℕ)
          → k < i
          → k < buf_max_count
          → Occupied (c.entries k)
          → c.heap (c.entries k).buffer ≡ some b
          → ds.retrieve (buf_key k) d ≡ some (text b))
      × (ds.retrieve clipboard_key d ≡ some (image_at base c))

  save_entry_runs :
      (i : ℕ) (d : D) (h : Heap) (b : List ℕ)
      → h (c.entries i).buffer ≡ some b
      → length b ≡ (c.entries i).buffer_len
      → save_entry ds i (c.entries i) d h
        ≡ done ((ds.publish (buf_key i) (text b) d).1, update h (c.entries i).buffer none)
  unfolding save_entry
  save_entry_runs i d h b live size = rw (
    block_at_live (c.entries i).buffer h b live,
    le→leb (c.entries i).buffer_len (length b) (omega arith),
    free_live (c.entries i).buffer h b live,
    take_whole (c.entries i).buffer_len b (omega arith),
  )

  save_step :
      (i : ℕ) (d : D) (h : Heap) (b : List ℕ)
      → i < buf_max_count
      → Occupied (c.entries i)
      → c.heap (c.entries i).buffer ≡ some b
      → (ds.publish (buf_key i) (text b) d).0 ≡ ok
      → Saved i d h
      → Saved (i + 1) (ds.publish (buf_key i) (text b) d).1 (update h (c.entries i).buffer none)
  save_step i d h b l o live taken (rest, blocks, stored, whole) = (
    λ k a lk ok.
        update_ne h (c.entries i).buffer none (c.entries k).buffer
          (λ same. omega (arith, v.buffers.apart k i lk l ok o same))
        ∙ rest k (omega arith) lk ok,
    λ p b' e. elim (eq_cases p (c.entries i).buffer) [
      | inl same ↦ absurd (gone p b' same e)
      | inr ne ↦ later p ne (blocks p b' (rw (update_ne h (c.entries i).buffer none p ne) at e))
    ],
    λ k b' lt lk ok e. elim (eq_cases k i) [
      | inl same ↦ rw same (
          ds.retrieve-publish_self (buf_key i) (text b) d taken
          ∙ ap (λ x. some (text x)) (one_text (rw same at e)))
      | inr ne ↦
          ds.retrieve-publish_ne (buf_key i) (buf_key k) (text b) d
            (λ e'. ne (buf_key_injective k i e'))
          ∙ stored k b' (omega arith) lk ok e
    ],
    ds.retrieve-publish_ne (buf_key i) clipboard_key (text b) d (λ e. cc) ∙ whole,
  )
    where
      gone :
          (p : ℕ) (b' : List ℕ)
          → p ≡ (c.entries i).buffer
          → update h (c.entries i).buffer none p ≢ some b'
      gone p b' same e = cc (rw (same, update_self h (c.entries i).buffer none) at e)

      one_text : {b' : List ℕ} → c.heap (c.entries i).buffer ≡ some b' → b ≡ b'
      one_text e = cc (live, e)

      later :
          (p : ℕ)
          → p ≢ (c.entries i).buffer
          → ((k : ℕ) × (i ≤ k)
              × (k < buf_max_count)
              × Occupied (c.entries k)
              × ((c.entries k).buffer ≡ p))
          → (k : ℕ) × (i + 1 ≤ k)
            × (k < buf_max_count)
            × Occupied (c.entries k)
            × ((c.entries k).buffer ≡ p)
      later p ne (k, a, lk, ok, e) = elim (eq_cases k i) [
        | inl same ↦ absurd (ne (sym e ∙ ap (λ m. (c.entries m).buffer) same))
        | inr ne' ↦ (k, omega arith, lk, ok, e)
      ]

  save_skip :
      (i : ℕ) (d : D) (h : Heap) → (c.entries i).in_use ≡ empty → Saved i d h → Saved (i + 1) d h
  save_skip i d h em (rest, blocks, stored, whole) = (
    λ k a lk ok. rest k (omega arith) lk ok,
    λ p b e.
        let (k, a, lk, ok, at_p) = blocks p b e in
        let ne : k ≢ i = λ same. ok (ap (λ m. (c.entries m).in_use) same ∙ em) in
        (k, omega arith, lk, ok, at_p),
    λ k b lt lk ok e. elim (eq_cases k i) [
      | inl same ↦ absurd (ok (ap (λ m. (c.entries m).in_use) same ∙ em))
      | inr ne ↦ stored k b (omega arith) lk ok e
    ],
    whole,
  )

  save_loop :
      (n i : ℕ) (d : D) (h : Heap)
      → i + n ≡ buf_max_count
      → Saved i d h
      → Publishes ds c n i d
      → Returns (save_entries ds n i c.entries d h) λ x. Saved buf_max_count x.0 x.1
  unfolding save_entries
  save_loop zero i d h e s fits = ((d, h), refl, subst (λ k. Saved k d h) (omega arith) s)
  save_loop (suc n) i d h e s fits = elim (Bool-cases (in_slot (c.entries i))) [
    | inr free_slot ↦
        rw (load_within buf_max_count c.entries i (omega arith), free_slot)
          (save_loop n (i + 1) d h (omega arith)
            (save_skip i d h (in_slot_empty (c.entries i) free_slot) s)
            (fits.1 (in_slot_empty (c.entries i) free_slot)))
    | inl taken ↦
        let o = in_slot-Occupied (c.entries i) taken in
        let (b, live, size, small) = v.buffers.owned i (omega arith) o in
        let (accepted, fits') = fits.0 b o live in
        rw
          (
            load_within buf_max_count c.entries i (omega arith),
            taken,
            save_entry_runs i d h b (s.0 i (omega arith) (omega arith) o ∙ live) size,
          )
          (save_loop n (i + 1) (ds.publish (buf_key i) (text b) d).1
            (update h (c.entries i).buffer none) (omega arith)
            (save_step i d h b (omega arith) o live accepted s) fits')
  ]

  -- Saving a valid state, with a data store that takes all of it, never faults. It frees every block,
  -- and leaves in the data store CLIPBOARD and, for each occupied slot, its text.
  pub sef_cb_lu_state_save_lem :
      (d : D)
      → AllPublished ds base c d
      → Returns (sef_cb_lu_state_save ds base c d) λ x.
        ((p : ℕ) → x.1 p ≡ none)
        × (ds.retrieve clipboard_key x.0 ≡ some (image_at base c))
        × ((k : ℕ) (b : List ℕ)
            → k < buf_max_count
            → Occupied (c.entries k)
            → c.heap (c.entries k).buffer ≡ some b
            → ds.retrieve (buf_key k) x.0 ≡ some (text b))
  unfolding sef_cb_lu_state_save
  sef_cb_lu_state_save_lem d (accepted, fits) =
      let first = (ds.publish clipboard_key (image_at base c) d).1 in
      let (x, runs, (rest, blocks, stored, whole)) =
        save_loop buf_max_count 0 first c.heap (omega arith)
          (
            λ k a lk ok. refl,
            λ p b e.
                let (k, lk, ok, at_p) = v.buffers.no_leak p b e in (k, omega arith, lk, ok, at_p),
            λ k b lt lk ok e. absurd (omega arith),
            ds.retrieve-publish_self clipboard_key (image_at base c) d accepted,
          )
          fits in
      (x, runs, (λ p. none_left x.1 p blocks, whole, λ k b lk ok e. stored k b lk lk ok e))
    where
      none_left :
          (h : Heap) (p : ℕ)
          → ((q : ℕ) (b : List ℕ)
              → h q ≡ some b
              → (k : ℕ) × (buf_max_count ≤ k)
                × (k < buf_max_count)
                × Occupied (c.entries k)
                × ((c.entries k).buffer ≡ q))
          → h p ≡ none
      none_left h p blocks = elim (Option-cases (h p)) [
        | inl gone ↦ gone
        | inr (b, e) ↦ let (k, a, lk, ok, at_p) = blocks p b e in absurd (omega arith)
      ]
