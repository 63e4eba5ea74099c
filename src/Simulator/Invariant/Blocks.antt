-- ===== src/Simulator/Invariant/Blocks.antt =====
-- What each change of a slot does to the blocks that the entries own.
use clipboard.Prelude.{
  ℕ, ◌<◌, ◌≡◌, ◌≢◌, inl, inr, true, false, none, some, List, length, update, update_self, update_ne,
  eq_cases, sym, ◌∙◌, ap,
}
use clipboard.Memory.{Heap}
use clipboard.Simulator.{Entry, buf_max_count, busy}
use clipboard.Simulator.Invariant.{Buffers}

clash : (e : Entry) → busy e ≡ false → busy e ≢ true
clash e em b = cc

module _ {entries : ℕ → Entry} {h : Heap} (v : Buffers entries h) where
  -- A free slot is filled with a new block.
  pub Buffers-fill :
      (id : ℕ) (e : Entry) (b : List ℕ)
      → id < buf_max_count
      → busy (entries id) ≡ false
      → busy e ≡ true
      → h e.buffer ≡ none
      → length b ≡ e.buffer_len
      → Buffers (update entries id e) (update h e.buffer (some b))
  Buffers-fill id e b l em o new len = record {
    owned = λ i li oi. elim (eq_cases i id) [
      | inl same ↦ rw (same, update_self entries id e) (b, update_self h e.buffer (some b), len)
      | inr other ↦
          let oi' = was i other oi in
          rw
            (
              update_ne entries id e i other,
              update_ne h e.buffer (some b) (entries i).buffer (distinct i li oi'),
            )
            (v.owned i li oi')
    ];
    apart = λ i j li lj oi oj p. elim (eq_cases i id) [
      | inl si ↦ elim (eq_cases j id) [
        | inl sj ↦ si ∙ sym sj
        | inr oj' ↦ absurd (
            distinct j lj (was j oj' oj) (
              ap (λ (x : Entry). x.buffer) (sym (update_ne entries id e j oj'))
              ∙ sym p
              ∙ rw (si, update_self entries id e)))
      ]
      | inr oi' ↦ elim (eq_cases j id) [
        | inl sj ↦ absurd (
            distinct i li (was i oi' oi) (
              ap (λ (x : Entry). x.buffer) (sym (update_ne entries id e i oi'))
              ∙ p
              ∙ rw (sj, update_self entries id e)))
        | inr oj' ↦
            v.apart i j li lj (was i oi' oi) (was j oj' oj)
              (rw (update_ne entries id e i oi', update_ne entries id e j oj') at p)
      ]
    ];
    no_leak = λ p b' live. elim (eq_cases p e.buffer) [
      | inl same ↦
          (id, l, rw (update_self entries id e) o, rw (update_self entries id e) (sym same))
      | inr other ↦
          let (i, li, oi, pi) =
            v.no_leak p b' (rw (update_ne h e.buffer (some b) p other) at live) in
          let ne : i ≢ id = λ same. clash (entries i) (rw same em) oi in
          (i, li, rw (update_ne entries id e i ne) oi, rw (update_ne entries id e i ne) pi)
    ];
  }
    where
      distinct :
          (i : ℕ) → i < buf_max_count → busy (entries i) ≡ true → (entries i).buffer ≢ e.buffer
      distinct i li oi same = let (b', live, size) = v.owned i li oi in cc (ap h same, live, new)

      was : (i : ℕ) → i ≢ id → busy (update entries id e i) ≡ true → busy (entries i) ≡ true
      was i other oi = rw (update_ne entries id e i other) at oi

  -- An occupied slot is emptied and its block freed.
  pub Buffers-drop :
      (id : ℕ) (e : Entry)
      → id < buf_max_count
      → busy (entries id) ≡ true
      → busy e ≡ false
      → Buffers (update entries id e) (update h (entries id).buffer none)
  Buffers-drop id e l o em = record {
    owned = λ i li oi.
        let ne = other i oi in
        let oi' = was i ne oi in
        rw
          (
            update_ne entries id e i ne,
            update_ne h (entries id).buffer none (entries i).buffer
                (λ p. ne (v.apart i id li l oi' o p)),
          )
          (v.owned i li oi');
    apart = λ i j li lj oi oj p.
        v.apart i j li lj (was i (other i oi) oi) (was j (other j oj) oj)
          (rw (update_ne entries id e i (other i oi), update_ne entries id e j (other j oj)) at p);
    no_leak = λ p b live. elim (eq_cases p (entries id).buffer) [
      | inl same ↦ absurd (gone p b same live)
      | inr ne ↦
          let (i, li, oi, pi) =
            v.no_leak p b (rw (update_ne h (entries id).buffer none p ne) at live) in
          let ne' : i ≢ id = λ same. ne (sym pi ∙ ap (λ k. (entries k).buffer) same) in
          (i, li, rw (update_ne entries id e i ne') oi, rw (update_ne entries id e i ne') pi)
    ];
  }
    where
      other : (i : ℕ) → busy (update entries id e i) ≡ true → i ≢ id
      other i oi same = clash (update entries id e i) (rw (same, update_self entries id e) em) oi

      was : (i : ℕ) → i ≢ id → busy (update entries id e i) ≡ true → busy (entries i) ≡ true
      was i ne oi = rw (update_ne entries id e i ne) at oi

      gone :
          (p : ℕ) (b : List ℕ)
          → p ≡ (entries id).buffer
          → update h (entries id).buffer none p ≢ some b
      gone p b same live = cc (rw (same, update_self h (entries id).buffer none) at live)
