-- ===== src/LiveUpdate/Slots.antt =====
-- The entries of the driver with other blocks, and some of its slots alone.
use clipboard.Prelude.{
  ℕ, zero, suc, ◌+◌, ◌<◌, ◌≡◌, refl, ◌≢◌, inl, inr, arith, if◌then◌else◌, ltb, update, update_self,
  update_ne, eq_cases, lt_cases, ap, fun_ext, lt→ltb, le→ltb_false,
}
use clipboard.Memory.{Heap}
use clipboard.Stack.{Stack}
use clipboard.Protocol.{buf_max_count}
use clipboard.Clipboard.{Entry, Slot, empty, used, locked}
use clipboard.Clipboard.Invariant.{FreeList, Buffers, occupied, weight}
use clipboard.Clipboard.View.{view_entry}

-- The entries with other blocks.
abbrev pub moved : (ℕ → Entry) → (ℕ → ℕ) → ℕ → Entry
moved es q k = record (es k) { buffer = q k }

occupied-moved : (es : ℕ → Entry) (q : ℕ → ℕ) (n : ℕ) → occupied (moved es q) n ≡ occupied es n
unfolding occupied
occupied-moved es q zero = refl
occupied-moved es q (suc n) = ap (λ k. weight (es n) + k) (occupied-moved es q n)

pub FreeList-moved :
    {es : ℕ → Entry} {s : Stack} (q : ℕ → ℕ) → FreeList es s → FreeList (moved es q) s
FreeList-moved {es} q v = record {
  within = omega (arith, v.within, occupied-moved es q buf_max_count);
  index = v.index;
  free = v.free;
  once = v.once;
  complete = v.complete;
}

-- The slots below `i`; the others seen as empty.
abbrev pub below : ℕ → (ℕ → Entry) → ℕ → Entry
below i es k = if ltb k i then es k else record (es k) { in_use = empty }

pub below-update :
    (i : ℕ) (es : ℕ → Entry) (e : Entry) → below (i + 1) (update es i e) ≡ update (below i es) i e
below-update i es e = fun_ext λ k. elim (eq_cases k i) [
  | inl same ↦
      rw (same, lt→ltb i (i + 1) (omega arith), update_self es i e, update_self (below i es) i e)
  | inr ne ↦
      rw (update_ne es i e k ne, update_ne (below i es) i e k ne)
        (elim (lt_cases k i) [
          | inl l ↦ rw (lt→ltb k i l, lt→ltb k (i + 1) (omega arith))
          | inr g ↦ rw (le→ltb_false k i g, le→ltb_false k (i + 1) (omega arith))
        ])
]

emptied : (e : Entry) → e.in_use ≡ empty → e ≡ record e { in_use = empty }
emptied e h = ground arith

pub below-skip : (i : ℕ) (es : ℕ → Entry) → (es i).in_use ≡ empty → below (i + 1) es ≡ below i es
below-skip i es h = fun_ext λ k. elim (eq_cases k i) [
  | inl same ↦
      rw (same, lt→ltb i (i + 1) (omega arith), le→ltb_false i i (omega arith)) (emptied (es i) h)
  | inr ne ↦ elim (lt_cases k i) [
    | inl l ↦ rw (lt→ltb k i l, lt→ltb k (i + 1) (omega arith))
    | inr g ↦ rw (le→ltb_false k i g, le→ltb_false k (i + 1) (omega arith))
  ]
]

pub below_all : (es : ℕ → Entry) (k : ℕ) → k < buf_max_count → below buf_max_count es k ≡ es k
below_all es k h = rw (lt→ltb k buf_max_count h)

-- `Buffers` speaks of the slots that there are.
pub Buffers-cong :
    {es fs : ℕ → Entry} {h : Heap}
    → ((k : ℕ) → k < buf_max_count → es k ≡ fs k)
    → Buffers es h
    → Buffers fs h
Buffers-cong {h} same v = record {
  owned = λ k l o. rw (← same k l) (v.owned k l (rw (same k l) o));
  apart = λ i j li lj oi oj p.
      v.apart i j li lj (rw (same i li) oi) (rw (same j lj) oj) (rw (same i li, same j lj) p);
  no_leak = λ p b e.
      let (k, l, o, at_p) = v.no_leak p b e in (k, l, rw (← same k l) o, rw (← same k l) at_p);
}

pub view_entry-moved :
    (h h' : Heap) (e e' : Entry) (s : Slot)
    → e ≡ record e' { buffer = e.buffer }
    → (s ≢ empty → h e.buffer ≡ h' e'.buffer)
    → view_entry h e s ≡ view_entry h' e' s
view_entry-moved h h' e e' empty same texts = refl
view_entry-moved h h' e e' used same texts = cc (same, texts (λ e. cc))
view_entry-moved h h' e e' locked same texts = cc (same, texts (λ e. cc))
