-- ===== src/Clipboard/Invariant/Slots.antt =====
-- What each change of a slot does to the list of the free ones.
use clipboard.Prelude.{
  ℕ, ◌+◌, ◌-◌, ◌<◌, ◌≡◌, ◌≢◌, inl, inr, arith, update, update_self, update_ne, eq_cases, sym, ◌∙◌,
  ap,
}
use clipboard.Stack.{Stack}
use clipboard.Protocol.{buf_max_count}
use clipboard.Clipboard.{Entry, empty}
use clipboard.Clipboard.Invariant.{Occupied, FreeList, weight, occupied-update}

in_use-update_ne :
    (entries : ℕ → Entry) (id : ℕ) (e : Entry) (j : ℕ)
    → j ≢ id
    → (update entries id e j).in_use ≡ (entries j).in_use
in_use-update_ne entries id e j h = ap (λ (x : Entry). x.in_use) (update_ne entries id e j h)

in_use-update_self :
    (entries : ℕ → Entry) (id : ℕ) (e : Entry) → (update entries id e id).in_use ≡ e.in_use
in_use-update_self entries id e = ap (λ (x : Entry). x.in_use) (update_self entries id e)

weight_empty : (e : Entry) → e.in_use ≡ empty → weight e ≡ 0
weight_empty e h = ground arith

weight-Occupied : (e : Entry) → Occupied e → weight e ≡ 1
weight-Occupied e h = ground arith

module _ {entries : ℕ → Entry} {s : Stack} (v : FreeList entries s) where
  -- An occupied slot stays occupied.
  pub FreeList-keep :
      (id : ℕ) (e : Entry)
      → id < buf_max_count
      → Occupied (entries id)
      → Occupied e
      → FreeList (update entries id e) s
  FreeList-keep id e h o o' = record {
    within = omega (
      arith,
      v.within,
      occupied-update entries id e buf_max_count h,
      weight-Occupied e o',
      weight-Occupied (entries id) o,
    );
    index = v.index;
    free = λ k l. elim (eq_cases (s.value k) id) [
      | inl same ↦ absurd (o (ap (λ i. (entries i).in_use) (sym same) ∙ v.free k l))
      | inr other ↦ in_use-update_ne entries id e (s.value k) other ∙ v.free k l
    ];
    once = v.once;
    complete = λ i l em. elim (eq_cases i id) [
      | inl same ↦ absurd (o' (cc (in_use-update_self entries id e)))
      | inr other ↦ v.complete i l (cc (in_use-update_ne entries id e i other))
    ];
  }

  -- The slot on top of the stack is taken and filled.
  pub FreeList-take :
      (e : Entry)
      → s.current ≢ 0
      → Occupied e
      → FreeList (update entries (s.value (s.current - 1)) e) (record s { current = s.current - 1 })
  FreeList-take e ne o = record {
    within = omega (
      arith,
      v.within,
      occupied-update entries (s.value last) e buf_max_count (v.index last below),
      weight-Occupied e o,
      weight_empty (entries (s.value last)) (v.free last below),
    );
    index = λ k l. v.index k (omega arith);
    free = λ k l.
        in_use-update_ne entries (s.value last) e (s.value k) (v.once k last (omega arith) below)
        ∙ v.free k (omega arith);
    once = λ k l less h. v.once k l less (omega arith);
    complete = λ i l em. elim (eq_cases i (s.value last)) [
      | inl same ↦ absurd (o (cc (in_use-update_self entries (s.value last) e)))
      | inr other ↦
          let (k, lt, e') =
            v.complete i l (cc (in_use-update_ne entries (s.value last) e i other)) in
          (k, elim (eq_cases k last) [ inl top ↦ absurd (other (cc)) | inr low ↦ omega arith ], e')
    ];
  }
    where
      last : ℕ
      last = s.current - 1

      below : last < s.current
      below = omega arith

  -- An occupied slot is emptied and pushed.
  pub FreeList-give :
      (id : ℕ) (e : Entry)
      → id < buf_max_count
      → Occupied (entries id)
      → e.in_use ≡ empty
      → FreeList
          (update entries id e)
          (record { value = update s.value s.current id; current = s.current + 1 })
  FreeList-give id e h o em = record {
    within = omega (
      arith,
      v.within,
      occupied-update entries id e buf_max_count h,
      weight_empty e em,
      weight-Occupied (entries id) o,
    );
    index = λ k l. elim (eq_cases k s.current) [
      | inl new ↦ rw (new, update_self s.value s.current id) h
      | inr old ↦ rw (update_ne s.value s.current id k old) (v.index k (omega arith))
    ];
    free = λ k l. elim (eq_cases k s.current) [
      | inl new ↦ rw (new, update_self s.value s.current id) (in_use-update_self entries id e ∙ em)
      | inr old ↦ rw (update_ne s.value s.current id k old) (
          in_use-update_ne entries id e (s.value k) (stays k (omega arith))
          ∙ v.free k (omega arith))
    ];
    once = λ k l less h'. elim (eq_cases l s.current) [
      | inl new ↦
          rw (new, update_self s.value s.current id, update_ne s.value s.current id k (omega arith))
            (stays k (omega arith))
      | inr old ↦
          rw (update_ne s.value s.current id l old, update_ne s.value s.current id k (omega arith))
            (v.once k l less (omega arith))
    ];
    complete = λ i l em'. elim (eq_cases i id) [
      | inl same ↦ (s.current, omega arith, update_self s.value s.current id ∙ sym same)
      | inr other ↦
          let (k, lt, e') = v.complete i l (cc (in_use-update_ne entries id e i other)) in
          (k, omega arith, update_ne s.value s.current id k (omega arith) ∙ e')
    ];
  }
    where
      stays : (k : ℕ) → k < s.current → s.value k ≢ id
      stays k l same = o (ap (λ i. (entries i).in_use) (sym same) ∙ v.free k l)
