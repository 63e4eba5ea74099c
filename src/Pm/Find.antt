-- ===== src/Pm/Find.antt =====
-- The search for a process by its pid.
use clipboard.Prelude.{
  ℕ, zero, suc, ◌+◌, ◌≤◌, ◌<◌, ◌≡◌, refl, ◌≢◌, ◌⊎◌, inl, inr, Bool, true, ◌&&◌, arith, ◌==◌, Option,
  none, some, eq_cases, eq→==, Bool-cases, ==→eq,
}
use clipboard.Pm.{Mproc, active, find_slot}

-- What the loop over the slots finds from slot `i` up to slot `j`.
abbrev pub FoundSlot : ℕ → ℕ → ℕ → (ℕ → Mproc) → ℕ → Option ℕ → Type 0
FoundSlot in_use i j mproc pid2 r =
    ((k : ℕ) × (r ≡ some k)
      × (i ≤ k)
      × (k < j)
      × (active in_use (mproc k) ≡ true)
      × ((mproc k).mp_pid ≡ pid2))
    ⊎ ((r ≡ none)
        × ((k : ℕ) → i ≤ k → k < j → active in_use (mproc k) ≡ true → (mproc k).mp_pid ≢ pid2))

both_true : (a b : Bool) → (a && b) ≡ true → (a ≡ true) × (b ≡ true)
both_true a b h = ground arith

pub find_slot-FoundSlot :
    (in_use n i j : ℕ) (mproc : ℕ → Mproc) (pid2 : ℕ)
    → i + n ≡ j
    → FoundSlot in_use i j mproc pid2 (find_slot in_use n i mproc pid2)
unfolding find_slot
find_slot-FoundSlot in_use zero i j mproc pid2 e = inr (refl, λ k a b _ _. omega arith)
find_slot-FoundSlot in_use (suc n) i j mproc pid2 e =
    elim (Bool-cases (active in_use (mproc i) && (mproc i).mp_pid == pid2)) [
      | inl hit ↦ rw hit (
          inl (
            i,
            refl,
            omega arith,
            omega arith,
            (both_true (active in_use (mproc i)) ((mproc i).mp_pid == pid2) hit).0,
            ==→eq (mproc i).mp_pid pid2
                ((both_true (active in_use (mproc i)) ((mproc i).mp_pid == pid2) hit).1),
          ))
      | inr miss ↦ rw miss (elim (find_slot-FoundSlot in_use n (i + 1) j mproc pid2 (omega arith)) [
        | inl (k, r, a, b, act, p) ↦ inl (k, r, omega arith, b, act, p)
        | inr (r, absent) ↦ inr (
          r,
          λ k a b act p. elim (eq_cases k i) [
            | inl same ↦ cc (miss, hit_at i pid2 (rw same at act) (rw same at p))
            | inr other ↦ absent k (omega arith) b act p
          ],
        )
      ])
    ]
  where
    hit_at :
        (i pid2 : ℕ)
        → active in_use (mproc i) ≡ true
        → (mproc i).mp_pid ≡ pid2
        → (active in_use (mproc i) && (mproc i).mp_pid == pid2) ≡ true
    hit_at i pid2 act p = rw (act, eq→== (mproc i).mp_pid pid2 p)
