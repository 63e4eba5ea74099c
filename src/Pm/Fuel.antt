-- ===== src/Pm/Fuel.antt =====
-- The fuel of the climb to the root does not change what the call returns.
use clipboard.Prelude.{
  ℕ, zero, suc, ◌≡◌, refl, inl, inr, ◌==◌, some, Run, done, abort, undefined, ℤ, Bool-cases,
  Option-cases,
}
use clipboard.Pm.{Mproc, find_slot, parent_of, climb, do_checkifancestor}

climb_agree :
    (nr_procs f g : ℕ) (mproc : ℕ → Mproc) (pid1 i : ℕ) (r s : Run ℤ)
    → climb nr_procs f mproc pid1 i ≡ some r
    → climb nr_procs g mproc pid1 i ≡ some s
    → r ≡ s
unfolding climb
climb_agree nr_procs zero g mproc pid1 i r s a b = cc
climb_agree nr_procs (suc f) zero mproc pid1 i r s a b = cc
climb_agree nr_procs (suc f) (suc g) mproc pid1 i r s a b =
    step (parent_of nr_procs mproc i) refl (λ k. climb_agree nr_procs f g mproc pid1 k r s)
  where
    step :
        (p : Run (ℕ × Mproc))
        → parent_of nr_procs mproc i ≡ p
        → ((k : ℕ)
            → climb nr_procs f mproc pid1 k ≡ some r
            → climb nr_procs g mproc pid1 k ≡ some s
            → r ≡ s)
        → r ≡ s
    step abort e rest = cc (rw (e, climb) at a, rw (e, climb) at b)
    step undefined e rest = cc (rw (e, climb) at a, rw (e, climb) at b)
    step (done (k, q)) e rest = elim (Bool-cases (q.mp_pid == pid1)) [
      | inl hit ↦ cc (rw (e, climb, hit) at a, rw (e, climb, hit) at b)
      | inr miss ↦ elim (Bool-cases (q.mp_pid == 1)) [
        | inl one ↦ cc (rw (e, climb, miss, one) at a, rw (e, climb, miss, one) at b)
        | inr two ↦ rest k (rw (e, climb, miss, two) at a) (rw (e, climb, miss, two) at b)
      ]
    ]

-- Two amounts of fuel with which the call ends give the same result.
pub do_checkifancestor_agree :
    (nr_procs in_use f g : ℕ) (mproc : ℕ → Mproc) (pid1 pid2 : ℕ) (r s : Run ℤ)
    → do_checkifancestor nr_procs in_use f mproc pid1 pid2 ≡ some r
    → do_checkifancestor nr_procs in_use g mproc pid1 pid2 ≡ some s
    → r ≡ s
unfolding do_checkifancestor
do_checkifancestor_agree nr_procs in_use f g mproc pid1 pid2 r s a b =
    elim (Bool-cases (pid1 == pid2)) [
      | inl same ↦ cc (rw same at a, rw same at b)
      | inr ne ↦ elim (Option-cases (find_slot in_use nr_procs 0 mproc pid2)) [
        | inl missing ↦ cc (rw (ne, missing) at a, rw (ne, missing) at b)
        | inr (i, found) ↦
            climb_agree nr_procs f g mproc pid1 i r s (rw (ne, found) at a) (rw (ne, found) at b)
      ]
    ]
