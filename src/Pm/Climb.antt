-- ===== src/Pm/Climb.antt =====
-- The climb from a process to its ancestors.
use clipboard.Prelude.{
  ℕ, zero, suc, ◌≤◌, ◌<◌, ◌≡◌, ◌≢◌, ◌⊎◌, inl, inr, not, arith, ◌==◌, if◌then◌else◌, Option, some,
  Run, done, ℤ, pos, load_within, eq_cases, eq→==, ne→==_false,
}
use clipboard.Pm.Depth.{parent, Leads, root, up}
use clipboard.Pm.{Mproc, parent_of, climb}

-- The answer of the call for what holds.
abbrev pub Answers : Type 0 → Option (Run ℤ) → Type 0
Answers P r = (P × (r ≡ some (done (pos 1)))) ⊎ ((¬ P) × (r ≡ some (done (pos 0))))

module _ (nr_procs : ℕ) (mproc : ℕ → Mproc) where
  -- A process with that pid stands among the parents of slot `i`, up to the first with pid 1.
  pub data Ancestor (pid1 : ℕ) : ℕ → Type 0 where
    direct : {i : ℕ} → (mproc (parent mproc i)).mp_pid ≡ pid1 → Ancestor pid1 i
    further :
        {i : ℕ}
        → (mproc (parent mproc i)).mp_pid ≢ 1
        → Ancestor pid1 (parent mproc i)
        → Ancestor pid1 i

  parent_of_within :
      (i : ℕ)
      → i < nr_procs
      → parent mproc i < nr_procs
      → parent_of nr_procs mproc i ≡ done (parent mproc i, mproc (parent mproc i))
  unfolding parent_of
  parent_of_within i h k =
      rw (load_within nr_procs mproc i h, load_within nr_procs mproc (parent mproc i) k)

  Ancestor-root :
      {pid1 i : ℕ}
      → (mproc (parent mproc i)).mp_pid ≡ 1
      → (mproc (parent mproc i)).mp_pid ≢ pid1
      → ¬ Ancestor pid1 i
  Ancestor-root one other (direct e) = other e
  Ancestor-root one other (further n a) = n one

  Ancestor-up :
      {pid1 i : ℕ}
      → (mproc (parent mproc i)).mp_pid ≢ pid1
      → Ancestor pid1 i
      → Ancestor pid1 (parent mproc i)
  Ancestor-up other (direct e) = absurd (other e)
  Ancestor-up other (further n a) = a

  pub climb_step :
      (f pid1 i : ℕ)
      → i < nr_procs
      → parent mproc i < nr_procs
      → climb nr_procs (suc f) mproc pid1 i ≡ (
          if (mproc (parent mproc i)).mp_pid == pid1
          then some (done (pos 1))
          else if not ((mproc (parent mproc i)).mp_pid == 1)
          then climb nr_procs f mproc pid1 (parent mproc i)
          else some (done (pos 0)))
  unfolding climb
  climb_step f pid1 i h k = rw (parent_of_within i h k, climb)

  climb_hit :
      (f pid1 i : ℕ)
      → i < nr_procs
      → parent mproc i < nr_procs
      → (mproc (parent mproc i)).mp_pid ≡ pid1
      → Answers (Ancestor pid1 i) (climb nr_procs (suc f) mproc pid1 i)
  climb_hit f pid1 i h k e =
      inl (direct e, rw (climb_step f pid1 i h k, eq→== (mproc (parent mproc i)).mp_pid pid1 e))

  -- With as much fuel as there are steps up to pid 1 the loop ends, and says whether it met the pid.
  pub climb-Answers :
      (f k pid1 i : ℕ)
      → Leads nr_procs mproc i k
      → k ≤ f
      → Answers (Ancestor pid1 i) (climb nr_procs f mproc pid1 i)
  climb-Answers zero k pid1 i (root h l one) b = absurd (omega arith)
  climb-Answers zero k pid1 i (up h l n rest) b = absurd (omega arith)
  climb-Answers (suc f) k pid1 i (root h l one) b =
      elim (eq_cases (mproc (parent mproc i)).mp_pid pid1) [
        | inl e ↦ climb_hit f pid1 i h l e
        | inr n ↦ inr (
          Ancestor-root one n,
          rw (
            climb_step f pid1 i h l,
            ne→==_false (mproc (parent mproc i)).mp_pid pid1 n,
            eq→== (mproc (parent mproc i)).mp_pid 1 one,
          ),
        )
      ]
  climb-Answers (suc f) k pid1 i (up {k = m} h l two rest) b =
      elim (eq_cases (mproc (parent mproc i)).mp_pid pid1) [
        | inl e ↦ climb_hit f pid1 i h l e
        | inr n ↦
            rw
              (
                climb_step f pid1 i h l,
                ne→==_false (mproc (parent mproc i)).mp_pid pid1 n,
                ne→==_false (mproc (parent mproc i)).mp_pid 1 two,
              )
              (elim (climb-Answers f m pid1 (parent mproc i) rest (omega arith)) [
                | inl (a, r) ↦ inl (further two a, r)
                | inr (a, r) ↦ inr (λ x. a (Ancestor-up n x), r)
              ])
      ]
