-- ===== src/Pm/Endless.antt =====
-- Where the loop of do_checkifancestor does not end.
use clipboard.Prelude.{ℕ, zero, suc, ◌<◌, ◌≡◌, refl, ◌≢◌, inl, inr, arith, true, none, ne→==_false}
use clipboard.Pm.{Mproc, active, climb, do_checkifancestor}
use clipboard.Pm.Depth.{parent}
use clipboard.Pm.Climb.{climb_step}
use clipboard.Pm.Find.{find_slot-FoundSlot}

-- A set of slots that the parents do not lead out of, nor to the pid 1 or `pid1`.
abbrev pub Closed : ℕ → (ℕ → Mproc) → ℕ → (ℕ → Type 0) → Type 0
Closed nr_procs mproc pid1 S =
    (i : ℕ)
    → S i
    → (i < nr_procs)
      × S (parent mproc i)
      × ((mproc (parent mproc i)).mp_pid ≢ 1)
      × ((mproc (parent mproc i)).mp_pid ≢ pid1)

module _ (nr_procs : ℕ) (mproc : ℕ → Mproc) (pid1 : ℕ) (S : ℕ → Type 0) where
  climb_endless :
      (f i : ℕ) → Closed nr_procs mproc pid1 S → S i → climb nr_procs f mproc pid1 i ≡ none
  unfolding climb
  climb_endless zero i closed s = refl
  climb_endless (suc f) i closed s =
      let (h, up, one, other) = closed i s in
      let (k, _, _, _) = closed (parent mproc i) up in
      rw
        (
          climb_step nr_procs mproc f pid1 i h k,
          ne→==_false (mproc (parent mproc i)).mp_pid pid1 other,
          ne→==_false (mproc (parent mproc i)).mp_pid 1 one,
        )
        (climb_endless f (parent mproc i) closed up)

  -- `pid1` is not `pid2`, an active process has the pid `pid2`, and each such process is in a set of
  -- slots that the parents do not lead out of, nor to a process with pid 1 or `pid1`: for instance, a
  -- process whose parent is itself. Then the call does not end, however many rounds the climb is
  -- given.
  pub do_checkifancestor_endless :
      (in_use fuel pid2 i : ℕ)
      → Closed nr_procs mproc pid1 S
      → pid1 ≢ pid2
      → i < nr_procs
      → active in_use (mproc i) ≡ true
      → (mproc i).mp_pid ≡ pid2
      → ((k : ℕ) → active in_use (mproc k) ≡ true → (mproc k).mp_pid ≡ pid2 → S k)
      → do_checkifancestor nr_procs in_use fuel mproc pid1 pid2 ≡ none
  unfolding do_checkifancestor
  do_checkifancestor_endless in_use fuel pid2 i closed ne l act pid inside =
      rw (ne→==_false pid1 pid2 ne)
        (elim (find_slot-FoundSlot in_use nr_procs 0 nr_procs mproc pid2 (omega arith)) [
          | inl (k, found, _, h, act', p) ↦
              rw (found, do_checkifancestor) (climb_endless fuel k closed (inside k act' p))
          | inr (missing, absent) ↦ absurd (absent i (omega arith) l act pid)
        ])
