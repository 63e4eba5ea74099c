-- ===== src/Pm/Ancestor.antt =====
-- The call against the relation between a process and its ancestors.
use clipboard.Prelude.{
  ℕ, ◌≤◌, ◌<◌, ◌≡◌, ◌≢◌, ◌⊎◌, inl, inr, true, arith, eq_cases, eq→==, ne→==_false, subst, sym, ◌∙◌,
}
use clipboard.Pm.Depth.{Leads, Leads-bound}
use clipboard.Pm.{Mproc, active, do_checkifancestor}
use clipboard.Pm.Climb.{Answers, Ancestor, climb-Answers}
use clipboard.Pm.Find.{find_slot-FoundSlot}

-- The process table as the process manager keeps it: no two active slots have one pid, and from each
-- active slot the parents lead to pid 1, within the table.
pub record IsTable (nr_procs in_use : ℕ) (mproc : ℕ → Mproc) : Type 0 where
  pub unique :
      (i j : ℕ)
      → i < nr_procs
      → j < nr_procs
      → active in_use (mproc i) ≡ true
      → active in_use (mproc j) ≡ true
      → (mproc i).mp_pid ≡ (mproc j).mp_pid
      → i ≡ j
  pub rooted :
      (i : ℕ) → i < nr_procs → active in_use (mproc i) ≡ true → (k : ℕ) × Leads nr_procs mproc i k

-- `pid1` is `pid2`, or an ancestor of the active process with pid `pid2`.
abbrev pub IsAncestorOf : ℕ → ℕ → (ℕ → Mproc) → ℕ → ℕ → Type 0
IsAncestorOf nr_procs in_use mproc pid1 pid2 =
    (pid1 ≡ pid2)
    ⊎ ((i : ℕ) × (i < nr_procs)
        × (active in_use (mproc i) ≡ true)
        × ((mproc i).mp_pid ≡ pid2)
        × Ancestor nr_procs mproc pid1 i)

-- On a well-formed table the call ends, with fuel for NR_PROCS rounds of the climb, without an access
-- outside the table, and returns 1 if `pid1` is `pid2` or an ancestor of the active process `pid2`,
-- and 0 if not.
pub do_checkifancestor_lem :
    (nr_procs in_use fuel : ℕ) (mproc : ℕ → Mproc) (pid1 pid2 : ℕ)
    → IsTable nr_procs in_use mproc
    → nr_procs ≤ fuel
    → Answers
        (IsAncestorOf nr_procs in_use mproc pid1 pid2)
        (do_checkifancestor nr_procs in_use fuel mproc pid1 pid2)
unfolding do_checkifancestor
do_checkifancestor_lem nr_procs in_use fuel mproc pid1 pid2 t enough = elim (eq_cases pid1 pid2) [
  | inl same ↦ inl (inl same, rw (eq→== pid1 pid2 same))
  | inr ne ↦
      rw (ne→==_false pid1 pid2 ne)
        (elim (find_slot-FoundSlot in_use nr_procs 0 nr_procs mproc pid2 (omega arith)) [
          | inl (i, found, low, h, act, p) ↦
              let (k, leads) = t.rooted i h act in
              elim (climb-Answers nr_procs mproc fuel k pid1 i leads
                (omega (arith, Leads-bound nr_procs mproc leads))) [
                  | inl (a, r) ↦ inl (inr (i, h, act, p, a), rw (found, do_checkifancestor) r)
                  | inr (a, r) ↦ inr (other ne i h act p a, rw (found, do_checkifancestor) r)
                ]
          | inr (missing, absent) ↦ inr (nobody ne absent, rw (missing, do_checkifancestor))
        ])
]
  where
    other :
        pid1 ≢ pid2
        → (i : ℕ) → i < nr_procs
        → active in_use (mproc i) ≡ true
        → (mproc i).mp_pid ≡ pid2
        → ¬ Ancestor nr_procs mproc pid1 i
        → ¬ IsAncestorOf nr_procs in_use mproc pid1 pid2
    other ne i h act p a (inl same) = ne same
    other ne i h act p a (inr (j, hj, actj, pj, aj)) =
        a (subst (Ancestor nr_procs mproc pid1) (t.unique j i hj h actj act (pj ∙ sym p)) aj)

    nobody :
        pid1 ≢ pid2
        → ((k : ℕ)
            → 0 ≤ k
            → k < nr_procs
            → active in_use (mproc k) ≡ true
            → (mproc k).mp_pid ≢ pid2)
        → ¬ IsAncestorOf nr_procs in_use mproc pid1 pid2
    nobody ne absent (inl same) = ne same
    nobody ne absent (inr (j, hj, actj, pj, aj)) = absent j (omega arith) hj actj pj
