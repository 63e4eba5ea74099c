-- ===== src/Pm.antt =====
-- do_check_if_ancestor.c of the process manager (new/usr/src/minix/servers/pm).
pub mod Climb
pub mod Find
pub mod Ancestor
pub mod Fuel
pub mod Depth
pub mod Endless
pub mod CallNr
pub mod Table
pub mod Proto
pub mod ProtoBefore
pub mod Declared
use Prim.Native.Nat.{bit_and}
use clipboard.Prelude.{
  ℕ, zero, suc, ◌+◌, ◌≡◌, Bool, true, false, not, ◌&&◌, ◌==◌, if◌then◌else◌, Option, none, some,
  Run, done, abort, undefined, ◌>>=◌, load, ℤ, pos,
}

-- The fields of struct mproc that the call reads.
pub record Mproc : Type 0 where
  pub mp_pid : ℕ
  pub mp_parent : ℕ
  pub mp_flags : ℕ

-- IN_USE is a constant of the process manager's own headers, and so is NR_PROCS below.
abbrev pub active : ℕ → Mproc → Bool
active in_use p = not (bit_and p.mp_flags in_use == 0)

-- The loop over the slots, with `n` rounds left, at slot `i`: the first active slot with the pid.
unfoldable pub find_slot : ℕ → ℕ → ℕ → (ℕ → Mproc) → ℕ → Option ℕ
find_slot in_use zero i mproc pid2 = none
find_slot in_use (suc n) i mproc pid2 =
    let rest = find_slot in_use n (i + 1) mproc pid2 in
    if active in_use (mproc i) && (mproc i).mp_pid == pid2 then some i else rest

-- The entry of the parent of a slot, with its index. An index outside the table is undefined.
unfoldable pub parent_of : ℕ → (ℕ → Mproc) → ℕ → Run (ℕ × Mproc)
parent_of nr_procs mproc i = do
  p ← load nr_procs mproc i
  q ← load nr_procs mproc p.mp_parent
  done (p.mp_parent, q)

-- The do-while loop from the slot `last`, with fuel; `none` means that it still runs.
unfoldable pub climb : ℕ → ℕ → (ℕ → Mproc) → ℕ → ℕ → Option (Run ℤ)
climb nr_procs zero mproc pid1 last = none
climb nr_procs (suc f) mproc pid1 last = elim (parent_of nr_procs mproc last) [
  | abort ↦ some abort
  | undefined ↦ some undefined
  | done x ↦
      let (current, p) = x in
      let rest = climb nr_procs f mproc pid1 current in
      if p.mp_pid == pid1
      then some (done (pos 1))
      else if not (p.mp_pid == 1)
      then rest
      else some (done (pos 0))
]

unfoldable pub do_checkifancestor : ℕ → ℕ → ℕ → (ℕ → Mproc) → ℕ → ℕ → Option (Run ℤ)
do_checkifancestor nr_procs in_use fuel mproc pid1 pid2 =
    if pid1 == pid2 then some (done (pos 1)) else elim (find_slot in_use nr_procs 0 mproc pid2) [
      | none ↦ some (done (pos 0))
      | some i ↦ climb nr_procs fuel mproc pid1 i
    ]
