-- ===== src/Tests/Processes.antt =====
-- The process manager.
use clipboard.Prelude.{
  ℤ, minus_one, Run, done, abort, undefined, Option, ℕ, zero, suc, ◌<◌, ◌≡◌, refl, true, arith,
  none, some,
}
use clipboard.Pm.{Mproc, active, do_checkifancestor}
use clipboard.Pm.Depth.{Leads}
use clipboard.Pm.Climb.{Answers}
use clipboard.Pm.Ancestor.{IsTable, IsAncestorOf, do_checkifancestor_lem}
use clipboard.Pm.Endless.{Closed, do_checkifancestor_endless}

-- init in slot 0, its child 7 in slot 1, and 9, the child of 7, in slot 2.
abbrev pub family : ℕ → Mproc
family zero = record { mp_pid = 1; mp_parent = 0; mp_flags = 1 }
family (suc zero) = record { mp_pid = 7; mp_parent = 0; mp_flags = 1 }
family (suc (suc k)) = record { mp_pid = 9; mp_parent = 1; mp_flags = 1 }

pub family-IsTable : IsTable 3 1 family
family-IsTable = record { unique = one_pid; rooted = up_to_init }
  where
    one_pid :
        (i j : ℕ)
        → i < 3
        → j < 3
        → active 1 (family i) ≡ true
        → active 1 (family j) ≡ true
        → (family i).mp_pid ≡ (family j).mp_pid
        → i ≡ j
    one_pid zero zero hi hj a b e = refl
    one_pid zero (suc zero) hi hj a b e = absurd (omega arith)
    one_pid zero (suc (suc j)) hi hj a b e = absurd (omega arith)
    one_pid (suc zero) zero hi hj a b e = absurd (omega arith)
    one_pid (suc zero) (suc zero) hi hj a b e = refl
    one_pid (suc zero) (suc (suc j)) hi hj a b e = absurd (omega arith)
    one_pid (suc (suc i)) zero hi hj a b e = absurd (omega arith)
    one_pid (suc (suc i)) (suc zero) hi hj a b e = absurd (omega arith)
    one_pid (suc (suc i)) (suc (suc j)) hi hj a b e = omega arith

    up_to_init : (i : ℕ) → i < 3 → active 1 (family i) ≡ true → (k : ℕ) × Leads 3 family i k
    up_to_init zero h a = (1, Leads.root (omega arith) (omega arith) refl)
    up_to_init (suc zero) h a = (1, Leads.root (omega arith) (omega arith) refl)
    up_to_init (suc (suc i)) h a = (
      2,
      Leads.up (omega arith) (omega arith) (λ e. omega arith)
          (Leads.root (omega arith) (omega arith) refl),
    )

-- What the call returns to its caller.
abbrev pub result : Option (Run ℤ) → ℤ
result (some (done r)) = r
result (some abort) = minus_one
result (some undefined) = minus_one
result none = minus_one

do_checkifancestor_lem_example :
    Answers (IsAncestorOf 3 1 family 7 9) (do_checkifancestor 3 1 3 family 7 9)
do_checkifancestor_lem_example =
    do_checkifancestor_lem 3 1 3 family 7 9 family-IsTable (omega arith)

-- 3 in slot 1 is its own parent; no other slot but that of init is in use.
abbrev looping : ℕ → Mproc
looping zero = record { mp_pid = 1; mp_parent = 0; mp_flags = 1 }
looping (suc zero) = record { mp_pid = 3; mp_parent = 1; mp_flags = 1 }
looping (suc (suc k)) = record { mp_pid = 0; mp_parent = 0; mp_flags = 0 }

abbrev Second : ℕ → Type 0
Second i = i ≡ 1

Second-Closed : Closed 2 looping 7 Second
Second-Closed zero e = absurd (omega arith)
Second-Closed (suc zero) e = (omega arith, refl, (λ f. omega arith), (λ f. omega arith))
Second-Closed (suc (suc k)) e = absurd (omega arith)

alone : (k : ℕ) → active 1 (looping k) ≡ true → (looping k).mp_pid ≡ 3 → Second k
alone zero a p = absurd (omega arith)
alone (suc zero) a p = refl
alone (suc (suc k)) a p = absurd (omega arith)

do_checkifancestor_endless_example : do_checkifancestor 2 1 1000 looping 7 3 ≡ none
do_checkifancestor_endless_example =
    do_checkifancestor_endless 2 looping 7 Second 1 1000 3 1 Second-Closed (λ e. omega arith)
      (omega arith) refl refl alone
