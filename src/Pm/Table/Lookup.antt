-- ===== src/Pm/Table/Lookup.antt =====
-- What the table of calls holds.
use clipboard.Prelude.{
  ℕ, zero, suc, ◌<◌, ◌≡◌, refl, ◌≢◌, inl, inr, Bool, true, false, ◌||◌, arith, ◌==◌, if◌then◌else◌,
  none, some, List, [], ◌∷◌, ◌++◌, ne→==_false, Option-cases,
}
use clipboard.Pm.CallNr.{pm_checkancestor, nr_pm_calls}
use clipboard.Pm.Table.{Routine, call_vec, call_vec_before, routine_at, call, do_checkifancestor}

routine_at-append :
    (t : List (ℕ × Routine)) (k : ℕ) (r : Routine) (n : ℕ)
    → n ≢ k
    → routine_at (t ++ (k, r) ∷ []) n ≡ routine_at t n
unfolding routine_at
routine_at-append [] k r n ne = rw (ne→==_false k n (λ e. ne (omega arith)))
routine_at-append ((j, q) ∷ t) k r n ne = ground (arith, routine_at-append t k r n ne)

call_vec-append : call_vec ≡ call_vec_before ++ (call pm_checkancestor, do_checkifancestor) ∷ []
unfolding call_vec call_vec_before
call_vec-append = refl

-- The patch adds the new call and changes no other: the old table had nothing at its index, and any
-- other index holds what it held.
pub table_extends :
    (n : ℕ)
    → n ≢ call pm_checkancestor
    → (routine_at call_vec (call pm_checkancestor) ≡ some do_checkifancestor)
      × (routine_at call_vec_before (call pm_checkancestor) ≡ none)
      × (routine_at call_vec n ≡ routine_at call_vec_before n)
unfolding routine_at call_vec call_vec_before
table_extends n ne =
    (refl, refl, routine_at-append call_vec_before (call pm_checkancestor) do_checkifancestor n ne)

holds_routine : ℕ → Bool
holds_routine n = n == 0 || elim (routine_at call_vec n) [ none ↦ false | some r ↦ true ]

-- Whether the first `m` indices hold a routine.
full_up_to : ℕ → Bool
full_up_to zero = true
full_up_to (suc k) = if holds_routine k then full_up_to k else false

holds-full_up_to : (m n : ℕ) → n < m → full_up_to m ≡ true → holds_routine n ≡ true
unfolding full_up_to
holds-full_up_to zero n l h = elim l [ ]
holds-full_up_to (suc k) n l h = ground (arith, holds-full_up_to k n)

all_hold : full_up_to nr_pm_calls ≡ true
unfolding full_up_to holds_routine routine_at call_vec
all_hold = refl

gone : (n : ℕ) → n ≢ 0 → routine_at call_vec n ≡ none → holds_routine n ≢ true
unfolding holds_routine
gone n ne missing h = cc (rw (ne→==_false n 0 ne, missing, holds_routine) at h)

-- Every call number of callnr.h, from 1 to NR_PM_CALLS - 1, has a routine.
pub table_full :
    (n : ℕ) → n < nr_pm_calls → n ≢ 0 → (r : Routine) × (routine_at call_vec n ≡ some r)
table_full n h ne = elim (Option-cases (routine_at call_vec n)) [
  | inr found ↦ found
  | inl missing ↦ absurd (gone n ne missing (holds-full_up_to nr_pm_calls n h all_hold))
]
