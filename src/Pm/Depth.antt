-- ===== src/Pm/Depth.antt =====
-- The way from a process up to the first with pid 1, along the parents in the process table.
use clipboard.Prelude.{
  ℕ, zero, suc, ◌+◌, ◌≤◌, ◌<◌, ◌≡◌, refl, ◌≢◌, arith, ap, subst, distinct_bound,
}
use clipboard.Pm.{Mproc}

abbrev pub parent : (ℕ → Mproc) → ℕ → ℕ
parent mproc i = (mproc i).mp_parent

module _ (nr_procs : ℕ) (mproc : ℕ → Mproc) where
  -- From slot `i` the parents lead to the process with pid 1, in so many steps, within the table.
  pub data Leads : ℕ → ℕ → Type 0 where
    root :
        {i : ℕ}
        → i < nr_procs
        → parent mproc i < nr_procs
        → (mproc (parent mproc i)).mp_pid ≡ 1
        → Leads i 1
    up :
        {i k : ℕ}
        → i < nr_procs
        → parent mproc i < nr_procs
        → (mproc (parent mproc i)).mp_pid ≢ 1
        → Leads (parent mproc i) k
        → Leads i (suc k)

  -- The slot that so many steps lead to.
  abbrev after : ℕ → ℕ → ℕ
  after zero i = i
  after (suc j) i = after j (parent mproc i)

  Leads-slot : {i k : ℕ} → Leads i k → i < nr_procs
  Leads-slot (root h l one) = h
  Leads-slot (up h l n rest) = h

  Leads-unique : {i k m : ℕ} → Leads i k → Leads i m → k ≡ m
  Leads-unique (root h l one) (root h' l' one') = refl
  Leads-unique (root h l one) (up h' l' n rest) = absurd (n one)
  Leads-unique (up h l n rest) (root h' l' one) = absurd (n one)
  Leads-unique (up h l n rest) (up h' l' n' rest') = ap suc (Leads-unique rest rest')

  Leads-after : (j : ℕ) {i k : ℕ} → j < k → Leads i k → (m : ℕ) × (m + j ≡ k) × Leads (after j i) m
  Leads-after zero {i} {k} l leads = (k, omega arith, leads)
  Leads-after (suc j) l (root h l' one) = absurd (omega arith)
  Leads-after (suc j) l (up h l' n rest) =
      let (m, sum, leads) = Leads-after j (omega arith) rest in (m, omega arith, leads)

  -- No slot stands twice on the way, since the rest of the way is as long from a slot as it ever is
  -- from it.
  no_return : {i k : ℕ} → Leads i k → (j m : ℕ) → j < m → m < k → after j i ≢ after m i
  no_return leads j m l h same =
      let (rest, sum, leads_j) = Leads-after j (omega arith) leads in
      let (rest', sum', leads_m) = Leads-after m h leads in
      let equal = Leads-unique (subst (λ s. Leads s rest) same leads_j) leads_m in omega arith

  -- The way has no more steps than the table has slots.
  pub Leads-bound : {i k : ℕ} → Leads i k → k ≤ nr_procs
  Leads-bound {i} {k} leads =
      distinct_bound nr_procs k (λ j. after j i) (λ j l. Leads-slot (Leads-after j l leads).2)
        (no_return leads)
