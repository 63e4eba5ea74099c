-- ===== src/Clipboard/Search.antt =====
-- get_lock_id: the search for the slot that a process has locked.
use clipboard.Prelude.{
  ℕ, zero, suc, ◌+◌, ◌≤◌, ◌<◌, ◌≡◌, refl, ◌⊎◌, inl, inr, Bool, true, false, ◌&&◌, arith, ℤ, pos,
  minus_one, ◌==◌, eq_cases, Bool-cases,
}
use clipboard.Protocol.{buf_max_count}
use clipboard.Clipboard.{Entry, Clipboard, is_locked, find_lock, get_lock_id}
use clipboard.Clipboard.Invariant.{LockedBy}

abbrev holds_lock : ℕ → Entry → Bool
holds_lock pid e = e.locking_pid == pid && is_locked e

holds→LockedBy : (pid : ℕ) (e : Entry) → holds_lock pid e ≡ true → LockedBy pid e
holds→LockedBy pid e h = ground arith

LockedBy→holds : (pid : ℕ) (e : Entry) → LockedBy pid e → holds_lock pid e ≡ true
LockedBy→holds pid e h = ground arith

-- What the rounds from slot `id` up to slot `j` find.
abbrev pub Found : ℕ → ℕ → ℕ → Clipboard → ℤ → Type 0
Found id j pid c r =
    ((k : ℕ) × (r ≡ pos k)
      × (id ≤ k)
      × (k < j)
      × LockedBy pid (c.entries k)
      × ((i : ℕ) → id ≤ i → i < k → ¬ LockedBy pid (c.entries i)))
    ⊎ ((r ≡ minus_one) × ((i : ℕ) → id ≤ i → i < j → ¬ LockedBy pid (c.entries i)))

find_lock-Found :
    (n id j pid : ℕ) (c : Clipboard) → id + n ≡ j → Found id j pid c (find_lock n id pid c)
unfolding find_lock
find_lock-Found zero id j pid c e = inr (refl, λ i a b _. absurd (omega arith))
find_lock-Found (suc n) id j pid c e = elim (Bool-cases (holds_lock pid (c.entries id))) [
  | inl hit ↦ rw hit (
      inl (
        id,
        refl,
        omega arith,
        omega arith,
        holds→LockedBy pid (c.entries id) hit,
        λ i a b _. absurd (omega arith),
      ))
  | inr miss ↦ rw miss (further (find_lock-Found n (id + 1) j pid c (omega arith)) miss)
]
  where
    skip :
        (i k : ℕ)
        → holds_lock pid (c.entries id) ≡ false
        → ((m : ℕ) → id + 1 ≤ m → m < k → ¬ LockedBy pid (c.entries m))
        → id ≤ i
        → i < k
        → ¬ LockedBy pid (c.entries i)
    skip i k miss rest a b l = elim (eq_cases i id) [
      | inl same ↦ cc (LockedBy→holds pid (c.entries i) l, same, miss)
      | inr other ↦ rest i (omega arith) b l
    ]

    further :
        {r : ℤ}
        → Found (id + 1) j pid c r
        → holds_lock pid (c.entries id) ≡ false
        → Found id j pid c r
    further (inl (k, er, a, b, l, first)) miss =
        inl (k, er, omega arith, b, l, λ i p q. skip i k miss first p q)
    further (inr (er, none_held)) miss = inr (er, λ i p q. skip i j miss none_held p q)

-- `get_lock_id` gives the first slot that the process has locked, and -1 exactly when it has locked
-- none.
pub get_lock_id_lem : (pid : ℕ) (c : Clipboard) → Found 0 buf_max_count pid c (get_lock_id pid c)
unfolding get_lock_id
get_lock_id_lem pid c = find_lock-Found buf_max_count 0 buf_max_count pid c (omega arith)
