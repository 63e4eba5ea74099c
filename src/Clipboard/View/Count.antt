-- ===== src/Clipboard/View/Count.antt =====
-- How many texts of a kind are in a store.
use clipboard.Prelude.{
  ℕ, zero, suc, ◌+◌, ◌<◌, ◌≡◌, refl, inl, inr, Bool, if◌then◌else◌, arith, Option, none, some, List,
  [], ◌∷◌, ◌++◌, ◌==◌, update, update_self, update_ne, eq_cases, Bool-cases, ap, ◌∙◌,
}
use clipboard.Protocol.{buf_max_count}
use clipboard.Clipboard.View.{Item, Store, give_up, release, hold_item, hold}
use clipboard.Clipboard.View.Refine.{◌≈◌}

module _ (counts : List ℕ → Bool) where
  abbrev pub one_if : List ℕ → ℕ
  one_if text = if counts text then 1 else 0

  -- In a list.
  abbrev pub tally : List (List ℕ) → ℕ
  tally [] = 0
  tally (text ∷ texts) = one_if text + tally texts

  -- Under one number.
  abbrev pub amount : Option Item → ℕ
  amount none = 0
  amount (some it) = one_if it.text

  -- Under the numbers below `n`, and under all that there are.
  unfoldable pub stored_below : Store → ℕ → ℕ
  stored_below s zero = 0
  stored_below s (suc n) = amount (s n) + stored_below s n

  abbrev pub stored : Store → ℕ
  stored s = stored_below s buf_max_count

  pub tally-append : (xs ys : List (List ℕ)) → tally (xs ++ ys) ≡ tally xs + tally ys
  tally-append [] ys = omega arith
  tally-append (x ∷ xs) ys = omega (arith, tally-append xs ys)

  below_same :
      (s t : Store) (n : ℕ)
      → ((i : ℕ) → i < n → amount (t i) ≡ amount (s i))
      → stored_below t n ≡ stored_below s n
  unfolding stored_below
  below_same s t zero same = refl
  below_same s t (suc n) same =
      let rest : stored_below t n ≡ stored_below s n =
        below_same s t n (λ i l. same i (omega arith)) in
      let here : amount (t n) ≡ amount (s n) = same n (omega arith) in rw (rest, here)

  below_changed :
      (s t : Store) (id : ℕ) (o : Option Item) (n : ℕ)
      → id < n
      → ((i : ℕ) → i < n → t i ≡ update s id o i)
      → stored_below t n + amount (s id) ≡ stored_below s n + amount o
  unfolding stored_below
  below_changed s t id o zero l changed = absurd (omega arith)
  below_changed s t id o (suc n) l changed = elim (eq_cases n id) [
    | inl same ↦
        let here : amount (t n) ≡ amount o =
          ap amount (changed n (omega arith) ∙ ap (update s id o) same ∙ update_self s id o) in
        let at_id : amount (s n) ≡ amount (s id) = ap (λ i. amount (s i)) same in
        let rest : stored_below t n ≡ stored_below s n =
          below_same s t n
            (λ i h. ap amount (changed i (omega arith) ∙ update_ne s id o i (λ e. omega arith))) in
        omega (arith, here, at_id, rest)
    | inr other ↦
        let here : amount (t n) ≡ amount (s n) =
          ap amount (changed n (omega arith) ∙ update_ne s id o n other) in
        let rest : stored_below t n + amount (s id) ≡ stored_below s n + amount o =
          below_changed s t id o n (omega arith) (λ i h. changed i (omega arith)) in
        omega (arith, here, rest)
  ]

  -- A text put under a free number, and one taken away.
  pub stored-put :
      (s t : Store) (id : ℕ) (it : Item)
      → id < buf_max_count
      → s id ≡ none
      → t ≈ update s id (some it)
      → one_if it.text + stored s ≡ stored t
  stored-put s t id it l free put =
      let changed = below_changed s t id (some it) buf_max_count l put in
      let before : amount (s id) ≡ 0 = ap amount free in omega (arith, changed, before)

  pub stored-take :
      (s t : Store) (id : ℕ) (it : Item)
      → id < buf_max_count
      → s id ≡ some it
      → t ≈ update s id none
      → stored s ≡ one_if it.text + stored t
  stored-take s t id it l seen gone =
      let changed = below_changed s t id none buf_max_count l gone in
      let before : amount (s id) ≡ one_if it.text = ap amount seen in omega (arith, changed, before)

  amount-give_up : (pid : ℕ) (o : Option Item) → amount (give_up pid o) ≡ amount o
  amount-give_up pid none = refl
  amount-give_up pid (some it) = by_holder it.holder refl
    where
      by_holder : (h : Option ℕ) → it.holder ≡ h → amount (give_up pid (some it)) ≡ amount (some it)
      by_holder none free = rw free
      by_holder (some q) held = elim (Bool-cases (q == pid)) [
        | inl same ↦ rw (held, same)
        | inr other ↦ rw (held, other)
      ]

  amount-hold_item : (pid : ℕ) (o : Option Item) → amount (hold_item pid o) ≡ amount o
  amount-hold_item pid none = refl
  amount-hold_item pid (some it) = refl

  pub stored_same : (s t : Store) → t ≈ s → stored t ≡ stored s
  stored_same s t same = below_same s t buf_max_count (λ i l. ap amount (same i l))

  pub stored-release : (s t : Store) (pid : ℕ) → t ≈ release pid s → stored t ≡ stored s
  stored-release s t pid same =
      below_same s t buf_max_count (λ i l. ap amount (same i l) ∙ amount-give_up pid (s i))

  pub stored-hold :
      (s t : Store) (id pid : ℕ) → t ≈ hold id pid (release pid s) → stored t ≡ stored s
  stored-hold s t id pid same =
      below_same s t buf_max_count
        λ i l. ap amount (same i l) ∙ amount-hold i ∙ amount-give_up pid (s i)
    where
      amount-hold : (i : ℕ) → amount (hold id pid (release pid s) i) ≡ amount (release pid s i)
      amount-hold i = elim (eq_cases i id) [
        | inl same_id ↦
            rw (same_id, update_self (release pid s) id (hold_item pid (release pid s id)))
              (amount-hold_item pid (release pid s id))
        | inr other ↦ ap amount (update_ne (release pid s) id _ i other)
      ]
