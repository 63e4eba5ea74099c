-- ===== src/Stack/Refine.antt =====
-- stack.c against a bounded last-in first-out list.
use clipboard.Prelude.{
  ℕ, zero, suc, ◌+◌, ◌-◌, ◌≤◌, ◌<◌, ◌≡◌, refl, ap, ap₂, ◌≢◌, inl, inr, ◌⊎◌, true, false, List, [],
  ◌∷◌, arith, length, ◌==◌, if◌then◌else◌, done, Returns, add-one, eq_cases, update, load_within,
  store_within, update_self, update_ne,
}
use clipboard.Stack.{Stack, stack_size, lower_bound, push, is_empty, top, pop, clear}

-- The pointer stays between the bounds.
abbrev pub IsValid : Stack → Type 0
IsValid s = s.current ≤ stack_size

-- The elements below the pointer, the top first.
abbrev pub contents_of : (ℕ → ℕ) → ℕ → List ℕ
contents_of value zero = []
contents_of value (suc n) = value n ∷ contents_of value n

abbrev pub contents : Stack → List ℕ
contents s = contents_of s.value s.current

-- What `push` makes of the list: it drops the value if the list is full.
unfoldable pub bounded_push : ℕ → List ℕ → List ℕ
bounded_push v q = if length q == stack_size then q else v ∷ q

length-contents_of : (value : ℕ → ℕ) (n : ℕ) → length (contents_of value n) ≡ n
length-contents_of value zero = refl
length-contents_of value (suc n) = ap suc (length-contents_of value n)

contents_of-update :
    (value : ℕ → ℕ) (i v n : ℕ) → n ≤ i → contents_of (update value i v) n ≡ contents_of value n
contents_of-update value i v zero h = refl
contents_of-update value i v (suc n) h =
    ap₂ (λ (x : ℕ) l. x ∷ l) (update_ne value i v n (omega arith))
      (contents_of-update value i v n (omega arith))

contents_of-suc :
    (value : ℕ → ℕ) (n : ℕ) → contents_of value (n + 1) ≡ value n ∷ contents_of value n
contents_of-suc value n = rw add-one

contents_of-pred :
    (value : ℕ → ℕ) (n : ℕ)
    → n ≢ 0
    → contents_of value n ≡ value (n - 1) ∷ contents_of value (n - 1)
contents_of-pred value zero h = absurd (h refl)
contents_of-pred value (suc n) h = ap (λ k. value k ∷ contents_of value k) (omega arith)

push_full : (v : ℕ) (s : Stack) → s.current ≡ stack_size → push v s ≡ done s
unfolding push
push_full v s e = ground arith

pub push_room :
    (v : ℕ) (s : Stack)
    → s.current < stack_size
    → push v s ≡ done (record { value = update s.value s.current v; current = s.current + 1 })
unfolding push
push_room v s h = ground (arith, store_within stack_size s.value s.current v h)

-- `push` never faults on a valid stack, keeps it valid, and its contents become those of the
-- bounded list: the value on top, or nothing new if the stack was full.
pub push_refines :
    (v : ℕ) (s : Stack)
    → IsValid s
    → Returns (push v s) (λ t. IsValid t × (contents t ≡ bounded_push v (contents s)))
unfolding bounded_push
push_refines v s h = elim (eq_cases s.current stack_size) [
  | inl e ↦ (s, push_full v s e, (h, ground (arith, length-contents_of s.value s.current)))
  | inr ne ↦ (
    record { value = update s.value s.current v; current = s.current + 1 },
    push_room v s (omega arith),
    (
      omega arith,
      ground (
        arith,
        length-contents_of s.value s.current,
        contents_of-suc (update s.value s.current v) s.current,
        update_self s.value s.current v,
        contents_of-update s.value s.current v s.current (omega arith),
      ),
    ),
  )
]

pub is_empty_zero : (s : Stack) → s.current ≡ 0 → is_empty s ≡ true
unfolding is_empty lower_bound
is_empty_zero s e = ground arith

pub take_room :
    (s : Stack)
    → IsValid s
    → s.current ≢ 0
    → (is_empty s ≡ false)
      × (top s ≡ done (s.value (s.current - 1)))
      × (pop s ≡ done (record s { current = s.current - 1 }))
unfolding is_empty top pop
take_room s h ne = (
  ground arith,
  ground (arith, load_within stack_size s.value (s.current - 1) (omega arith)),
  ground arith,
)

-- On a valid stack `is_empty` is true exactly when the contents are empty; if they are not, `top` gives
-- their first element and `pop` leaves a valid stack with the others.
pub take_refines :
    (s : Stack)
    → IsValid s
    → ((is_empty s ≡ true) × (contents s ≡ []))
      ⊎ ((x : ℕ) × (t : Stack) × (is_empty s ≡ false)
          × (top s ≡ done x)
          × (pop s ≡ done t)
          × IsValid t
          × (contents s ≡ x ∷ contents t))
take_refines s h = elim (eq_cases s.current 0) [
  | inl e ↦ inl (is_empty_zero s e, rw e)
  | inr ne ↦
      let (some_left, top_is, popped) = take_room s h ne in
      inr (
        s.value (s.current - 1),
        record s { current = s.current - 1 },
        some_left,
        top_is,
        popped,
        omega arith,
        contents_of-pred s.value s.current ne,
      )
]

-- An emptied stack has no contents, whatever it held.
pub contents-clear : (s : Stack) → contents (clear s) ≡ []
unfolding clear
contents-clear s = refl
