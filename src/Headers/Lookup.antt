-- ===== src/Headers/Lookup.antt =====
-- Tests on lists of `#define` lines, and what they show of every name.
use Prim.Native.String.{String}
use text.Mathlib.Text.{◌==◌}
use text.Mathlib.TextEquality.{eq_iff}
use clipboard.Prelude
use clipboard.Prelude.{
  ℕ, ◌≡◌, refl, ◌≢◌, ◌⊎◌, inl, inr, arith, Bool, true, false, not, ◌&&◌, if◌then◌else◌, Option,
  none, some, List, [], ◌∷◌, ◌++◌, ◌∙◌, sym, ap, ==→eq, Bool-cases,
}
use clipboard.Headers.{value_of}

-- Whether the test holds of each number.
unfoldable pub all_values : (ℕ → Bool) → List (String × ℕ) → Bool
all_values p [] = true
all_values p ((key, v) ∷ defines) = p v && all_values p defines

-- Whether no number stands twice.
unfoldable pub distinct : List (String × ℕ) → Bool
distinct [] = true
distinct ((key, v) ∷ defines) = all_values (λ w. not (Prelude.◌==◌ w v)) defines && distinct defines

abbrev has_value : Option ℕ → ℕ → Bool
has_value none v = false
has_value (some w) v = Prelude.◌==◌ w v

-- Whether each name has the same number in the other list.
unfoldable pub within : List (String × ℕ) → List (String × ℕ) → Bool
within [] other = true
within ((key, v) ∷ defines) other = has_value (value_of other key) v && within defines other

pub and_both : {a b : Bool} → (a && b) ≡ true → (a ≡ true) × (b ≡ true)
and_both {a} {b} h = ground arith

not_in_empty : (name : String) (n : ℕ) → value_of [] name ≢ some n
unfolding value_of
not_in_empty name n e = cc

pub head_or_tail :
    (key name : String) (v : ℕ) (defines : List (String × ℕ)) (n : ℕ)
    → value_of ((key, v) ∷ defines) name ≡ some n
    → ((key ≡ name) × (v ≡ n)) ⊎ (value_of defines name ≡ some n)
unfolding value_of
head_or_tail key name v defines n e = elim (Bool-cases (key == name)) [
  | inl same ↦ inl ((eq_iff key name).0 same, cc (rw same at e))
  | inr ne ↦ inr (rw ne at e)
]

pub all_values_sound :
    (p : ℕ → Bool) (defines : List (String × ℕ)) (name : String) (n : ℕ)
    → all_values p defines ≡ true
    → value_of defines name ≡ some n
    → p n ≡ true
unfolding all_values
all_values_sound p [] name n h e = absurd (not_in_empty name n e)
all_values_sound p ((key, v) ∷ defines) name n h e = elim (head_or_tail key name v defines n e) [
  | inl (same, at_n) ↦ ap p (sym at_n) ∙ (and_both h).0
  | inr later ↦ all_values_sound p defines name n (and_both h).1 later
]

not_same : (n : ℕ) → not (Prelude.◌==◌ n n) ≢ true
not_same n h = ground arith

pub distinct_sound :
    (defines : List (String × ℕ)) (a b : String) (n : ℕ)
    → distinct defines ≡ true
    → value_of defines a ≡ some n
    → value_of defines b ≡ some n
    → a ≡ b
unfolding distinct
distinct_sound [] a b n h ea eb = absurd (not_in_empty a n ea)
distinct_sound ((key, v) ∷ defines) a b n h ea eb = elim (head_or_tail key a v defines n ea) [
  | inl (same_a, at_a) ↦ elim (head_or_tail key b v defines n eb) [
    | inl (same_b, at_b) ↦ sym same_a ∙ same_b
    | inr later_b ↦ absurd (again b at_a later_b)
  ]
  | inr later_a ↦ elim (head_or_tail key b v defines n eb) [
    | inl (same_b, at_b) ↦ absurd (again a at_b later_a)
    | inr later_b ↦ distinct_sound defines a b n (and_both h).1 later_a later_b
  ]
]
  where
    again : (c : String) → v ≡ n → value_of defines c ≡ some n → ⊥
    again c at_n later = not_same n (
        rw at_n at
          (all_values_sound (λ w. not (Prelude.◌==◌ w v)) defines c n (and_both h).0 later))

has_value-eq : (o : Option ℕ) (v : ℕ) → has_value o v ≡ true → o ≡ some v
has_value-eq none v h = cc
has_value-eq (some w) v h = ap some (==→eq w v h)

pub within_sound :
    (defines other : List (String × ℕ)) (name : String) (n : ℕ)
    → within defines other ≡ true
    → value_of defines name ≡ some n
    → value_of other name ≡ some n
unfolding within
within_sound [] other name n h e = absurd (not_in_empty name n e)
within_sound ((key, v) ∷ defines) other name n h e = elim (head_or_tail key name v defines n e) [
  | inl (same, at_n) ↦
      ap (value_of other) (sym same)
      ∙ has_value-eq (value_of other key) v (and_both h).0
      ∙ ap some at_n
  | inr later ↦ within_sound defines other name n (and_both h).1 later
]

pub value_of-append :
    (xs ys : List (String × ℕ)) (name : String) (n : ℕ)
    → value_of (xs ++ ys) name ≡ some n
    → (value_of xs name ≡ some n) ⊎ (value_of ys name ≡ some n)
unfolding value_of
value_of-append [] ys name n e = inr e
value_of-append ((key, v) ∷ xs) ys name n e = elim (Bool-cases (key == name)) [
  | inl same ↦ inl (rw same (rw same at e))
  | inr ne ↦ rw ne (value_of-append xs ys name n (rw ne at e))
]
