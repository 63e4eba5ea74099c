-- ===== src/Cipher/Key.antt =====
-- normalize_key.
use clipboard.Prelude.{
  ℕ, zero, suc, ◌+◌, ◌-◌, ◌*◌, ◌%◌, ◌≤◌, ◌<◌, ◌≡◌, refl, ◌⊎◌, inl, inr, arith, Bool, true, false,
  lt→leb_false, le→leb, if◌then◌else◌, List, [], ◌∷◌, length, elem_or, length-append, Bool-cases,
}
use clipboard.Compress.{alphabet_size, isdigit, push_char}
use clipboard.Compress.Runs.{isdigit_range}
use clipboard.Cipher.{finish_push_number, letter_value, normalize_from, normalize_key}

abbrev pub IsLower : ℕ → Type 0
IsLower c = (97 ≤ c) × (c ≤ 122)

abbrev pub IsUpper : ℕ → Type 0
IsUpper c = (65 ≤ c) × (c ≤ 90)

-- Digits and letters.
abbrev pub IsKey : List ℕ → Type 0
IsKey [] = Unit {0}
IsKey (c ∷ key) = (((48 ≤ c) × (c ≤ 57)) ⊎ (IsLower c ⊎ IsUpper c)) × IsKey key

abbrev pub AreShifts : List ℕ → Type 0
AreShifts [] = Unit {0}
AreShifts (k ∷ key) = (k < alphabet_size) × AreShifts key

pub elem_or-AreShifts : (key : List ℕ) (i : ℕ) → AreShifts key → elem_or key i < alphabet_size
elem_or-AreShifts [] i s = omega arith
elem_or-AreShifts (k ∷ key) zero (l, s) = l
elem_or-AreShifts (k ∷ key) (suc i) (l, s) = elem_or-AreShifts key i s

AreShifts-push_char :
    (res : List ℕ) (v : ℕ) → AreShifts res → v < alphabet_size → AreShifts (push_char res v)
AreShifts-push_char [] v s l = (l, tt)
AreShifts-push_char (k ∷ res) v (h, s) l = (h, AreShifts-push_char res v s l)

AreShifts-finish :
    (res : List ℕ) (count : ℕ) (parsing : Bool)
    → AreShifts res
    → count < alphabet_size
    → AreShifts (finish_push_number res count parsing)
unfolding finish_push_number
AreShifts-finish res count true s l = AreShifts-push_char res count s l
AreShifts-finish res count false s l = s

pub isdigit_letter : (c : ℕ) → 58 ≤ c → isdigit c ≡ false
isdigit_letter c l = rw (le→leb 48 c (omega arith), lt→leb_false c 57 (omega arith))

letter_value_small : (c : ℕ) → IsLower c ⊎ IsUpper c → letter_value c < alphabet_size
letter_value_small c (inl (l, u)) = rw (le→leb 97 c l, le→leb c 122 u) (omega arith)
letter_value_small c (inr (l, u)) = rw (lt→leb_false 97 c (omega arith)) (omega arith)

normalize_from-AreShifts :
    (key res : List ℕ) (count : ℕ) (parsing : Bool)
    → IsKey key
    → AreShifts res
    → count < alphabet_size
    → AreShifts (normalize_from key res count parsing)
unfolding normalize_from
normalize_from-AreShifts [] res count parsing h s l = AreShifts-finish res count parsing s l
normalize_from-AreShifts (c ∷ key) res count parsing (inl (a, b), h) s l =
    rw (isdigit_range c a b) (
      normalize_from-AreShifts key res
        (((if parsing then 10 * count else 0) + c - 48) % alphabet_size) true h s (omega arith))
normalize_from-AreShifts (c ∷ key) res count parsing (inr letter, h) s l =
    rw (isdigit_letter c (high letter)) (
      normalize_from-AreShifts key
        (push_char (finish_push_number res count parsing) (letter_value c)) count false h
        (AreShifts-push_char (finish_push_number res count parsing) (letter_value c)
          (AreShifts-finish res count parsing s l) (letter_value_small c letter))
        l)
  where
    high : IsLower c ⊎ IsUpper c → 58 ≤ c
    high (inl (a, b)) = omega arith
    high (inr (a, b)) = omega arith

-- A key of digits and letters gives shifts by less than the size of the alphabet.
pub normalize_key-AreShifts : (key : List ℕ) → IsKey key → AreShifts (normalize_key key)
unfolding normalize_key
normalize_key-AreShifts key h = normalize_from-AreShifts key [] 0 false h tt (omega arith)

length-push : (res : List ℕ) (v : ℕ) → 1 ≤ length (push_char res v)
length-push res v = omega (arith, length-append res (v ∷ []))

normalize_from_pos :
    (key res : List ℕ) (count : ℕ) (parsing : Bool)
    → (1 ≤ length res) ⊎ ((parsing ≡ true) ⊎ (1 ≤ length key))
    → 1 ≤ length (normalize_from key res count parsing)
unfolding normalize_from finish_push_number
normalize_from_pos [] res count true h = length-push res count
normalize_from_pos [] res count false (inl l) = l
normalize_from_pos [] res count false (inr (inl e)) = cc
normalize_from_pos [] res count false (inr (inr l)) = absurd (omega arith)
normalize_from_pos (c ∷ key) res count parsing h = elim (Bool-cases (isdigit c)) [
  | inl digit ↦ rw digit (
      normalize_from_pos key res (((if parsing then 10 * count else 0) + c - 48) % alphabet_size)
        true (inr (inl refl)))
  | inr other ↦ rw other (
      normalize_from_pos key (push_char (finish_push_number res count parsing) (letter_value c))
        count false (inl (length-push (finish_push_number res count parsing) (letter_value c))))
]

pub normalize_key_pos : (key : List ℕ) → 1 ≤ length key → 1 ≤ length (normalize_key key)
unfolding normalize_key
normalize_key_pos key l = normalize_from_pos key [] 0 false (inr (inr l))
