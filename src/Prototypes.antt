-- ===== src/Prototypes.antt =====
-- Lists of prototypes: for each function its result and its parameters.
use Prim.Native.String.{String}
use text.Mathlib.Text.{◌==◌}
use text.Mathlib.TextEquality.{eq_iff}
use clipboard.Prelude.{
  ℕ, zero, suc, ◌≡◌, ◌≢◌, inl, inr, Bool-cases, if◌then◌else◌, Option, none, some, List, [], ◌∷◌,
  ap,
}

-- The result and the parameters of a function.
unfoldable pub prototype_of :
    List (String × String × List String) → String → Option (String × List String)
prototype_of [] name = none
prototype_of ((key, result, params) ∷ ps) name =
    let rest = prototype_of ps name in if key == name then some (result, params) else rest

-- A list with one prototype more, behind the first `k`.
abbrev pub insert_at :
    ℕ
    → String × String × List String
    → List (String × String × List String)
    → List (String × String × List String)
insert_at zero p ps = p ∷ ps
insert_at (suc k) p [] = p ∷ []
insert_at (suc k) p (q ∷ ps) = q ∷ insert_at k p ps

other_key :
    (ps : List (String × String × List String)) (key result : String) (params : List String)
    (name : String)
    → key ≢ name
    → prototype_of ((key, result, params) ∷ ps) name ≡ prototype_of ps name
unfolding prototype_of
other_key ps key result params name ne = elim (Bool-cases (key == name)) [
  | inl same ↦ absurd (ne ((eq_iff key name).0 same))
  | inr other ↦ rw other
]

-- One prototype more changes nothing for another name.
pub prototype_of-insert_at :
    (k : ℕ) (ps : List (String × String × List String)) (key result : String) (params : List String)
    (name : String)
    → key ≢ name
    → prototype_of (insert_at k (key, result, params) ps) name ≡ prototype_of ps name
unfolding prototype_of
prototype_of-insert_at zero ps key result params name ne = other_key ps key result params name ne
prototype_of-insert_at (suc k) [] key result params name ne = other_key [] key result params name ne
prototype_of-insert_at (suc k) ((q, r, p) ∷ ps) key result params name ne =
    ap (λ rest. if q == name then some (r, p) else rest)
      (prototype_of-insert_at k ps key result params name ne)
