-- ===== src/Prelude/Array.antt =====
-- A C array of a fixed size, as a function of the index; an access past the end is undefined.
use Prim.Native.Nat.{ℕ, ◌<◌}
use mathlib.Core.Path.{◌≡◌, refl, fun_ext}
use mathlib.Core.Logic.{◌≢◌, inl, inr}
use package.clipboard.Prelude.Tests.{ltb, ◌==◌, if◌then◌else◌, eq→==, ne→==_false, lt→ltb, eq_cases}
use package.clipboard.Prelude.Outcome.{Run, done, undefined}

abbrev pub update {ℓ} : {A : Type ℓ} → (ℕ → A) → ℕ → A → ℕ → A
update a i v j = if j == i then v else a j

-- a[i] and a[i] = v, of an array of n elements.
unfoldable pub load {ℓ} : {A : Type ℓ} → ℕ → (ℕ → A) → ℕ → Run A
load n a i = if ltb i n then done (a i) else undefined

unfoldable pub store {ℓ} : {A : Type ℓ} → ℕ → (ℕ → A) → ℕ → A → Run (ℕ → A)
store n a i v = if ltb i n then done (update a i v) else undefined

module _ {ℓ} {A : Type ℓ} where
  pub load_within : (n : ℕ) (a : ℕ → A) (i : ℕ) → i < n → load n a i ≡ done (a i)
  unfolding load
  load_within n a i h = rw (lt→ltb i n h)

  pub store_within :
      (n : ℕ) (a : ℕ → A) (i : ℕ) (v : A) → i < n → store n a i v ≡ done (update a i v)
  unfolding store
  store_within n a i v h = rw (lt→ltb i n h)

  pub update_self : (a : ℕ → A) (i : ℕ) (v : A) → update a i v i ≡ v
  update_self a i v = rw (eq→== i i refl)

  pub update_ne : (a : ℕ → A) (i : ℕ) (v : A) (j : ℕ) → j ≢ i → update a i v j ≡ a j
  update_ne a i v j h = rw (ne→==_false j i h)

  pub update_twice : (a : ℕ → A) (i : ℕ) (v w : A) → update (update a i v) i w ≡ update a i w
  update_twice a i v w = fun_ext λ j. elim (eq_cases j i) [
    | inl same ↦ rw (same, eq→== i i refl)
    | inr other ↦ rw (ne→==_false j i other)
  ]
