-- ===== src/Prelude/Maps.antt =====
-- Go's `map[K]V` as an association list: a read, a write, `delete`, and a sweep that deletes entries.
-- The program never relies on the order of a map.
use mathlib.Core.Path.{◌≡◌, refl}
use mathlib.Core.Bool.{Bool}
use mathlib.Core.Option.{Option, none, some}
use mathlib.Core.List.{List, [], ◌∷◌}
use native.Mathlib.Omega.{arith}
use mentis_eterna.Prelude.Tests.{Key, ◌==◌, if◌then◌else◌}

abbrev pub Map {ℓ} : Type ℓ → Type ℓ → Type ℓ
Map K V = List (K × V)

-- `v, ok := m[k]` and `m[k]`, which gives the zero value of a missing key.
abbrev pub or_zero {ℓ} : {V : Type ℓ} → V → Option V → V
or_zero z none = z
or_zero z (some v) = v

-- A value that does not pass the test.
abbrev pub unless {ℓ} : {V : Type ℓ} → (V → Bool) → Option V → Option V
unless p none = none
unless p (some v) = if p v then none else some v

module _ {ℓ} {K V : Type ℓ} ⦃c : Key K⦄ where
  unfoldable pub lookup : K → Map K V → Option V
  lookup key [] = none
  lookup key ((k, v) ∷ more) = if k == key then some v else lookup key more

  unfoldable pub delete : K → Map K V → Map K V
  delete key [] = []
  delete key ((k, v) ∷ more) =
      let rest = delete key more in if k == key then rest else (k, v) ∷ rest

  -- `m[key] = v`.
  unfoldable pub insert : K → V → Map K V → Map K V
  insert key v m = (key, v) ∷ delete key m

  -- `for k, v := range m { if p(v) { delete(m, k) } }`
  unfoldable pub sweep : (V → Bool) → Map K V → Map K V
  sweep p [] = []
  sweep p ((j, w) ∷ m) = let rest = delete j (sweep p m) in if p w then rest else (j, w) ∷ rest

  pub lookup-delete :
      (key other : K) (m : Map K V)
      → lookup other (delete key m) ≡ (if key == other then none else lookup other m)
  unfolding lookup delete
  lookup-delete key other [] = ground arith
  lookup-delete key other ((k, v) ∷ more) = ground (
    arith,
    c.same_iff key other,
    c.same_iff k key,
    c.same_iff k other,
    lookup-delete key other more,
  )

  pub lookup-insert :
      (key other : K) (v : V) (m : Map K V)
      → lookup other (insert key v m) ≡ (if key == other then some v else lookup other m)
  unfolding lookup insert
  lookup-insert key other v m = ground (arith, lookup-delete key other m)

  pub or_zero-insert :
      (z : V) (key other : K) (v : V) (m : Map K V)
      → or_zero z (lookup other (insert key v m))
        ≡ (if key == other then v else or_zero z (lookup other m))
  or_zero-insert z key other v m = ground (arith, lookup-insert key other v m)

  -- A sweep removes exactly the entries whose value passes the test.
  pub lookup-sweep :
      (p : V → Bool) (j : K) (m : Map K V) → lookup j (sweep p m) ≡ unless p (lookup j m)
  unfolding lookup sweep
  lookup-sweep p j [] = refl
  lookup-sweep p j ((i, w) ∷ m) =
      ground (arith, c.same_iff i j, lookup-delete i j (sweep p m), lookup-sweep p j m)
