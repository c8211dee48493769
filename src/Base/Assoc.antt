-- ===== src/Base/Assoc.antt =====
-- Go's maps: association lists in which the first entry of a key counts.
use mathlib.Core.Path.{◌≡◌, refl}
use mathlib.Core.Option.{Option, none, some, or_else}
use mathlib.Core.List.{List, [], ◌∷◌}
use native.Mathlib.Omega.{arith}
use durable_wasm.Base.Tests.{if◌then◌else◌}
use durable_wasm.Base.Equality.{Eq, ◌==◌}

abbrev pub Map {ℓ κ} : Type ℓ → Type κ → Type (ℓ ⊔ κ)
Map K V = List (K × V)

module _ {ℓ κ} {K : Type ℓ} {V : Type κ} ⦃e : Eq K⦄ where
  unfoldable pub lookup : K → Map K V → Option V
  lookup k [] = none
  lookup k ((j, v) ∷ m) = let rest = lookup k m in if k == j then some v else rest

  -- `m[k] = v`
  unfoldable pub insert : K → V → Map K V → Map K V
  insert k v [] = (k, v) ∷ []
  insert k v ((j, w) ∷ m) = let rest = insert k v m in if k == j then (k, v) ∷ m else (j, w) ∷ rest

  -- `delete(m, k)`
  unfoldable pub delete : K → Map K V → Map K V
  delete k [] = []
  delete k ((j, w) ∷ m) = let rest = delete k m in if k == j then rest else (j, w) ∷ rest

  -- `for k, v := range new { current[k] = v }`; the entries are taken from the back, so that the
  -- first entry of a key in `new` is the one that stays.
  unfoldable pub merge : Map K V → Map K V → Map K V
  merge [] current = current
  merge ((k, v) ∷ new) current = insert k v (merge new current)

  pub lookup-cons :
      (j k : K) (v : V) (m : Map K V)
      → lookup j ((k, v) ∷ m) ≡ (if j == k then some v else lookup j m)
  unfolding lookup
  lookup-cons j k v m = refl

  pub lookup-insert :
      (j k : K) (v : V) (m : Map K V)
      → lookup j (insert k v m) ≡ (if j == k then some v else lookup j m)
  unfolding insert lookup
  lookup-insert j k v [] = refl
  lookup-insert j k v (_ ∷ m) = ground (arith, lookup-insert j k v m)

  pub lookup-delete :
      (j k : K) (m : Map K V) → lookup j (delete k m) ≡ (if j == k then none else lookup j m)
  unfolding delete lookup
  lookup-delete j k [] = ground arith
  lookup-delete j k (_ ∷ m) = ground (arith, lookup-delete j k m)

  pub lookup-merge :
      (j : K) (new current : Map K V)
      → lookup j (merge new current) ≡ or_else (lookup j new) (lookup j current)
  unfolding merge lookup or_else
  lookup-merge j [] current = refl
  lookup-merge j ((k, v) ∷ new) current =
      ground (arith, lookup-insert j k v (merge new current), lookup-merge j new current)

  -- The entries that `for k, v := range m` walks over, each key once.
  unfoldable pub range : Map K V → List (K × V)
  range [] = []
  range ((k, v) ∷ m) = (k, v) ∷ delete k (range m)

  abbrev pub NodupKeys : List (K × V) → Type κ
  NodupKeys [] = Unit
  NodupKeys ((k, _) ∷ m) = (lookup k m ≡ none) × NodupKeys m

  delete-NodupKeys : (k : K) (m : Map K V) → NodupKeys m → NodupKeys (delete k m)
  unfolding delete
  delete-NodupKeys k [] h = h
  delete-NodupKeys k ((j, w) ∷ m) h = ground (arith, delete-NodupKeys k m h.1, lookup-delete j k m)

  pub range-NodupKeys : (m : Map K V) → NodupKeys (range m)
  unfolding range
  range-NodupKeys [] = tt
  range-NodupKeys ((k, v) ∷ m) =
      (rw lookup-delete (ground arith), delete-NodupKeys k (range m) (range-NodupKeys m))

  pub lookup-range : (j : K) (m : Map K V) → lookup j (range m) ≡ lookup j m
  unfolding range lookup
  lookup-range j [] = refl
  lookup-range j ((k, v) ∷ m) = ground (arith, lookup-delete j k (range m), lookup-range j m)
