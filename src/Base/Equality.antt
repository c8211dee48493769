-- ===== src/Base/Equality.antt =====
-- Go's `==` on the keys of maps and on strings: a decision, by instances.
use Prim.Native.Nat.{ℕ}
use mathlib.Core.Path.{◌≡◌, refl}
use mathlib.Core.Logic.{ite, dite}
use mathlib.Core.Bool.{Bool, true, false}
use mathlib.Core.List.{List, [], ◌∷◌}
use native.Mathlib.Decide.{ℕ_discrete}
use native.Mathlib.Omega.{arith}

pub record Eq {ℓ} (A : Type ℓ) : Type ℓ where
  pub dec : Discrete A

module _ {ℓ} {A : Type ℓ} ⦃e : Eq A⦄ where
  infix 50 ◌==◌
  abbrev pub ◌==◌ : A → A → Bool
  a == b = ite (e.dec a b) true false

  pub ==-refl : (a : A) → (a == a) ≡ true
  ==-refl a = ground arith

  pub ==-eq : (a b : A) → (a == b) ≡ true → a ≡ b
  ==-eq a b h = ground arith

instance unfoldable pub nat_eq : Eq ℕ
unfolding ℕ_discrete
nat_eq = record { dec = ℕ_discrete }

module _ {ℓ} {A : Type ℓ} where
  unfoldable pub list_dec : Discrete A → Discrete (List A)
  list_dec d [] [] = yes refl
  list_dec d [] (y ∷ ys) = no (λ p. cc)
  list_dec d (x ∷ xs) [] = no (λ p. cc)
  list_dec d (x ∷ xs) (y ∷ ys) =
      let rest = list_dec d xs ys in
      dite (d x y) (λ p. dite rest (λ q. yes (cc)) (λ n. no (λ r. n (cc)))) (λ n. no (λ r. n (cc)))

-- A Go string is its bytes.
instance unfoldable pub bytes_eq : Eq (List ℕ)
unfolding list_dec ℕ_discrete
bytes_eq = record { dec = list_dec ℕ_discrete }
