-- ===== src/Base/Splice.antt =====
-- Bytes by position: what `take`, `drop` and a copy into a slice leave at an index.
use Prim.Native.Nat.{ℕ, zero, suc, ◌+◌, ◌≤◌, ◌<◌}
use mathlib.Core.Path.{◌≡◌, refl, ap}
use mathlib.Core.List.{List, [], ◌∷◌, ◌++◌}
use mathlib.Core.Option.{none}
use native.Mathlib.Omega.{arith}
use Prim.Native.Nat.add
use mathlib.Core.Logic.{◌⊎◌}
use durable_wasm.Base.Lists.{length, get_elem?, take, drop}

module _ {ℓ} {A : Type ℓ} where
  -- `copy(xs[o:], bs)`: the bytes that fit are written over those from o on.
  unfoldable pub splice : ℕ → List A → List A → List A
  splice o bs [] = []
  splice zero [] (x ∷ xs) = x ∷ xs
  splice zero (b ∷ bs) (x ∷ xs) = b ∷ splice zero bs xs
  splice (suc o) bs (x ∷ xs) = x ∷ splice o bs xs

  pub length-splice : (o : ℕ) (bs xs : List A) → length (splice o bs xs) ≡ length xs
  unfolding splice
  length-splice o bs [] = refl
  length-splice zero [] (x ∷ xs) = refl
  length-splice zero (b ∷ bs) (x ∷ xs) = ap suc (length-splice zero bs xs)
  length-splice (suc o) bs (x ∷ xs) = ap suc (length-splice o bs xs)

  pub get_elem?-drop :
      (n : ℕ) (xs : List A) (k : ℕ) → get_elem? (drop n xs) k ≡ get_elem? xs (n + k)
  get_elem?-drop zero xs k = rw add.zero
  get_elem?-drop (suc n) [] k = refl
  get_elem?-drop (suc n) (x ∷ xs) k = rw add.suc (get_elem?-drop n xs k)

  pub get_elem?-take :
      (n : ℕ) (xs : List A) (k : ℕ) → k < n → get_elem? (take n xs) k ≡ get_elem? xs k
  get_elem?-take zero xs k h = elim h [ ]
  get_elem?-take (suc n) [] k h = refl
  get_elem?-take (suc n) (x ∷ xs) zero h = refl
  get_elem?-take (suc n) (x ∷ xs) (suc k) h = get_elem?-take n xs k (omega arith)

  pub get_elem?-out : (xs : List A) (k : ℕ) → length xs ≤ k → get_elem? xs k ≡ none
  get_elem?-out [] k h = refl
  get_elem?-out (x ∷ xs) zero h = absurd (omega arith)
  get_elem?-out (x ∷ xs) (suc k) h = get_elem?-out xs k (omega arith)

  get_elem?-splice_start :
      (bs xs : List A) (k : ℕ)
      → k < length bs
      → k < length xs
      → get_elem? (splice 0 bs xs) k ≡ get_elem? bs k
  unfolding splice
  get_elem?-splice_start [] xs k h l = absurd (omega arith)
  get_elem?-splice_start (b ∷ bs) [] k h l = absurd (omega arith)
  get_elem?-splice_start (b ∷ bs) (x ∷ xs) zero h l = refl
  get_elem?-splice_start (b ∷ bs) (x ∷ xs) (suc k) h l =
      get_elem?-splice_start bs xs k (omega arith) (omega arith)

  -- Inside the copied range stand the bytes that were copied.
  pub get_elem?-splice_in :
      (o : ℕ) (bs xs : List A) (k : ℕ)
      → k < length bs
      → o + k < length xs
      → get_elem? (splice o bs xs) (o + k) ≡ get_elem? bs k
  unfolding splice
  get_elem?-splice_in o bs [] k h l = absurd (omega arith)
  get_elem?-splice_in zero bs (x ∷ xs) k h l =
      rw add.zero (get_elem?-splice_start bs (x ∷ xs) k h (omega arith))
  get_elem?-splice_in (suc o) bs (x ∷ xs) k h l =
      rw add.suc (get_elem?-splice_in o bs xs k h (omega arith))

  -- Outside of it nothing changes.
  pub get_elem?-splice_out :
      (o : ℕ) (bs xs : List A) (k : ℕ)
      → (k < o) ⊎ (o + length bs ≤ k)
      → get_elem? (splice o bs xs) k ≡ get_elem? xs k
  unfolding splice
  get_elem?-splice_out o bs [] k h = refl
  get_elem?-splice_out zero [] (x ∷ xs) k h = refl
  get_elem?-splice_out zero (b ∷ bs) (x ∷ xs) zero h = absurd (omega arith)
  get_elem?-splice_out zero (b ∷ bs) (x ∷ xs) (suc k) h =
      get_elem?-splice_out zero bs xs k (omega arith)
  get_elem?-splice_out (suc o) bs (x ∷ xs) zero h = refl
  get_elem?-splice_out (suc o) bs (x ∷ xs) (suc k) h = get_elem?-splice_out o bs xs k (omega arith)

  pub get_elem?-append :
      (xs ys : List A) (k : ℕ) → k < length xs → get_elem? (xs ++ ys) k ≡ get_elem? xs k
  get_elem?-append [] ys k h = absurd (omega arith)
  get_elem?-append (x ∷ xs) ys zero h = refl
  get_elem?-append (x ∷ xs) ys (suc k) h = get_elem?-append xs ys k (omega arith)

  pub list_ext : (xs ys : List A) → ((k : ℕ) → get_elem? xs k ≡ get_elem? ys k) → xs ≡ ys
  list_ext [] [] h = refl
  list_ext [] (y ∷ ys) h = cc (h 0)
  list_ext (x ∷ xs) [] h = cc (h 0)
  list_ext (x ∷ xs) (y ∷ ys) h = cc (h 0, list_ext xs ys (λ k. h (suc k)))

  pub take-all : (xs : List A) → take (length xs) xs ≡ xs
  take-all [] = refl
  take-all (x ∷ xs) = ap (λ (l : List A). x ∷ l) (take-all xs)

  -- A copy of the same length replaces everything.
  pub splice-all : (bs xs : List A) → length bs ≡ length xs → splice 0 bs xs ≡ bs
  unfolding splice
  splice-all [] [] h = refl
  splice-all [] (x ∷ xs) h = absurd (omega arith)
  splice-all (b ∷ bs) [] h = absurd (omega arith)
  splice-all (b ∷ bs) (x ∷ xs) h = ap (λ (l : List A). b ∷ l) (splice-all bs xs (omega arith))

  pub splice-nil : (o : ℕ) (xs : List A) → splice o [] xs ≡ xs
  unfolding splice
  splice-nil o [] = refl
  splice-nil zero (x ∷ xs) = refl
  splice-nil (suc o) (x ∷ xs) = ap (λ (l : List A). x ∷ l) (splice-nil o xs)

  -- What was copied is read back.
  pub take-splice :
      (o : ℕ) (bs xs : List A)
      → o + length bs ≤ length xs
      → take (length bs) (drop o (splice o bs xs)) ≡ bs
  unfolding splice
  take-splice o [] xs h = refl
  take-splice o (b ∷ bs) [] h = absurd (omega arith)
  take-splice zero (b ∷ bs) (x ∷ xs) h =
      ap (λ (l : List A). b ∷ l) (take-splice zero bs xs (omega arith))
  take-splice (suc o) (b ∷ bs) (x ∷ xs) h = take-splice o (b ∷ bs) xs (omega arith)

  -- Two copies, the second from the end of the first on.
  pub splice-append :
      (o : ℕ) (cs bs xs : List A)
      → splice (o + length cs) bs (splice o cs xs) ≡ splice o (cs ++ bs) xs
  unfolding splice
  splice-append o cs bs [] = refl
  splice-append zero [] bs (x ∷ xs) = refl
  splice-append zero (a ∷ cs) bs (x ∷ xs) =
      let next : zero + suc (length cs) ≡ suc (zero + length cs) = omega arith in
      rw next (ap (λ (l : List A). a ∷ l) (splice-append zero cs bs xs))
  splice-append (suc o) cs bs (x ∷ xs) =
      let next : suc o + length cs ≡ suc (o + length cs) = omega arith in
      rw next (ap (λ (l : List A). x ∷ l) (splice-append o cs bs xs))
