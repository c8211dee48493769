-- ===== src/Engine/Recovery/Image.antt =====
-- A memory is determined by a snapshot and deltas that stand for it.
use native.Mathlib.Decide.{dec_lt}
use durable_wasm.Base.{
  ℕ, zero, suc, ◌/◌, ◌≤◌, ◌<◌, ◌≡◌, ◌≢◌, ◌∙◌, sym, arith, Bytes, Option, none, some, [], ◌∷◌, ◌++◌,
  length, get_elem?, get_elem?-append, get_elem?-out, list_ext, Option-cases, inl, inr,
}
use durable_wasm.Engine.Restore.Bytewise.{byte_at}
use durable_wasm.Engine.Recovery.{IsImage}

get_elem?-in : (xs : Bytes) (k : ℕ) → k < length xs → get_elem? xs k ≢ none
get_elem?-in [] k h e = omega arith
get_elem?-in (x ∷ xs) zero h e = cc
get_elem?-in (x ∷ xs) (suc k) h e = get_elem?-in xs k (omega arith) e

module _ (snapshot bytes : Bytes) (deltas : ℕ → Option Bytes)
    (image : IsImage snapshot deltas bytes) where
  open image use {covers}

  -- Past the snapshot every byte stands in a delta.
  pub delta_past :
      (k : ℕ) → k < length bytes → length snapshot ≤ k → (d : Bytes) × (deltas (k / 4096) ≡ some d)
  delta_past k h past = elim (Option-cases (deltas (k / 4096))) [
    | inl missing ↦
        absurd (get_elem?-in bytes k h (covers k h ∙ rw missing (get_elem?-out snapshot k past)))
    | inr found ↦ found
  ]

  -- The bytes that a memory had past the snapshot do not matter.
  byte_at-padded :
      (rest : Bytes) (k : ℕ)
      → k < length bytes
      → byte_at (snapshot ++ rest) (deltas (k / 4096)) k ≡ byte_at snapshot (deltas (k / 4096)) k
  byte_at-padded rest k h = elim (Option-cases (deltas (k / 4096))) [
    | inr (d, found) ↦ rw found
    | inl missing ↦ rw missing (
        get_elem?-append snapshot rest k
          (grind (arith, λ (past : length snapshot ≤ k). delta_past k h past)))
  ]

  pub image_unique :
      (rest out : Bytes)
      → length out ≡ length bytes
      → ((k : ℕ)
          → k < length out
          → get_elem? out k ≡ byte_at (snapshot ++ rest) (deltas (k / 4096)) k)
      → out ≡ bytes
  image_unique rest out same at = list_ext out bytes λ k. elim (dec_lt k (length bytes)) [
    | yes h ↦ at k (omega arith) ∙ byte_at-padded rest k h ∙ sym (covers k h)
    | no h ↦ get_elem?-out out k (omega arith) ∙ sym (get_elem?-out bytes k (omega arith))
  ]
