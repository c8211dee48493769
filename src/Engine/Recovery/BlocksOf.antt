-- ===== src/Engine/Recovery/BlocksOf.antt =====
-- The blocks of a memory for which a snapshot and deltas stand.
use native.Mathlib.Decide.{dec_lt}
use durable_wasm.Base.{
  ℕ, ◌+◌, ◌*◌, ◌/◌, ◌≤◌, ◌<◌, ◌≡◌, ◌∙◌, sym, ap, arith, true, Bytes, Option, none, some, Map,
  lookup, nat_eq, length, get_elem?, get_elem?-out, list_ext, Option-cases, inl, inr, if◌then◌else◌,
}
use durable_wasm.Engine.Blocks.{fnv64a, block}
use durable_wasm.Engine.Blocks.Bytewise.{get_elem?-block, length-block}
use durable_wasm.Engine.Blocks.Scan.{in_range}
use durable_wasm.Engine.Restore.Bytewise.{byte_at, hash_or}
use durable_wasm.Engine.Recovery.{IsImage, IsSynced, AllHashed}
use durable_wasm.Engine.Recovery.Image.{delta_past}

-- Lists of 4096 bytes that agree at each of them are equal.
block_ext :
    (xs ys : Bytes)
    → length xs ≡ 4096
    → length ys ≡ 4096
    → ((r : ℕ) → r < 4096 → get_elem? xs r ≡ get_elem? ys r)
    → xs ≡ ys
block_ext xs ys hx hy at = list_ext xs ys λ r. elim (dec_lt r 4096) [
  | yes h ↦ at r h
  | no h ↦ get_elem?-out xs r (omega arith) ∙ sym (get_elem?-out ys r (omega arith))
]

module _ (snapshot bytes : Bytes) (deltas : ℕ → Option Bytes)
    (image : IsImage snapshot deltas bytes) where
  byte_of_block :
      (i : ℕ)
      → i * 4096 + 4096 ≤ length bytes
      → (r : ℕ) → r < 4096
      → get_elem? (block i bytes) r ≡ byte_at snapshot (deltas i) (i * 4096 + r)
  byte_of_block i room r h =
      get_elem?-block i bytes r h
      ∙ image.covers (i * 4096 + r) (omega arith)
      ∙ ap (λ (j : ℕ). byte_at snapshot (deltas j) (i * 4096 + r)) (omega arith)

  pub block-delta : (i : ℕ) (d : Bytes) → deltas i ≡ some d → block i bytes ≡ d
  block-delta i d found =
      let (whole, room) = image.fits i d found in
      block_ext (block i bytes) d (length-block i bytes room) whole
        λ r h. byte_of_block i room r h ∙ rw found (ap (get_elem? d) (omega arith))

  pub block-base :
      (i : ℕ)
      → deltas i ≡ none
      → i * 4096 + 4096 ≤ length snapshot
      → block i bytes ≡ block i snapshot
  block-base i missing room =
      let inside : i * 4096 + 4096 ≤ length bytes =
        omega (arith, image.paged, image.snapshot_paged, image.snapshot_fits) in
      block_ext (block i bytes) (block i snapshot) (length-block i bytes inside)
        (length-block i snapshot room)
        λ r h. byte_of_block i inside r h ∙ rw missing (sym (get_elem?-block i snapshot r h))

  -- The hashes of the snapshot's blocks, overlaid by those of the deltas.
  abbrev pub OverlaidHashes : Map ℕ ℕ → Type 0
  OverlaidHashes hashes =
      (i : ℕ)
      → lookup i hashes
        ≡ hash_or (deltas i) (
            if in_range (length snapshot / 4096) 0 i
            then some (fnv64a (block i snapshot))
            else none)

  -- Each of them is that of a block of the memory.
  pub hashes-IsSynced : (hashes : Map ℕ ℕ) → OverlaidHashes hashes → IsSynced hashes bytes
  hashes-IsSynced hashes at = record {
    at = λ i h found. elim (Option-cases (deltas i)) [
      | inr (d, stored) ↦ ((image.fits i d stored).1, ground (arith, at i, block-delta i d stored))
      | inl missing ↦ ground (
        arith,
        at i,
        block-base i missing,
        image.paged,
        image.snapshot_paged,
        image.snapshot_fits,
      )
    ];
  }

  -- A whole block that has no delta stands in the snapshot.
  block_in_snapshot :
      (i : ℕ) → deltas i ≡ none → i * 4096 + 4096 ≤ length bytes → i * 4096 + 4096 ≤ length snapshot
  block_in_snapshot i missing room = elim (dec_lt (i * 4096) (length snapshot)) [
    | yes inside ↦ omega (arith, image.snapshot_paged)
    | no past ↦
        let (d, stored) =
          delta_past snapshot bytes deltas image (i * 4096) (omega arith) (omega arith) in
        let same : i * 4096 / 4096 ≡ i = omega arith in
        absurd (cc (missing, stored, ap deltas same))
  ]

  -- And every whole block of the memory has one.
  pub hashes-AllHashed : (hashes : Map ℕ ℕ) → OverlaidHashes hashes → AllHashed hashes bytes
  hashes-AllHashed hashes at i room = elim (Option-cases (deltas i)) [
    | inr (d, stored) ↦
        at i ∙ rw stored (ap (λ (b : Bytes). some (fnv64a b)) (sym (block-delta i d stored)))
    | inl missing ↦
        let inside = block_in_snapshot i missing room in
        let listed : in_range (length snapshot / 4096) 0 i ≡ true = ground arith in
        at i
        ∙ rw (missing, listed)
            (ap (λ (b : Bytes). some (fnv64a b)) (sym (block-base i missing inside)))
  ]
