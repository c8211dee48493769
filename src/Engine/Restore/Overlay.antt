-- ===== src/Engine/Restore/Overlay.antt =====
-- The loops over the loaded deltas in wasman.go. Go walks a map in any order; here the entries are
-- taken from the back.
use Prim.Native.Nat.{max}
use durable_wasm.Base.{
  ℕ, ◌+◌, ◌*◌, Bytes, Option, none, some, [], ◌∷◌, Map, insert, nat_eq, length, leb, splice,
  if◌then◌else◌,
}
use durable_wasm.Engine.Blocks.{block_size, fnv64a}

-- The largest index, 0 if there is none.
unfoldable pub max_index : Map ℕ Bytes → ℕ
max_index [] = 0
max_index ((i, d) ∷ ds) = max i (max_index ds)

-- `copy(memoryBytes[start:start+len(data)], data)`; slicing past the end panics.
abbrev copy_block : ℕ → Bytes → Bytes → Option Bytes
copy_block i d bytes =
    if leb (i * block_size + length d) (length bytes)
    then some (splice (i * block_size) d bytes)
    else none

abbrev copy_onto : ℕ → Bytes → Option Bytes → Option Bytes
copy_onto i d none = none
copy_onto i d (some bytes) = copy_block i d bytes

unfoldable pub overlay : Map ℕ Bytes → Bytes → Option Bytes
overlay [] bytes = some bytes
overlay ((i, d) ∷ ds) bytes = copy_onto i d (overlay ds bytes)

-- Where a copy panics: the deltas that were copied before it, and the memory that they left.
unfoldable pub overlay_until_panic : Map ℕ Bytes → Bytes → Map ℕ Bytes × Bytes
overlay_until_panic [] bytes = ([], bytes)
overlay_until_panic ((i, d) ∷ ds) bytes =
    let earlier = overlay_until_panic ds bytes in
    elim (overlay ds bytes) [
      | none ↦ earlier
      | some before ↦ elim (copy_block i d before) [
        | none ↦ (ds, before)
        | some after ↦ ((i, d) ∷ ds, after)
      ]
    ]

unfoldable pub hash_deltas : Map ℕ Bytes → Map ℕ ℕ → Map ℕ ℕ
hash_deltas [] hashes = hashes
hash_deltas ((i, d) ∷ ds) hashes = insert i (fnv64a d) (hash_deltas ds hashes)
