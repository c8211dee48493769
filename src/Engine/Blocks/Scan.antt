-- ===== src/Engine/Blocks/Scan.antt =====
-- What the loops over blocks leave at each block.
use durable_wasm.Base.{
  ℕ, zero, suc, ◌+◌, ◌≡◌, arith, Bool, ◌&&◌, Bytes, some, Map, lookup, insert, lookup-insert,
  nat_eq, leb, ltb, if◌then◌else◌,
}
use durable_wasm.Engine.Blocks.{fnv64a, block, is_dirty, scan_blocks, hash_blocks}

-- Block j is among the `left` blocks from i on.
abbrev pub in_range : ℕ → ℕ → ℕ → Bool
in_range left i j = leb i j && ltb j (i + left)

-- Afterwards each block of the range has the hash of its bytes, and no other entry has changed.
pub lookup-scan_blocks_hashes :
    (left i : ℕ) (bytes : Bytes) (deltas : Map ℕ Bytes) (hashes : Map ℕ ℕ) (j : ℕ)
    → lookup j (scan_blocks left i bytes deltas hashes).1
      ≡ (if in_range left i j then some (fnv64a (block j bytes)) else lookup j hashes)
unfolding scan_blocks nat_eq
lookup-scan_blocks_hashes zero i bytes deltas hashes j = ground arith
lookup-scan_blocks_hashes (suc left) i bytes deltas hashes j = ground (
  arith,
  lookup-insert j i (fnv64a (block i bytes)) hashes,
  lookup-scan_blocks_hashes left (suc i) bytes
      (if is_dirty (lookup i hashes) (fnv64a (block i bytes))
        then insert i (block i bytes) deltas
        else deltas)
      (if is_dirty (lookup i hashes) (fnv64a (block i bytes))
        then insert i (fnv64a (block i bytes)) hashes
        else hashes)
      j,
)

-- The deltas are the blocks of the range whose hash was missing or another.
pub lookup-scan_blocks_deltas :
    (left i : ℕ) (bytes : Bytes) (deltas : Map ℕ Bytes) (hashes : Map ℕ ℕ) (j : ℕ)
    → lookup j (scan_blocks left i bytes deltas hashes).0 ≡ (
        if in_range left i j && is_dirty (lookup j hashes) (fnv64a (block j bytes))
        then some (block j bytes)
        else lookup j deltas)
unfolding scan_blocks nat_eq
lookup-scan_blocks_deltas zero i bytes deltas hashes j = ground arith
lookup-scan_blocks_deltas (suc left) i bytes deltas hashes j = ground (
  arith,
  lookup-insert j i (block i bytes) deltas,
  lookup-insert j i (fnv64a (block i bytes)) hashes,
  lookup-scan_blocks_deltas left (suc i) bytes
      (if is_dirty (lookup i hashes) (fnv64a (block i bytes))
        then insert i (block i bytes) deltas
        else deltas)
      (if is_dirty (lookup i hashes) (fnv64a (block i bytes))
        then insert i (fnv64a (block i bytes)) hashes
        else hashes)
      j,
)

pub lookup-hash_blocks :
    (left i : ℕ) (bytes : Bytes) (hashes : Map ℕ ℕ) (j : ℕ)
    → lookup j (hash_blocks left i bytes hashes)
      ≡ (if in_range left i j then some (fnv64a (block j bytes)) else lookup j hashes)
unfolding hash_blocks nat_eq
lookup-hash_blocks zero i bytes hashes j = ground arith
lookup-hash_blocks (suc left) i bytes hashes j = ground (
  arith,
  lookup-insert j i (fnv64a (block i bytes)) hashes,
  lookup-hash_blocks left (suc i) bytes (insert i (fnv64a (block i bytes)) hashes) j,
)
