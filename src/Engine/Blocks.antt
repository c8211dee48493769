-- ===== src/Engine/Blocks.antt =====
-- The 4096-byte blocks of a memory and their hashes: the two loops over blocks in wasman.go, and
-- FNV-64a of hash/fnv.
pub mod Scan
pub mod Bytewise
use Prim.Native.Nat.{bit_xor}
use mathlib.Core.List.{foldl}
use durable_wasm.Base.{
  ℕ, zero, suc, ◌*◌, ◌%◌, ◌^◌, Bool, true, not, Bytes, Option, none, some, Map, lookup, insert,
  ◌==◌, nat_eq, take, drop, if◌then◌else◌,
}

abbrev pub block_size : ℕ
block_size = 4096

-- `h.Reset(); h.Write(data); h.Sum64()`
unfoldable pub fnv64a : Bytes → ℕ
fnv64a = foldl (λ h b. bit_xor h b * 1099511628211 % 2 ^ 64) 14695981039346656037

-- `memoryBytes[start:end]` for block i
unfoldable pub block : ℕ → Bytes → Bytes
block i bytes = take block_size (drop (i * block_size) bytes)

-- `!exists || prevHash != hashVal`
abbrev pub is_dirty : Option ℕ → ℕ → Bool
is_dirty none hash = true
is_dirty (some prev_hash) hash = not (prev_hash == hash)

-- The loop of an incremental checkpoint, with `left` blocks to go from block i on: the deltas, and
-- the page hashes that it leaves.
unfoldable pub scan_blocks : ℕ → ℕ → Bytes → Map ℕ Bytes → Map ℕ ℕ → Map ℕ Bytes × Map ℕ ℕ
scan_blocks zero i bytes deltas hashes = (deltas, hashes)
scan_blocks (suc left) i bytes deltas hashes =
    let data_i = block i bytes in
    let hash = fnv64a data_i in
    let dirty = is_dirty (lookup i hashes) hash in
    scan_blocks left (suc i) bytes (if dirty then insert i data_i deltas else deltas)
      (if dirty then insert i hash hashes else hashes)

-- The loop that hashes every block of a restored snapshot.
unfoldable pub hash_blocks : ℕ → ℕ → Bytes → Map ℕ ℕ → Map ℕ ℕ
hash_blocks zero i bytes hashes = hashes
hash_blocks (suc left) i bytes hashes =
    hash_blocks left (suc i) bytes (insert i (fnv64a (block i bytes)) hashes)
