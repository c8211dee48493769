-- ===== src/Engine/Recovery.antt =====
-- When the stored snapshot and deltas of an instance stand for a memory, and when the page hashes of
-- a session agree with a memory.
pub mod Image
pub mod Saved
pub mod Resume
pub mod Checkpointed
pub mod BlocksOf
pub mod Grow
use durable_wasm.Base.{
  ℕ, ◌+◌, ◌*◌, ◌/◌, ◌%◌, ◌≤◌, ◌<◌, ◌≡◌, Bytes, Option, none, some, Map, lookup, nat_eq, length,
  get_elem?,
}
use durable_wasm.Linear.{page_size}
use durable_wasm.Engine.Blocks.{fnv64a, block}
use durable_wasm.Engine.Restore.Bytewise.{byte_at, Fits}

-- The snapshot and the deltas stand for the memory `bytes`.
pub record IsImage (snapshot : Bytes) (deltas : ℕ → Option Bytes) (bytes : Bytes) : Type 0 where
  pub pages : ℕ
  pub snapshot_pages : ℕ
  pub paged : length bytes ≡ pages * page_size
  pub snapshot_paged : length snapshot ≡ snapshot_pages * page_size
  pub snapshot_some : 1 ≤ snapshot_pages
  pub snapshot_fits : snapshot_pages ≤ pages
  pub fits : Fits deltas (length bytes)
  pub covers :
      (k : ℕ) → k < length bytes → get_elem? bytes k ≡ byte_at snapshot (deltas (k / 4096)) k

-- Each page hash is the hash of a whole block of the memory `bytes`.
pub record IsSynced (hashes : Map ℕ ℕ) (bytes : Bytes) : Type 0 where
  pub at :
      (i h : ℕ)
      → lookup i hashes ≡ some h
      → (i * 4096 + 4096 ≤ length bytes) × (fnv64a (block i bytes) ≡ h)

-- Every whole block of the memory `bytes` has its hash on record.
abbrev pub AllHashed : Map ℕ ℕ → Bytes → Type 0
AllHashed hashes bytes =
    (i : ℕ) → i * 4096 + 4096 ≤ length bytes → lookup i hashes ≡ some (fnv64a (block i bytes))

-- No two different blocks at one place of the two memories have the same hash.
abbrev pub NoCollision : Bytes → Bytes → Type 0
NoCollision old new =
    (i : ℕ) → fnv64a (block i old) ≡ fnv64a (block i new) → block i old ≡ block i new
