-- ===== src/Engine/Recovery/Checkpointed.antt =====
-- How the two kinds of snapshot keep the stored image of a memory up to date.
use durable_wasm.Base.{
  ℕ, ◌+◌, ◌*◌, ◌/◌, ◌≤◌, ◌<◌, ◌≡◌, sym, refl, arith, false, ◌&&◌, Bool-cases, inl, inr, Bytes,
  Option, none, some, [], Map, lookup, nat_eq, length, get_elem?, or_else, if◌then◌else◌,
}
use durable_wasm.Linear.{page_size}
use durable_wasm.Engine.Blocks.{block_size, fnv64a, block, scan_blocks, is_dirty}
use durable_wasm.Engine.Blocks.Scan.{in_range, lookup-scan_blocks_deltas, lookup-scan_blocks_hashes}
use durable_wasm.Engine.Blocks.Bytewise.{get_elem?-in_block, length-block}
use durable_wasm.Engine.Restore.Bytewise.{byte_at, Fits}
use durable_wasm.Engine.Recovery.{IsImage, IsSynced, NoCollision}

-- A snapshot with no deltas stands for its own bytes.
pub IsImage-self :
    (bytes : Bytes) (deltas : ℕ → Option Bytes) (p : ℕ)
    → 1 ≤ p
    → length bytes ≡ p * page_size
    → ((i : ℕ) → deltas i ≡ none)
    → IsImage bytes deltas bytes
IsImage-self bytes deltas p some_pages paged no_deltas = record {
  pages = p;
  snapshot_pages = p;
  paged = paged;
  snapshot_paged = paged;
  snapshot_some = some_pages;
  snapshot_fits = omega arith;
  fits = λ i d stored. cc (no_deltas i);
  covers = λ k h. sym (rw (no_deltas (k / 4096)) refl);
}

is_dirty-false : (o : Option ℕ) (hash : ℕ) → is_dirty o hash ≡ false → o ≡ some hash
unfolding nat_eq
is_dirty-false o hash clean = ground arith

module _ (hashes : Map ℕ ℕ) (bytes : Bytes) where
  abbrev pub fresh : Map ℕ Bytes × Map ℕ ℕ
  fresh = scan_blocks (length bytes / block_size) 0 bytes [] hashes

  -- The hashes that an incremental checkpoint leaves, where it started from those of blocks within
  -- the memory, are the memory's.
  pub fresh-IsSynced :
      (old : Bytes) → IsSynced hashes old → length old ≤ length bytes → IsSynced fresh.1 bytes
  fresh-IsSynced old synced grows = record {
    at = λ i h found. ground (
      arith,
      lookup-scan_blocks_hashes (length bytes / block_size) 0 bytes [] hashes i,
      synced.at i h,
    );
  }

  module _ (snapshot old : Bytes) (deltas : ℕ → Option Bytes) (p : ℕ)
      (image : IsImage snapshot deltas old) (synced : IsSynced hashes old)
      (paged : length bytes ≡ p * page_size) (grows : length old ≤ length bytes)
      (distinct : NoCollision old bytes) where
    abbrev merged : ℕ → Option Bytes
    merged i = or_else (lookup i fresh.0) (deltas i)

    fresh_delta :
        (i : ℕ)
        → lookup i fresh.0 ≡ (
            if in_range (length bytes / block_size) 0 i
              && is_dirty (lookup i hashes) (fnv64a (block i bytes))
            then some (block i bytes)
            else none)
    unfolding lookup
    fresh_delta i = lookup-scan_blocks_deltas (length bytes / block_size) 0 bytes [] hashes i

    -- A block that is not saved again is as it was.
    clean_block :
        (i : ℕ)
        → is_dirty (lookup i hashes) (fnv64a (block i bytes)) ≡ false
        → (i * 4096 + 4096 ≤ length old) × (block i old ≡ block i bytes)
    clean_block i clean =
        let (room, same) = synced.at i _ (is_dirty-false (lookup i hashes) _ clean) in
        (room, distinct i same)

    merged-Fits : Fits merged (length bytes)
    unfolding or_else
    merged-Fits i d stored = ground (arith, fresh_delta i, image.fits i d, length-block i bytes)

    merged-covers :
        (k : ℕ) → k < length bytes → get_elem? bytes k ≡ byte_at snapshot (merged (k / 4096)) k
    unfolding or_else
    merged-covers k h =
        elim (Bool-cases (is_dirty (lookup (k / 4096) hashes) (fnv64a (block (k / 4096) bytes)))) [
          | inl dirty ↦ ground (arith, fresh_delta (k / 4096), get_elem?-in_block bytes k)
          | inr clean ↦
              let (room, same) = clean_block (k / 4096) clean in
              ground (
                arith,
                fresh_delta (k / 4096),
                get_elem?-in_block bytes k,
                get_elem?-in_block old k,
                same,
                image.covers k,
              )
        ]

    -- With the new deltas over the old ones, the store stands for the new memory.
    pub IsImage-merged : IsImage snapshot merged bytes
    IsImage-merged = record {
      pages = p;
      snapshot_pages = image.snapshot_pages;
      paged = paged;
      snapshot_paged = image.snapshot_paged;
      snapshot_some = image.snapshot_some;
      snapshot_fits = omega (arith, image.snapshot_fits, image.paged);
      fits = merged-Fits;
      covers = merged-covers;
    }
