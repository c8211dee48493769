-- ===== src/Tests/StaleTests.antt =====
-- A guest that changes its page, lets a full snapshot happen, and changes the page back.
use durable_wasm.Base.{
  ℕ, ◌≤◌, ◌≡◌, ◌≢◌, ◌∙◌, sym, refl, ap, arith, true, false, Bytes, some, [], ◌∷◌, length, get_elem?,
  nat_eq, bytes_eq, list_dec, lookup, insert,
}
use durable_wasm.Types.{ok}
use durable_wasm.Store.Memory.{
  new_memory_snapshot_store, save_metadata, may_write, save, truncate_oplog, truncate_deltas,
}
use durable_wasm.Store.Memory.Refines.{reliable_memory}
use durable_wasm.Session.{returns, Machine, Run}
use durable_wasm.Engine.Blocks.{fnv64a, block}
use durable_wasm.Engine.Blocks.Bytewise.{get_elem?-block}
use durable_wasm.Engine.Checkpoint.{
  checkpoint, is_full_snapshot, crash_if_asked, write_snapshot, truncate_logs,
}
use durable_wasm.Engine.Checkpoint.Steps.{swap, checkpoint-won}
use durable_wasm.Engine.Checkpoint.Stale.{reverted_block_lost}
use durable_wasm.Engine.Checkpoint.Torn.{saved_only, checkpoint-torn}
use durable_wasm.Engine.Recovery.Saved.{IsSaved}
use durable_wasm.Tests.ByteMemory.{byte_memory, linear_bytes}
use durable_wasm.Tests.Setup.{plain_json, store, id, meta_at, session_at, page, length-page}

-- Before its fifth checkpoint, with the hash of the page of zeros on record.
abbrev fourth : Machine store byte_memory ℕ
fourth = record {
  session = record (session_at 4) { page_hashes = (0, fnv64a (block 0 (page 0))) ∷ [] };
  store = record new_memory_snapshot_store { meta = (id, meta_at 4) ∷ [] };
  memory = page 1;
  world = 0;
}

fourth-swap : (swap store (reliable_memory plain_json) byte_memory linear_bytes fourth).0 ≡ ok true
unfolding save_metadata may_write new_memory_snapshot_store lookup nat_eq bytes_eq list_dec
fourth-swap = refl

fourth-full :
    is_full_snapshot
      (swap store (reliable_memory plain_json) byte_memory linear_bytes fourth).1.version
    ≡ true
unfolding save_metadata may_write new_memory_snapshot_store lookup nat_eq bytes_eq list_dec
    is_full_snapshot
fourth-full = refl

fourth-past :
    2 ≤ (swap store (reliable_memory plain_json) byte_memory linear_bytes fourth).1.version
unfolding save_metadata may_write new_memory_snapshot_store lookup nat_eq bytes_eq list_dec
fourth-past = omega arith

page-some : (b : ℕ) → 1 ≤ length (page b)
page-some b = omega (arith, length-page b)

abbrev fifth : Machine store byte_memory ℕ
fifth = record (checkpoint store byte_memory fourth).1 { memory = page 0 }

fifth-swap : (swap store (reliable_memory plain_json) byte_memory linear_bytes fifth).0 ≡ ok true
unfolding save_metadata may_write new_memory_snapshot_store lookup nat_eq bytes_eq list_dec
    is_full_snapshot crash_if_asked write_snapshot save truncate_oplog truncate_deltas insert
    linear_bytes
fifth-swap =
    ap
      (λ (r : Run store byte_memory ℕ (Unit {0})).
        (swap store (reliable_memory plain_json) byte_memory linear_bytes
          (record r.1 { memory = page 0 })).0)
      (checkpoint-won store (reliable_memory plain_json) byte_memory linear_bytes fourth fourth-swap
        (page-some 1))

fifth-partial :
    is_full_snapshot
      (swap store (reliable_memory plain_json) byte_memory linear_bytes fifth).1.version
    ≡ false
unfolding save_metadata may_write new_memory_snapshot_store lookup nat_eq bytes_eq list_dec
    is_full_snapshot crash_if_asked write_snapshot save truncate_oplog truncate_deltas insert
    linear_bytes
fifth-partial =
    ap
      (λ (r : Run store byte_memory ℕ (Unit {0})).
        is_full_snapshot
          (swap store (reliable_memory plain_json) byte_memory linear_bytes
            (record r.1 { memory = page 0 })).1.version)
      (checkpoint-won store (reliable_memory plain_json) byte_memory linear_bytes fourth fourth-swap
        (page-some 1))

-- The first byte of the page's first block.
first_byte : (b : ℕ) → get_elem? (block 0 (page b)) 0 ≡ some b
unfolding page
first_byte b = get_elem?-block 0 (page b) 0 (omega arith)

first_of_second : (b : ℕ) → get_elem? (block 1 (page b)) 0 ≡ some b
unfolding page
first_of_second b = get_elem?-block 1 (page b) 0 (omega arith)

pages-differ : block 0 (page 0) ≢ block 0 (page 1)
pages-differ same =
    let bytes = sym (first_byte 0) ∙ ap (λ (xs : Bytes). get_elem? xs 0) same ∙ first_byte 1 in
    cc bytes

reverted_block_lost_example :
    ¬ IsSaved
      ((reliable_memory plain_json).view (checkpoint store byte_memory fifth).1.store)
      id
      (page 0)
unfolding linear_bytes lookup nat_eq
reverted_block_lost_example =
    reverted_block_lost store (reliable_memory plain_json) byte_memory linear_bytes fourth (page 0)
      0 (page-some 1) refl fourth-swap fourth-full fourth-past (page-some 0) fifth-swap
      fifth-partial (omega (arith, length-page 1)) refl pages-differ

second_blocks-differ : block 1 (page 1) ≢ block 1 (page 0)
second_blocks-differ same =
    let bytes =
      sym (first_of_second 1) ∙ ap (λ (xs : Bytes). get_elem? xs 0) same ∙ first_of_second 0 in
    cc bytes

-- Before its fifth checkpoint, with the second block of the page of zeros as a delta.
abbrev fourth_delta : Machine store byte_memory ℕ
fourth_delta = record fourth {
  store = record fourth.store { deltas = (id, (1, block 1 (page 0)) ∷ []) ∷ [] };
}

fourth_delta-swap :
    (swap store (reliable_memory plain_json) byte_memory linear_bytes fourth_delta).0 ≡ ok true
unfolding save_metadata may_write new_memory_snapshot_store lookup nat_eq bytes_eq list_dec
fourth_delta-swap = refl

fourth_delta-full :
    is_full_snapshot
      (swap store (reliable_memory plain_json) byte_memory linear_bytes fourth_delta).1.version
    ≡ true
unfolding save_metadata may_write new_memory_snapshot_store lookup nat_eq bytes_eq list_dec
    is_full_snapshot
fourth_delta-full = refl

fourth_delta-past :
    2 ≤ (swap store (reliable_memory plain_json) byte_memory linear_bytes fourth_delta).1.version
unfolding save_metadata may_write new_memory_snapshot_store lookup nat_eq bytes_eq list_dec
fourth_delta-past = omega arith

checkpoint-torn_example :
    let left =
      saved_only store (reliable_memory plain_json) byte_memory linear_bytes fourth_delta in
    let v = (reliable_memory plain_json).view left.store in
    (checkpoint store byte_memory fourth_delta
      ≡ crash_if_asked store byte_memory (returns tt, truncate_logs store byte_memory left))
    × (¬ IsSaved v id (page 1))
    × (¬ IsSaved v id (page 0))
unfolding linear_bytes lookup nat_eq bytes_eq list_dec new_memory_snapshot_store reliable_memory
checkpoint-torn_example =
    checkpoint-torn store (reliable_memory plain_json) byte_memory linear_bytes fourth_delta 1 0
      (block 1 (page 0)) (page 0) (page-some 1) fourth_delta-swap fourth_delta-full
      fourth_delta-past refl second_blocks-differ refl (omega (arith, length-page 1)) pages-differ
