-- ===== src/Tests/RecoveryTests.antt =====
-- A guest with one page of memory: its first checkpoint, and a restart on a fresh page.
use mathlib.Core.Option.{some-injective}
use durable_wasm.Base.{
  ℕ, ◌≤◌, ◌≡◌, ◌∙◌, sym, refl, ap, arith, true, false, [], ◌∷◌, length, nat_eq, bytes_eq, list_dec,
  lookup,
}
use durable_wasm.Types.{ok}
use durable_wasm.Store.Memory.{new_memory_snapshot_store, save_metadata, may_write}
use durable_wasm.Store.Memory.Refines.{reliable_memory, contents}
use durable_wasm.Session.{Machine}
use durable_wasm.Engine.Checkpoint.{checkpoint, is_full_snapshot}
use durable_wasm.Engine.Checkpoint.Steps.{swap}
use durable_wasm.Engine.Checkpoint.Durable.{IsReady, first, checkpoint-IsSaved}
use durable_wasm.Engine.Checkpoint.Hashes.{checkpoint-IsSynced}
use durable_wasm.Engine.Restore.{restore}
use durable_wasm.Engine.Restore.Correct.{Restored, restore_lem}
use durable_wasm.Engine.Recovery.{IsSynced}
use durable_wasm.Engine.Recovery.Saved.{IsSaved}
use durable_wasm.Engine.Recovery.Resume.{IsFresh, saved-IsResumable, restore-checkpoint}
use durable_wasm.Tests.ByteMemory.{byte_memory, linear_bytes}
use durable_wasm.Tests.Setup.{plain_json, store, id, meta_at, session_at, page, length-page}

abbrev guest : Machine store byte_memory ℕ
guest = record {
  session = session_at 0;
  store = new_memory_snapshot_store;
  memory = page 7;
  world = 0;
}

abbrev restarted : Machine store byte_memory ℕ
restarted = record {
  session = session_at 1;
  store = (checkpoint store byte_memory guest).1.store;
  memory = page 0;
  world = 0;
}

guest-IsReady : IsReady store (reliable_memory plain_json) byte_memory linear_bytes guest
unfolding reliable_memory contents lookup new_memory_snapshot_store
guest-IsReady = first refl (λ i. refl)

guest-swap : (swap store (reliable_memory plain_json) byte_memory linear_bytes guest).0 ≡ ok true
unfolding save_metadata may_write new_memory_snapshot_store lookup nat_eq
guest-swap = refl

-- What the tests of a restart use.
checkpoint-IsSaved_fact :
    IsSaved
      ((reliable_memory plain_json).view (checkpoint store byte_memory guest).1.store)
      id
      (page 7)
unfolding linear_bytes
checkpoint-IsSaved_fact =
    checkpoint-IsSaved store (reliable_memory plain_json) byte_memory linear_bytes guest 1
      (omega arith) (length-page 7) guest-swap guest-IsReady

checkpoint-IsSaved_example :
    IsSaved
      ((reliable_memory plain_json).view (checkpoint store byte_memory guest).1.store)
      id
      (page 7)
unfolding linear_bytes
checkpoint-IsSaved_example =
    checkpoint-IsSaved store (reliable_memory plain_json) byte_memory linear_bytes guest 1
      (omega arith) (length-page 7) guest-swap guest-IsReady

restarted-IsFresh : IsFresh store (reliable_memory plain_json) byte_memory linear_bytes restarted 1
unfolding linear_bytes
restarted-IsFresh = record {
  no_hashes = refl;
  paged = length-page 0;
  fits = λ snapshot stored.
      let saved = checkpoint-IsSaved_fact in
      let same : snapshot ≡ saved.snapshot = some-injective _ _ (sym stored ∙ saved.stored) in
      omega (arith, ap length same, saved.image.snapshot_paged, saved.image.snapshot_some);
}

restore-checkpoint_example :
    Restored store byte_memory linear_bytes restarted (page 7) (restore store byte_memory restarted)
unfolding linear_bytes
restore-checkpoint_example =
    restore-checkpoint store (reliable_memory plain_json) byte_memory linear_bytes guest restarted 1
      1 (omega arith) (length-page 7) (omega arith) (omega arith) guest-swap guest-IsReady refl refl
      restarted-IsFresh

restore_lem_example :
    Restored store byte_memory linear_bytes restarted (page 7) (restore store byte_memory restarted)
unfolding linear_bytes
restore_lem_example =
    restore_lem store (reliable_memory plain_json) byte_memory linear_bytes restarted (page 7) (
      saved-IsResumable store (reliable_memory plain_json) byte_memory linear_bytes restarted
        (page 7) 1 1 restarted-IsFresh (length-page 7) (omega arith) (omega arith)
        checkpoint-IsSaved_fact)

-- The second checkpoint of an instance is an incremental one.
abbrev second : Machine store byte_memory ℕ
second = record {
  session = session_at 1;
  store = record new_memory_snapshot_store { meta = (id, meta_at 1) ∷ [] };
  memory = page 7;
  world = 0;
}

second-swap : (swap store (reliable_memory plain_json) byte_memory linear_bytes second).0 ≡ ok true
unfolding save_metadata may_write new_memory_snapshot_store lookup nat_eq bytes_eq list_dec
second-swap = refl

second-partial :
    is_full_snapshot
      (swap store (reliable_memory plain_json) byte_memory linear_bytes second).1.version
    ≡ false
unfolding save_metadata may_write new_memory_snapshot_store lookup nat_eq bytes_eq list_dec
    is_full_snapshot
second-partial = refl

page-some : 1 ≤ length (page 7)
page-some = omega (arith, length-page 7)

checkpoint-IsSynced_example :
    IsSynced (checkpoint store byte_memory second).1.session.page_hashes (page 7)
unfolding linear_bytes lookup
checkpoint-IsSynced_example =
    checkpoint-IsSynced store (reliable_memory plain_json) byte_memory linear_bytes second
      second-swap page-some refl [] second-partial (record { at = λ i h p. absurd (cc p) })
      (omega arith)
