-- ===== src/Tests/RefusedTests.antt =====
-- Two sessions of one instance in the same version, on one store.
use durable_wasm.Base.{ℕ, ◌≡◌, refl, [], ◌∷◌, bytes_eq, list_dec, nat_eq, lookup, str}
use durable_wasm.Store.Memory.{new_memory_snapshot_store, save_metadata, may_write}
use durable_wasm.Store.Memory.Fencing.{after_events, saves}
use durable_wasm.Session.{panics, Machine}
use durable_wasm.Engine.Checkpoint.{checkpoint}
use durable_wasm.Engine.Checkpoint.Fenced.{checkpoint-fenced}
use durable_wasm.Tests.ByteMemory.{byte_memory}
use durable_wasm.Tests.Setup.{plain_json, store, id, meta_at, session_at, small_memory}

abbrev early : Machine store byte_memory ℕ
early = record {
  session = session_at 1;
  store = record new_memory_snapshot_store { meta = (id, meta_at 1) ∷ [] };
  memory = small_memory;
  world = 0;
}

-- Another session, after the checkpoint of the first and a save for another instance.
abbrev late : Machine store byte_memory ℕ
late = record early {
  store =
      after_events (saves (str "other") small_memory ∷ [])
        (checkpoint store byte_memory early).1.store;
  memory = [];
}

checkpoint-fenced_example : checkpoint store byte_memory late ≡ (
  panics "concurrent_execution_detected",
  record late {
    session = record (session_at 1) { meta = record (meta_at 1) { wasm_hash = str "h2" } };
  },
)
unfolding save_metadata may_write new_memory_snapshot_store lookup nat_eq bytes_eq list_dec
checkpoint-fenced_example =
    checkpoint-fenced plain_json byte_memory early late (saves (str "other") small_memory ∷ []) refl
      refl refl refl
