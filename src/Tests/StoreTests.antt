-- ===== src/Tests/StoreTests.antt =====
-- Fencing and the active index, by the in-memory store.
use durable_wasm.Base.{suc, ◌≡◌, refl, false, List, str, [], ◌∷◌, length, bytes_eq, nat_eq, lookup}
use durable_wasm.Types.{ok}
use durable_wasm.Store.Memory.{new_memory_snapshot_store, save_metadata, may_write}
use durable_wasm.Store.Memory.Fencing.{
  Event, saves, swaps, after_events, versions_won, count_from, stored_version,
  versions_won-eq-count_from, save_metadata_fenced,
}
use durable_wasm.Tests.Setup.{id, meta_at}

-- Two sessions with the same metadata; one of them saves once more.
abbrev race : List Event
race = swaps (meta_at 0) ∷ (swaps (meta_at 0) ∷ (saves id (str "x") ∷ (swaps (meta_at 1) ∷ [])))

versions_won-eq-count_from_example :
    versions_won id race new_memory_snapshot_store
    ≡ count_from
        (suc (stored_version id new_memory_snapshot_store))
        (length (versions_won id race new_memory_snapshot_store))
versions_won-eq-count_from_example = versions_won-eq-count_from id race new_memory_snapshot_store

save_metadata_fenced_example :
    let t =
      after_events
        (saves id (str "x") ∷ [])
        (save_metadata (meta_at 0) new_memory_snapshot_store).2 in
    save_metadata (meta_at 0) t ≡ (ok false, meta_at 0, t)
unfolding save_metadata may_write new_memory_snapshot_store lookup nat_eq
save_metadata_fenced_example =
    save_metadata_fenced (meta_at 0) (meta_at 0) (saves id (str "x") ∷ []) new_memory_snapshot_store
      refl refl refl
