-- ===== src/Engine/Checkpoint.antt =====
-- wasman.go: the host function `checkpoint` that the guest imports from `env`.
pub mod Steps
pub mod Stale
pub mod Hashes
pub mod Durable
pub mod Refused
pub mod Torn
pub mod Memory
pub mod Fenced
use durable_wasm.Base.{
  ℕ, ◌/◌, ◌%◌, Bool, true, false, not, ◌&&◌, ◌||◌, Bytes, Option, none, some, [], ◌∷◌, Map, ◌==◌,
  nat_eq, length, ltb, if◌then◌else◌,
}
use durable_wasm.Types.{Result, ok, err, InstanceMeta}
use durable_wasm.Store.{SnapshotStore}
use durable_wasm.Linear.{LinearMemory}
use durable_wasm.Session.{returns, fails, panics, Machine, Run}
use durable_wasm.Engine.Blocks.{block_size, scan_blocks}

unfoldable pub is_full_snapshot : ℕ → Bool
is_full_snapshot version = version == 1 || ltb 1 version && version % 5 == 0

abbrev pub is_nonempty : Map ℕ Bytes → Bool
is_nonempty [] = false
is_nonempty (d ∷ deltas) = true

module _ (S : SnapshotStore) (L : LinearMemory) {W : Type 0} where
  abbrev version_of_session : Machine S L W → ℕ
  version_of_session m = m.session.meta.version

  -- Errors of the two truncations are dropped.
  unfoldable pub truncate_logs : Machine S L W → Machine S L W
  truncate_logs m =
      let id = m.session.instance_id in
      let (_, store) = S.truncate_oplog id m.session.call_index m.store in
      record m { store = (S.truncate_deltas id store).1 }

  after_save : Machine S L W → Result (Unit {0}) × S.State → Run S L W (Unit {0})
  after_save m (err e, store) = (panics "failed to write snapshot", record m { store = store })
  after_save m (ok _, store) =
      let m' = record m { store = store } in
      (returns tt, if ltb 1 (version_of_session m) then truncate_logs m' else m')

  unfoldable pub write_snapshot : Bytes → Machine S L W → Run S L W (Unit {0})
  unfolding after_save truncate_logs
  write_snapshot bytes m = after_save m (S.save m.session.instance_id bytes m.store)

  after_save_deltas : Machine S L W → Result (Unit {0}) × S.State → Run S L W (Unit {0})
  after_save_deltas m (err e, store) =
      (panics "failed to write memory deltas", record m { store = store })
  after_save_deltas m (ok _, store) = (returns tt, record m { store = store })

  save_nonempty : Map ℕ Bytes → Machine S L W → Run S L W (Unit {0})
  unfolding after_save_deltas
  save_nonempty [] m = (returns tt, m)
  save_nonempty (d ∷ deltas) m =
      after_save_deltas m (S.save_deltas m.session.instance_id (d ∷ deltas) m.store)

  -- The first hash of a dirty block is put into the map, which panics where it is nil.
  unfoldable pub write_scanned : Map ℕ Bytes → Map ℕ ℕ → Machine S L W → Run S L W (Unit {0})
  unfolding save_nonempty
  write_scanned deltas hashes m =
      if not m.session.hashes_made && is_nonempty deltas
      then (panics "assignment to entry in nil map", m)
      else save_nonempty deltas (record m { session = record m.session { page_hashes = hashes } })

  unfoldable pub write_deltas : Bytes → Machine S L W → Run S L W (Unit {0})
  unfolding write_scanned
  write_deltas bytes m =
      let (deltas, hashes) =
        scan_blocks (length bytes / block_size) 0 bytes [] m.session.page_hashes in
      write_scanned deltas hashes m

  -- The end of the handler, after the writes went through.
  unfoldable pub crash_if_asked : Run S L W (Unit {0}) → Run S L W (Unit {0})
  crash_if_asked (returns _, m) =
      if m.session.should_crash_on_checkpoint
      then (
        panics "simulated_host_crash",
        record m { session = record m.session { crashed = true } },
      )
      else (returns tt, m)
  crash_if_asked (fails e, m) = (fails e, m)
  crash_if_asked (panics text, m) = (panics text, m)

  unfoldable pub write_memory : Option Bytes → Machine S L W → Run S L W (Unit {0})
  unfolding crash_if_asked
  write_memory none m = (panics "failed to read memory", m)
  write_memory (some bytes) m = crash_if_asked (
      if is_full_snapshot (version_of_session m)
      then write_snapshot bytes m
      else write_deltas bytes m)

  -- What follows the compare-and-swap of the metadata.
  after_swap : Machine S L W → Result Bool × InstanceMeta × S.State → Run S L W (Unit {0})
  unfolding write_memory
  after_swap m (swapped, meta, store) =
      let m' = record m { session = record m.session { meta = meta }; store = store } in
      elim swapped [
        | err _ ↦ (panics "failed to save metadata", m')
        | ok won ↦
            if won
            then if L.size m.memory == 0
              then (panics "memory data size is zero", m')
              else write_memory (L.read m.memory 0 (L.size m.memory)) m'
            else (panics "concurrent_execution_detected", m')
      ]

  unfoldable pub checkpoint : Machine S L W → Run S L W (Unit {0})
  unfolding after_swap
  checkpoint m =
      after_swap m
        (S.save_metadata (record m.session.meta { wasm_hash = m.session.engine_hash }) m.store)
