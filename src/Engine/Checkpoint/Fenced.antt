-- ===== src/Engine/Checkpoint/Fenced.antt =====
-- Checkpoints of two sessions of one instance on the in-memory store.
use durable_wasm.Base.{
  ℕ, ◌≡◌, ◌∙◌, sym, ap, refl, Bool, true, false, not, ◌&&◌, Bool-cases, inl, inr, Bytes, Option,
  none, some, List, [], ◌∷◌, ◌++◌, Map, nat_eq, ◌==◌, ltb, if◌then◌else◌,
}
use durable_wasm.Types.{Result, ok, err, InstanceMeta}
use durable_wasm.Store.Memory.{
  IndexJson, MemorySnapshotStore, save, save_deltas, truncate_deltas, truncate_oplog, save_metadata,
  memory_store,
}
use durable_wasm.Store.Memory.Fencing.{
  Event, saves, saves_deltas, truncates_deltas, truncates_oplog, after_event, after_events,
  save_metadata_fenced,
}
use durable_wasm.Linear.{LinearMemory}
use durable_wasm.Session.{returns, fails, panics, Machine, Run}
use durable_wasm.Engine.Checkpoint.{
  is_full_snapshot, truncate_logs, after_save, write_snapshot, after_save_deltas, save_nonempty,
  is_nonempty, write_scanned, write_deltas, crash_if_asked, write_memory, after_swap, checkpoint,
}

after_events-append :
    (first second : List Event) (s : MemorySnapshotStore)
    → after_events (first ++ second) s ≡ after_events second (after_events first s)
unfolding after_events
after_events-append [] second s = refl
after_events-append (event ∷ first) second s =
    after_events-append first second (after_event event s)

-- The writes of a call are events of its session.
abbrev Writes : MemorySnapshotStore → MemorySnapshotStore → Type 0
Writes s s' = (events : List Event) × (s' ≡ after_events events s)

module _ (J : IndexJson) (L : LinearMemory) {W : Type 0} where
  write_snapshot-Writes :
      (bytes : Bytes) (m : Machine (memory_store J) L W)
      → Writes m.store (write_snapshot (memory_store J) L bytes m).1.store
  unfolding write_snapshot after_save truncate_logs save truncate_oplog truncate_deltas after_events
      after_event
  write_snapshot-Writes bytes m =
      let id = m.session.instance_id in
      elim (Bool-cases (ltb 1 m.session.meta.version)) [
        | inl later ↦ (
          saves id bytes ∷ (truncates_oplog id m.session.call_index ∷ (truncates_deltas id ∷ [])),
          rw later refl,
        )
        | inr first ↦ (saves id bytes ∷ [], rw first refl)
      ]

  save_nonempty-Writes :
      (deltas : Map ℕ Bytes) (m : Machine (memory_store J) L W)
      → Writes m.store (save_nonempty (memory_store J) L deltas m).1.store
  unfolding save_nonempty after_save_deltas save_deltas after_events after_event
  save_nonempty-Writes [] m = ([], refl)
  save_nonempty-Writes (d ∷ deltas) m = (saves_deltas m.session.instance_id (d ∷ deltas) ∷ [], refl)

  write_scanned-Writes :
      (deltas : Map ℕ Bytes) (hashes : Map ℕ ℕ) (m : Machine (memory_store J) L W)
      → Writes m.store (write_scanned (memory_store J) L deltas hashes m).1.store
  unfolding write_scanned after_events
  write_scanned-Writes deltas hashes m =
      elim (Bool-cases (not m.session.hashes_made && is_nonempty deltas)) [
        | inl nil ↦ rw nil ([], refl)
        | inr made ↦ rw made (save_nonempty-Writes deltas _)
      ]

  crash_if_asked-Writes :
      (s : MemorySnapshotStore) (r : Run (memory_store J) L W (Unit {0}))
      → Writes s r.1.store
      → Writes s (crash_if_asked (memory_store J) L r).1.store
  unfolding crash_if_asked
  crash_if_asked-Writes s (returns _, m) writes =
      elim (Bool-cases m.session.should_crash_on_checkpoint) [
        | inl asked ↦ rw asked writes
        | inr not_asked ↦ rw not_asked writes
      ]
  crash_if_asked-Writes s (fails e, m) writes = writes
  crash_if_asked-Writes s (panics reason, m) writes = writes

  write_memory-Writes :
      (read : Option Bytes) (m : Machine (memory_store J) L W)
      → Writes m.store (write_memory (memory_store J) L read m).1.store
  unfolding write_memory write_deltas after_events
  write_memory-Writes none m = ([], refl)
  write_memory-Writes (some bytes) m =
      crash_if_asked-Writes m.store
        (if is_full_snapshot m.session.meta.version
          then write_snapshot (memory_store J) L bytes m
          else write_deltas (memory_store J) L bytes m)
        (elim (Bool-cases (is_full_snapshot m.session.meta.version)) [
          | inl full ↦ rw full (write_snapshot-Writes bytes m)
          | inr partial ↦ rw partial (write_scanned-Writes _ _ m)
        ])

  after_swap-Writes :
      (m : Machine (memory_store J) L W) (r : Result Bool × InstanceMeta × MemorySnapshotStore)
      → Writes r.2 (after_swap (memory_store J) L m r).1.store
  unfolding after_swap after_events
  after_swap-Writes m (err e, meta, store) = ([], refl)
  after_swap-Writes m (ok false, meta, store) = ([], refl)
  after_swap-Writes m (ok true, meta, store) = elim (Bool-cases (L.size m.memory == 0)) [
    | inl empty ↦ rw empty ([], refl)
    | inr some_bytes ↦ rw some_bytes (write_memory-Writes _ _)
  ]

  -- The metadata that a checkpoint swaps in.
  abbrev given : Machine (memory_store J) L W → InstanceMeta
  given m = record m.session.meta { wasm_hash = m.session.engine_hash }

  -- Of two sessions on the in-memory store that hold metadata of one instance in one version, once
  -- the swap of the first one's checkpoint has been won, a checkpoint of the second panics with
  -- "concurrent_execution_detected", and leaves the store, the guest's memory and the session as
  -- they were, but that the metadata of the session name the engine's module: whatever the first
  -- checkpoint wrote, and whatever the sessions save, log and swap in between.
  pub checkpoint-fenced :
      (m m' : Machine (memory_store J) L W) (events : List Event)
      → m.session.meta.instance_id ≡ m'.session.meta.instance_id
      → m.session.meta.version ≡ m'.session.meta.version
      → (save_metadata (given m) m.store).0 ≡ ok true
      → m'.store ≡ after_events events (checkpoint (memory_store J) L m).1.store
      → checkpoint (memory_store J) L m' ≡ (
        panics "concurrent_execution_detected",
        record m' { session = record m'.session { meta = given m' } },
      )
  unfolding checkpoint after_swap
  checkpoint-fenced m m' events same_id same_version won later =
      let (written, wrote) = after_swap-Writes m (save_metadata (given m) m.store) in
      let store : m'.store ≡ after_events (written ++ events) (save_metadata (given m) m.store).2 =
        later
        ∙ ap (after_events events) wrote
        ∙ sym (after_events-append written events (save_metadata (given m) m.store).2) in
      let refused : save_metadata (given m') m'.store ≡ (ok false, given m', m'.store) = rw store (
        save_metadata_fenced (given m) (given m') (written ++ events) m.store same_id same_version
          won) in
      ap (after_swap (memory_store J) L m') refused
