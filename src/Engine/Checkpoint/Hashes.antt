-- ===== src/Engine/Checkpoint/Hashes.antt =====
-- What a checkpoint does to the session: the metadata, the page hashes and the crash flag.
use durable_wasm.Base.{ℕ, ◌≤◌, ◌≡◌, arith, true, false, Bytes, nat_eq, length, if◌then◌else◌}
use durable_wasm.Types.{ok}
use durable_wasm.Store.{SnapshotStore}
use durable_wasm.Store.Contract.{IsReliable}
use durable_wasm.Linear.{LinearMemory, IsLinear}
use durable_wasm.Session.{Outcome, returns, panics, Machine}
use durable_wasm.Engine.Checkpoint.{is_full_snapshot, crash_if_asked, checkpoint}
use durable_wasm.Engine.Checkpoint.Steps.{
  swap, after, checkpoint-won, write_snapshot_lem, write_deltas_lem, scanned,
}
use durable_wasm.Engine.Recovery.{IsSynced}
use durable_wasm.Engine.Recovery.Checkpointed.{fresh-IsSynced}

module _ (S : SnapshotStore) (rel : IsReliable S) (L : LinearMemory) (lin : IsLinear L) {W : Type 0}
    (m : Machine S L W) (won : (swap S rel L lin m).0 ≡ ok true)
    (some_bytes : 1 ≤ length (lin.contents m.memory)) (made : m.session.hashes_made ≡ true) where
  open lin use {contents}

  version_after : ℕ
  version_after = (after S rel L lin m).session.meta.version

  -- The end of a checkpoint that won its swap.
  abbrev ending : Outcome (Unit {0})
  ending =
      if m.session.should_crash_on_checkpoint then panics "simulated_host_crash" else returns tt

  -- A checkpoint that wins its swap, with a memory that is not empty, in a session whose page hashes
  -- are not a nil map, returns, or panics with the simulated crash if that is asked for. It leaves
  -- the guest's memory and the instance's id alone and keeps the metadata of the swap; the page
  -- hashes are the old ones after a full snapshot, and those of the scan after an incremental one.
  pub checkpoint-completed :
      let r = checkpoint S L m in
      (r.0 ≡ ending)
      × (r.1.memory ≡ m.memory)
      × (r.1.session.instance_id ≡ m.session.instance_id)
      × (r.1.session.meta ≡ (swap S rel L lin m).1)
      × (r.1.session.hashes_made ≡ m.session.hashes_made)
      × (r.1.session.page_hashes ≡ (
          if is_full_snapshot (swap S rel L lin m).1.version
          then m.session.page_hashes
          else (scanned S rel L lin m (contents m.memory)).1))
  unfolding crash_if_asked
  checkpoint-completed =
      let (full_store, full, _) =
        write_snapshot_lem S rel L lin (after S rel L lin m) (contents m.memory) in
      let (delta_store, partial, _, _, _) =
        write_deltas_lem S rel L lin (after S rel L lin m) (contents m.memory) made in
      rw (checkpoint-won S rel L lin m won some_bytes) (ground (arith, full, partial))

  -- After an incremental checkpoint that wins its swap the page hashes agree with the memory, if it
  -- is not empty and they, which are not a nil map, agreed with an earlier memory that was no
  -- larger.
  pub checkpoint-IsSynced :
      (old : Bytes)
      → is_full_snapshot (swap S rel L lin m).1.version ≡ false
      → IsSynced m.session.page_hashes old
      → length old ≤ length (contents m.memory)
      → IsSynced (checkpoint S L m).1.session.page_hashes (contents m.memory)
  checkpoint-IsSynced old partial synced grows =
      let (_, _, _, _, _, hashes) = checkpoint-completed in
      rw (hashes, partial)
        (fresh-IsSynced m.session.page_hashes (contents m.memory) old synced grows)
