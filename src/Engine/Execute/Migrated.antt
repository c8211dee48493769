-- ===== src/Engine/Execute/Migrated.antt =====
-- The version of an instance after a checkpoint: the handler writes the hash of the engine's own
-- module to the metadata, whichever module the instance runs.
use durable_wasm.Base.{
  ◌≤◌, ◌≡◌, ◌∙◌, refl, ap, true, Bool-cases, inl, inr, Bytes, Option, some, ==-refl, bytes_eq,
  length, ltb,
}
use durable_wasm.Types.{ok, InstanceMeta}
use durable_wasm.Store.{SnapshotStore}
use durable_wasm.Store.View.{View, put_meta}
use durable_wasm.Store.Contract.{IsReliable, Swaps-won}
use durable_wasm.Linear.{LinearMemory, IsLinear}
use durable_wasm.Session.{Machine}
use durable_wasm.Engine.Checkpoint.{checkpoint, is_full_snapshot}
use durable_wasm.Engine.Checkpoint.Steps.{
  swap, after, written, full_view, checkpoint-won, write_snapshot_lem, write_deltas_lem,
  store-write_deltas,
}
use durable_wasm.Engine.Checkpoint.Durable.{store-crash_if_asked}
use durable_wasm.Engine.Execute.{Wazero, Engine, select_module}

module _ (S : SnapshotStore) (rel : IsReliable S) (L : LinearMemory) (lin : IsLinear L)
    {W : Type 0} where
  open rel use {view}
  open lin use {contents}

  meta-full_view :
      (m : Machine S L W) (bytes : Bytes)
      → (full_view S rel L lin m bytes).meta ≡ (view m.store).meta
  meta-full_view m bytes = elim (Bool-cases (ltb 1 m.session.meta.version)) [
    | inl later ↦ rw later refl
    | inr first ↦ rw first refl
  ]

  -- The writes of a checkpoint keep the metadata.
  meta-written :
      (m : Machine S L W) → (view (written S rel L lin m).1.store).meta ≡ (view m.store).meta
  meta-written m = elim (Bool-cases (is_full_snapshot m.session.meta.version)) [
    | inl full ↦
        let (store, result, seen) = write_snapshot_lem S rel L lin m (contents m.memory) in
        rw (full, result) (ap (λ (v : View). v.meta) seen ∙ meta-full_view m (contents m.memory))
    | inr partial ↦ elim (Bool-cases m.session.hashes_made) [
      | inl made ↦
          let (store, result, kept, new, same) =
            write_deltas_lem S rel L lin m (contents m.memory) made in
          rw (partial, result) same
      | inr nil ↦ rw partial (
          ap (λ (store : S.State). (view store).meta)
            (store-write_deltas S rel L lin m (contents m.memory) nil))
    ]
  ]

  -- After a checkpoint that wins its swap, with a memory that is not empty, and whatever module the
  -- instance was pinned to, the metadata in the store select the engine's own module for the next
  -- execution by the same engine.
  pub checkpoint-migrates :
      (Z : Wazero S L W) (e : Engine Z.Compiled) (m : Machine S L W)
      → m.session.engine_hash ≡ e.wasm_hash
      → m.session.meta.instance_id ≡ m.session.instance_id
      → (swap S rel L lin m).0 ≡ ok true
      → 1 ≤ length (contents m.memory)
      → let store = (checkpoint S L m).1.store in
        (meta : InstanceMeta) × (S.load_metadata m.session.instance_id store ≡ ok (some meta))
        × (select_module S L Z (some meta) e store ≡ (ok e.compiled, e))
  unfolding select_module
  checkpoint-migrates Z e m own id won some_bytes =
      let given = record m.session.meta { wasm_hash = m.session.engine_hash } in
      let (next, same_id, seen) =
        Swaps-won view given m.store (swap S rel L lin m) (rel.save_metadata_swaps given m.store)
          won in
      let store = (checkpoint S L m).1.store in
      let meta = (swap S rel L lin m).1 in
      let at_id : meta.instance_id ≡ m.session.instance_id = same_id ∙ id in
      let hash : meta.wasm_hash ≡ e.wasm_hash = rel.save_metadata_hash given m.store ∙ own in
      let stored : (view store).meta ≡ (put_meta meta (view m.store)).meta =
        rw (checkpoint-won S rel L lin m won some_bytes, store-crash_if_asked S rel L lin)
          (meta-written (after S rel L lin m) ∙ ap (λ (v : View). v.meta) seen) in
      (
        meta,
        rel.load_metadata_loads m.session.instance_id store
            ∙ ap ok (
                ap (λ (f : Bytes → Option InstanceMeta). f m.session.instance_id) stored
                ∙ rw (at_id, ==-refl m.session.instance_id) refl),
        rw (hash, ==-refl e.wasm_hash) refl,
      )
