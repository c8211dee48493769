-- ===== src/Store/Memory/Refines.antt =====
-- MemorySnapshotStore meets the contract.
use durable_wasm.Base.{
  ◌≡◌, ℕ, refl, arith, Bytes, Option, none, some, or_else, Map, lookup, lookup-insert,
  lookup-delete, lookup-merge, merge, [], ◌∷◌, ◌++◌, Bool-cases, inl, inr, bytes_eq, nat_eq,
}
use durable_wasm.Types.{InstanceMeta, OplogEntry}
use durable_wasm.Store.View.{
  View, View-ext, entries_after, put_snapshot, put_deltas, drop_deltas, push_oplog, cut_oplog,
  put_wasm, drop_instance,
}
use durable_wasm.Store.Contract.{Writes, Loads, Swaps, IsReliable}
use durable_wasm.Store.Memory.{
  MemorySnapshotStore, IndexJson, or_nil, memory_store, save, load, delete_instance, save_deltas,
  load_deltas, truncate_deltas, save_oplog, load_oplog, truncate_oplog, save_metadata, may_write,
  load_metadata, save_wasm, load_wasm, found,
}

unfoldable pub contents : MemorySnapshotStore → View
contents s = record {
  snapshot = λ id. lookup id s.snapshots;
  deltas = λ id i. lookup i (or_nil (lookup id s.deltas));
  oplog = λ id. or_nil (lookup id s.oplogs);
  meta = λ id. lookup id s.meta;
  wasm = λ hash. lookup hash s.wasm;
}

pub seen_load : (o : Option Bytes) → Loads (found o) o
seen_load none = (_, refl)
seen_load (some b) = refl

module _ (id : Bytes) (s : MemorySnapshotStore) where
  pub save_seen : (b : Bytes) → Writes contents (save id b s) (put_snapshot id b (contents s))
  unfolding save contents
  save_seen b = (
    refl,
    View-ext _ _ (λ j. lookup-insert j id b s.snapshots) (λ _ _. refl) (λ _. refl) (λ _. refl)
        (λ _. refl),
  )

  pub delete_seen : Writes contents (delete_instance id s) (drop_instance id (contents s))
  unfolding delete_instance contents lookup
  delete_seen = (
    refl,
    View-ext _ _ (λ j. lookup-delete j id s.snapshots)
        (λ j i. ground (arith, lookup-delete j id s.deltas))
        (λ j. ground (arith, lookup-delete j id s.oplogs)) (λ j. lookup-delete j id s.meta)
        (λ _. refl),
  )

  pub save_deltas_seen :
      (new : Map ℕ Bytes) → Writes contents (save_deltas id new s) (put_deltas id new (contents s))
  unfolding save_deltas contents or_else lookup
  save_deltas_seen new = (
    refl,
    View-ext _ _ (λ _. refl)
        (λ j i. ground (
          arith,
          lookup-insert j id (merge new (or_nil (lookup id s.deltas))) s.deltas,
          lookup-merge i new (or_nil (lookup id s.deltas)),
        ))
        (λ _. refl) (λ _. refl) (λ _. refl),
  )

  pub truncate_deltas_seen : Writes contents (truncate_deltas id s) (drop_deltas id (contents s))
  unfolding truncate_deltas contents lookup
  truncate_deltas_seen = (
    refl,
    View-ext _ _ (λ _. refl) (λ j i. ground (arith, lookup-delete j id s.deltas)) (λ _. refl)
        (λ _. refl) (λ _. refl),
  )

  pub save_oplog_seen :
      (entry : OplogEntry)
      → Writes contents (save_oplog id entry s) (push_oplog id entry (contents s))
  unfolding save_oplog contents
  save_oplog_seen entry = (
    refl,
    View-ext _ _ (λ _. refl) (λ _ _. refl)
        (λ j.
          ground (arith, lookup-insert j id (or_nil (lookup id s.oplogs) ++ (entry ∷ [])) s.oplogs))
        (λ _. refl) (λ _. refl),
  )

  pub truncate_oplog_seen :
      (n : ℕ) → Writes contents (truncate_oplog id n s) (cut_oplog id n (contents s))
  unfolding truncate_oplog contents
  truncate_oplog_seen n = (
    refl,
    View-ext _ _ (λ _. refl) (λ _ _. refl)
        (λ j.
          ground
            (arith, lookup-insert j id (entries_after n (or_nil (lookup id s.oplogs))) s.oplogs))
        (λ _. refl) (λ _. refl),
  )

  pub save_wasm_seen : (b : Bytes) → Writes contents (save_wasm id b s) (put_wasm id b (contents s))
  unfolding save_wasm contents
  save_wasm_seen b = (
    refl,
    View-ext _ _ (λ _. refl) (λ _ _. refl) (λ _. refl) (λ _. refl)
        (λ j. lookup-insert j id b s.wasm),
  )

pub save_metadata_seen :
    (meta : InstanceMeta) (s : MemorySnapshotStore) → Swaps contents meta s (save_metadata meta s)
unfolding save_metadata contents
save_metadata_seen meta s = elim (Bool-cases (may_write (lookup meta.instance_id s.meta) meta)) [
  | inl won ↦ rw won (
    refl,
    refl,
    View-ext _ _ (λ _. refl) (λ _ _. refl) (λ _. refl)
        (λ j. lookup-insert j meta.instance_id _ s.meta) (λ _. refl),
  )
  | inr lost ↦ rw lost (refl, refl)
]

pub save_metadata-hash :
    (meta : InstanceMeta) (s : MemorySnapshotStore)
    → (save_metadata meta s).1.wasm_hash ≡ meta.wasm_hash
unfolding save_metadata
save_metadata-hash meta s = elim (Bool-cases (may_write (lookup meta.instance_id s.meta) meta)) [
  | inl won ↦ rw won refl
  | inr lost ↦ rw lost refl
]

unfoldable pub reliable_memory : (J : IndexJson) → IsReliable (memory_store J)
unfolding load load_deltas load_oplog load_metadata load_wasm contents
reliable_memory J = record {
  view = contents;
  save_writes = λ id b s. save_seen id s b;
  load_loads = λ id s. seen_load (lookup id s.snapshots);
  delete_writes = delete_seen;
  save_deltas_writes = λ id new s. save_deltas_seen id s new;
  load_deltas_loads = λ id s. (_, refl, λ i. refl);
  truncate_deltas_writes = truncate_deltas_seen;
  save_oplog_writes = λ id entry s. save_oplog_seen id s entry;
  load_oplog_loads = λ id s. refl;
  truncate_oplog_writes = λ id n s. truncate_oplog_seen id s n;
  save_metadata_swaps = save_metadata_seen;
  save_metadata_hash = save_metadata-hash;
  load_metadata_loads = λ id s. refl;
  save_wasm_writes = λ hash b s. save_wasm_seen hash s b;
  load_wasm_loads = λ hash s. seen_load (lookup hash s.wasm);
}
