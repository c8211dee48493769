-- ===== src/Store/Contract.antt =====
-- The contract of a snapshot store: its operations implement those of `View`, and do not fail, but for
-- the swap of metadata that are gone.
-- The engine's theorems take it as a hypothesis, and each store's module proves it.
use durable_wasm.Base.{
  ℕ, ◌+◌, ◌≡◌, Bool, true, false, Bytes, Option, none, some, Map, lookup, nat_eq, ◌==◌,
}
use durable_wasm.Types.{Error, Result, ok, err, InstanceMeta, OplogEntry}
use durable_wasm.Store.{SnapshotStore}
use durable_wasm.Store.View.{
  View, put_snapshot, put_deltas, drop_deltas, push_oplog, cut_oplog, put_meta, put_wasm,
  drop_instance,
}

-- What a write does: it succeeds, and the contents become `after`.
abbrev pub Writes : {S : Type 0} → (S → View) → Result (Unit {0}) × S → View → Type 0
Writes view r after = (r.0 ≡ ok tt) × (view r.1 ≡ after)

-- What a load gives: the value that is there, and an error if there is none.
abbrev pub Loads : Result Bytes → Option Bytes → Type 0
Loads r none = (e : Error) × (r ≡ err e)
Loads r (some b) = r ≡ ok b

-- What SaveMetadata does in each of its outcomes. It may fail, and then changes nothing, where a session
-- has metadata from before and the store has none.
abbrev pub Swaps :
    {S : Type 0} → (S → View) → InstanceMeta → S → Result Bool × InstanceMeta × S → Type 0
Swaps view meta s (err e, meta', s') =
    ((meta.version == 0) ≡ false)
    × ((view s).meta meta.instance_id ≡ none)
    × (meta' ≡ meta)
    × (view s' ≡ view s)
Swaps view meta s (ok false, meta', s') = (meta' ≡ meta) × (view s' ≡ view s)
Swaps view meta s (ok true, meta', s') =
    (meta'.version ≡ meta.version + 1)
    × (meta'.instance_id ≡ meta.instance_id)
    × (view s' ≡ put_meta meta' (view s))

pub record IsReliable (S : SnapshotStore) : Type 0 where
  pub view : S.State → View
  pub save_writes :
      (id b : Bytes) (s : S.State) → Writes view (S.save id b s) (put_snapshot id b (view s))
  pub load_loads : (id : Bytes) (s : S.State) → Loads (S.load id s) ((view s).snapshot id)
  pub delete_writes :
      (id : Bytes) (s : S.State) → Writes view (S.delete id s) (drop_instance id (view s))
  pub save_deltas_writes :
      (id : Bytes) (new : Map ℕ Bytes) (s : S.State)
      → Writes view (S.save_deltas id new s) (put_deltas id new (view s))
  pub load_deltas_loads :
      (id : Bytes) (s : S.State)
      → (ds : Map ℕ Bytes) × (S.load_deltas id s ≡ ok ds)
        × ((i : ℕ) → lookup i ds ≡ (view s).deltas id i)
  pub truncate_deltas_writes :
      (id : Bytes) (s : S.State) → Writes view (S.truncate_deltas id s) (drop_deltas id (view s))
  pub save_oplog_writes :
      (id : Bytes) (entry : OplogEntry) (s : S.State)
      → Writes view (S.save_oplog id entry s) (push_oplog id entry (view s))
  pub load_oplog_loads : (id : Bytes) (s : S.State) → S.load_oplog id s ≡ ok ((view s).oplog id)
  pub truncate_oplog_writes :
      (id : Bytes) (n : ℕ) (s : S.State)
      → Writes view (S.truncate_oplog id n s) (cut_oplog id n (view s))
  pub save_metadata_swaps :
      (meta : InstanceMeta) (s : S.State) → Swaps view meta s (S.save_metadata meta s)
  -- The swap keeps the hash that it is given.
  pub save_metadata_hash :
      (meta : InstanceMeta) (s : S.State) → (S.save_metadata meta s).1.wasm_hash ≡ meta.wasm_hash
  pub load_metadata_loads :
      (id : Bytes) (s : S.State) → S.load_metadata id s ≡ ok ((view s).meta id)
  pub save_wasm_writes :
      (hash b : Bytes) (s : S.State) → Writes view (S.save_wasm hash b s) (put_wasm hash b (view s))
  pub load_wasm_loads :
      (hash : Bytes) (s : S.State) → Loads (S.load_wasm hash s) ((view s).wasm hash)

pub Loads-some :
    {r : Result Bytes} {o : Option Bytes} {b : Bytes} → o ≡ some b → Loads r o → r ≡ ok b
Loads-some {o = none} e loads = cc
Loads-some {o = some c} e loads = cc

-- What a swap that won tells.
pub Swaps-won :
    {S : Type 0} (view : S → View) (meta : InstanceMeta) (s : S)
    (r : Result Bool × InstanceMeta × S)
    → Swaps view meta s r
    → r.0 ≡ ok true
    → (r.1.version ≡ meta.version + 1)
      × (r.1.instance_id ≡ meta.instance_id)
      × (view r.2 ≡ put_meta r.1 (view s))
Swaps-won view meta s (err e, meta', s') h won = absurd (cc won)
Swaps-won view meta s (ok false, meta', s') h won = cc
Swaps-won view meta s (ok true, meta', s') h won = h
