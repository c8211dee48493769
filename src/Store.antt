-- ===== src/Store.antt =====
-- types.go: the interface SnapshotStore, and what the engine may expect of an implementation.
pub mod View
pub mod Contract
pub mod Memory
pub mod Codec
pub mod Files
pub mod Objects
pub mod Restrict
use durable_wasm.Base.{ℕ, Bool, Bytes, Option, List, Map}
use durable_wasm.Types.{Result, InstanceMeta, OplogEntry}

-- An operation takes the state of the storage, and gives its result with the state that it leaves.
-- A load leaves the state alone. `save_metadata` also gives the caller's metadata back, since it is
-- passed by pointer and written to.
pub record SnapshotStore : Type 1 where
  pub State : Type 0
  pub save : Bytes → Bytes → State → Result (Unit {0}) × State
  pub load : Bytes → State → Result Bytes
  pub delete : Bytes → State → Result (Unit {0}) × State
  pub save_deltas : Bytes → Map ℕ Bytes → State → Result (Unit {0}) × State
  pub load_deltas : Bytes → State → Result (Map ℕ Bytes)
  pub truncate_deltas : Bytes → State → Result (Unit {0}) × State
  pub save_oplog : Bytes → OplogEntry → State → Result (Unit {0}) × State
  pub load_oplog : Bytes → State → Result (List OplogEntry)
  pub truncate_oplog : Bytes → ℕ → State → Result (Unit {0}) × State
  pub save_metadata : InstanceMeta → State → Result Bool × InstanceMeta × State
  pub load_metadata : Bytes → State → Result (Option InstanceMeta)
  pub save_wasm : Bytes → Bytes → State → Result (Unit {0}) × State
  pub load_wasm : Bytes → State → Result Bytes
  pub update_active_index : Bytes → Bytes → Bool → State → Result (Unit {0}) × State
  pub load_active_index : State → Result Bytes
