-- ===== src/Engine/Recovery/Saved.antt =====
-- What is stored of an instance stands for a memory.
use durable_wasm.Base.{◌≡◌, Bytes, some}
use durable_wasm.Store.View.{View}
use durable_wasm.Engine.Recovery.{IsImage}

-- The stored snapshot and deltas of the instance stand for the memory `bytes`.
pub record IsSaved (v : View) (id : Bytes) (bytes : Bytes) : Type 0 where
  pub snapshot : Bytes
  pub stored : v.snapshot id ≡ some snapshot
  pub image : IsImage snapshot (v.deltas id) bytes
