-- ===== src/Types.antt =====
-- types.go: errors, instance metadata and oplog entries.
use Prim.Native.String.{String}
use durable_wasm.Base.{ℕ, Bool, Bytes}

-- An error value: a text, one or two errors that `fmt.Errorf` wraps with `%w`, what a call of a WASM
-- function or of a service failed with, or one of the sentinels. A text stands without the values printed in it.
pub data Error : Type 0 where
  text : String → Error
  wrapped : String → Error → Error
  joined : String → Error → Error → Error
  call_failed : Bytes → Error
  service_failed : Bytes → Error
  wasm_version_mismatch : Error
  concurrent_execution : Error

-- The pair of a value and an error that a function returns.
pub data Result {ℓ} (A : Type ℓ) : Type ℓ where
  ok : A → Result A
  err : Error → Result A

-- InstanceMeta. `bpmn_state` is a slice that may be nil only where it is empty.
pub record InstanceMeta : Type 0 where
  pub instance_id : Bytes
  pub wasm_hash : Bytes
  pub version : ℕ
  pub etag : Bytes
  pub process_id : Bytes
  pub definition_hash : Bytes
  pub business_key : Bytes
  pub bpmn_state : Bytes
  pub completed : Bool

pub record OplogEntry : Type 0 where
  pub call_index : ℕ
  pub api_name : Bytes
  pub request_payload : Bytes
  pub response_payload : Bytes
