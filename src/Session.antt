-- ===== src/Session.antt =====
-- types.go: Session, with the state of the storage, the guest's memory and the outside world that
-- its host functions act on.
use durable_wasm.Base.{ℕ, Bool, Bytes, Option, Map}
use durable_wasm.Types.{Error, Result, InstanceMeta}
use durable_wasm.Store.{SnapshotStore}
use durable_wasm.Linear.{LinearMemory}
use Prim.Native.String.{String}

-- `W` is what the host's own handlers act on. `engine_hash` is the engine's `wasmHash`, and
-- `download_reader` what the reader has left; a nil upload buffer is an empty one.
pub record Session (W : Type 0) : Type 0 where
  pub engine_hash : Bytes
  pub instance_id : Bytes
  pub server_addr : Bytes
  pub should_crash_on_checkpoint : Bool
  pub crashed : Bool
  pub meta : InstanceMeta
  -- pageHashes, and whether it has been made: it is empty where it is nil.
  pub page_hashes : Map ℕ ℕ
  pub hashes_made : Bool
  pub call_index : ℕ
  pub upload_buffer : Bytes
  pub download_eof : Bool
  pub api_handler : Option (Bytes → Bytes → W → Result (Option Bytes) × W)
  pub download_handler : Option (W → Result Bytes × W)
  pub upload_handler : Option (Bytes → W → Option Error × W)
  pub download_reader : Option Bytes

-- How a call ends: a value, an error value, or a panic with a text.
pub data Outcome {ℓ} (A : Type ℓ) : Type ℓ where
  returns : A → Outcome A
  fails : Error → Outcome A
  panics : String → Outcome A

pub record Machine (S : SnapshotStore) (L : LinearMemory) (W : Type 0) : Type 0 where
  pub session : Session W
  pub store : S.State
  pub memory : L.Mem
  pub world : W

-- The end of a call, and the machine that it leaves.
abbrev pub Run {ℓ} : SnapshotStore → LinearMemory → Type 0 → Type ℓ → Type ℓ
Run S L W A = Outcome A × Machine S L W
