-- ===== src/Tests/WritesTests.antt =====
-- An execution of a guest that logs a call each time it is called.
use mathlib.Core.Path.{subst}
use mathlib.Core.Option.{some-injective}
use durable_wasm.Base.{ℕ, ◌≡◌, ◌∙◌, refl, ap, false, Bytes, some, str, List, [], ◌∷◌, Map}
use durable_wasm.Types.{Result, ok, err, OplogEntry}
use durable_wasm.Store.Memory.{MemorySnapshotStore, new_memory_snapshot_store, save_oplog}
use durable_wasm.Session.{Machine}
use durable_wasm.Context.{background}
use durable_wasm.Engine.Execute.{CallEnd, returned, Instance, Wazero, Call, Host, execute_with_args}
use durable_wasm.Engine.Execute.Writes.{GuestsLeave, execute-unchanged}
use durable_wasm.Tests.ByteMemory.{byte_memory}
use durable_wasm.Tests.Setup.{store, id, meta_at}

abbrev entry : OplogEntry
entry = record {
  call_index = 1;
  api_name = str "pay";
  request_payload = [];
  response_payload = str "done";
}

abbrev log_call : List ℕ → Machine store byte_memory ℕ → CallEnd × Machine store byte_memory ℕ
log_call params m = (returned params, record m { store = (save_oplog id entry m.store).1 })

abbrev logger : Instance store byte_memory ℕ
logger = record { memory = []; exported = λ name. some log_call }

abbrev runtime : Wazero store byte_memory ℕ
runtime = record {
  Compiled = Bytes;
  compile_module = λ bytes. ok bytes;
  instantiate_module = λ compiled name w. (ok logger, w);
}

-- The snapshot of another instance.
abbrev others : Map Bytes Bytes
others = (str "other", str "memory") ∷ []

abbrev snapshots_of : MemorySnapshotStore → Map Bytes Bytes
snapshots_of s = s.snapshots

log_call-snapshots :
    (f : List ℕ → Machine store byte_memory ℕ → CallEnd × Machine store byte_memory ℕ)
    (params : List ℕ) (m : Machine store byte_memory ℕ)
    → some log_call ≡ some f
    → snapshots_of (f params m).1.store ≡ snapshots_of m.store
unfolding save_oplog
log_call-snapshots f params m found =
    subst
      (λ (g : List ℕ → Machine store byte_memory ℕ → CallEnd × Machine store byte_memory ℕ).
        snapshots_of (g params m).1.store ≡ snapshots_of m.store)
      (some-injective log_call f found) refl

instance_or :
    Instance store byte_memory ℕ
    → Result (Instance store byte_memory ℕ)
    → Instance store byte_memory ℕ
instance_or other (ok inst) = inst
instance_or other (err e) = other

abbrev call : Call ℕ
call = record {
  ctx = background;
  instance_id = id;
  entrypoint = str "run";
  server_addr = [];
  should_crash = false;
  params = [];
}

runtime-GuestsLeave : GuestsLeave store byte_memory snapshots_of runtime
unfolding instance_or
runtime-GuestsLeave built instance_name name w w' inst f params m made found =
    let same : logger ≡ inst =
      ap (λ (r : Result (Instance store byte_memory ℕ) × ℕ). instance_or logger r.0) made in
    log_call-snapshots f params m
      (ap (λ (i : Instance store byte_memory ℕ). i.exported name) same ∙ found)

abbrev host : Host store byte_memory runtime
host = record {
  engine = record { compiled = str "wasm"; wasm_hash = str "h1"; compiled_cache = [] };
  store = record new_memory_snapshot_store { snapshots = others; meta = (id, meta_at 1) ∷ [] };
  world = 0;
}

execute-unchanged_example :
    snapshots_of (execute_with_args store byte_memory runtime call host).1.store ≡ others
execute-unchanged_example =
    execute-unchanged store byte_memory snapshots_of runtime call host runtime-GuestsLeave
