-- ===== src/Tests/ResumedTests.antt =====
-- An engine that executes an instance with a stored page, by a module whose `_start` exits with 0.
use mathlib.Core.Option.{some-injective}
use durable_wasm.Base.{
  true, ℕ, ◌≡◌, ◌∙◌, sym, refl, ap, arith, false, Bytes, Option, some, str, List, [], ◌∷◌, Map,
  length, ◌==◌, nat_eq, bytes_eq, list_dec, lookup, if◌then◌else◌,
}
use durable_wasm.Types.{ok}
use durable_wasm.Store.Memory.{new_memory_snapshot_store, load_metadata}
use durable_wasm.Store.Memory.Refines.{reliable_memory, contents}
use durable_wasm.Session.{Machine}
use durable_wasm.Context.{background}
use durable_wasm.Engine.Execute.{
  CallEnd, returned, stopped, Instance, Wazero, Engine, Call, Host, select_module, new_session,
  call_entrypoint, execute_with_args, fresh_hashes,
}
use durable_wasm.Engine.Execute.Resumed.{launched, execute-resumes}
use durable_wasm.Engine.Restore.Correct.{IsResumable}
use durable_wasm.Engine.Recovery.{IsSynced}
use durable_wasm.Engine.Recovery.Saved.{IsSaved}
use durable_wasm.Engine.Recovery.Checkpointed.{IsImage-self}
use durable_wasm.Engine.Recovery.Resume.{IsFresh, saved-IsResumable}
use durable_wasm.Tests.ByteMemory.{byte_memory, linear_bytes}
use durable_wasm.Tests.Setup.{plain_json, store, id, meta_at, page, length-page}

abbrev exports :
    Bytes → Option (List ℕ → Machine store byte_memory ℕ → CallEnd × Machine store byte_memory ℕ)
exports name =
    if name == str "_start"
    then some (λ params m. (stopped (some 0) (str "exit_code(0)"), m))
    else some (λ params m. (returned params, m))

abbrev inst : Instance store byte_memory ℕ
inst = record { memory = page 0; exported = exports }

abbrev runtime : Wazero store byte_memory ℕ
runtime = record {
  Compiled = Bytes;
  compile_module = λ bytes. ok bytes;
  instantiate_module = λ compiled name w. (ok inst, w);
}

abbrev engine : Engine Bytes
engine = record { compiled = str "wasm"; wasm_hash = str "h1"; compiled_cache = [] }

abbrev call : Call ℕ
call = record {
  ctx = background;
  instance_id = id;
  entrypoint = str "run";
  server_addr = [];
  should_crash = false;
  params = [];
}

-- The store has a first snapshot of the instance.
abbrev host : Host store byte_memory runtime
host = record {
  engine = engine;
  store = record new_memory_snapshot_store {
    snapshots = (id, page 7) ∷ [];
    meta = (id, meta_at 1) ∷ [];
  };
  world = 0;
}

abbrev started : Machine store byte_memory ℕ
started =
    launched store (reliable_memory plain_json) byte_memory linear_bytes runtime call engine
      (some (meta_at 1)) inst host.store 0

started-IsSaved : IsSaved ((reliable_memory plain_json).view host.store) id (page 7)
unfolding reliable_memory contents lookup new_memory_snapshot_store bytes_eq list_dec nat_eq
started-IsSaved = record {
  snapshot = page 7;
  stored = refl;
  image = IsImage-self (page 7) _ 1 (omega arith) (length-page 7) (λ i. refl);
}

started-IsFresh :
    IsFresh store
      (reliable_memory plain_json)
      byte_memory
      linear_bytes
      (fresh_hashes store byte_memory runtime started)
      1
unfolding linear_bytes new_session
started-IsFresh = record {
  no_hashes = refl;
  paged = length-page 0;
  fits = λ snapshot stored.
      let same : snapshot ≡ started-IsSaved.snapshot =
        some-injective _ _ (sym stored ∙ started-IsSaved.stored) in
      omega (
        arith,
        ap length same,
        started-IsSaved.image.snapshot_paged,
        started-IsSaved.image.snapshot_some,
      );
}

started-IsResumable :
    IsResumable store
      (reliable_memory plain_json)
      byte_memory
      linear_bytes
      (fresh_hashes store byte_memory runtime started)
      (page 7)
unfolding linear_bytes new_session
started-IsResumable =
    saved-IsResumable store (reliable_memory plain_json) byte_memory linear_bytes
      (fresh_hashes store byte_memory runtime started) (page 7) 1 1 started-IsFresh (length-page 7)
      (omega arith) (omega arith) started-IsSaved

execute-resumes_example :
    (mem : Bytes) × (hashes : Map ℕ ℕ) × (mem ≡ page 7)
    × IsSynced hashes (page 7)
    × (execute_with_args store byte_memory runtime call host
        ≡ call_entrypoint store byte_memory runtime call engine
            (exports (str "run"))
            (record started {
              memory = mem;
              session = record started.session { page_hashes = hashes; hashes_made = true };
            }))
unfolding linear_bytes load_metadata lookup bytes_eq list_dec nat_eq select_module
execute-resumes_example =
    execute-resumes store (reliable_memory plain_json) byte_memory linear_bytes runtime call host
      (some (meta_at 1)) (str "wasm") engine inst 0 started
      (λ params m. (stopped (some 0) (str "exit_code(0)"), m)) (str "exit_code(0)") (page 7) refl
      refl refl refl refl refl started-IsResumable
