-- ===== src/Engine/Execute.antt =====
-- wasman.go: ExecuteWithArgs. wazero compiles and instantiates; what a guest does when it is called is
-- a function on the machine, which runs the host functions of this library.
pub mod Versions
pub mod Migrated
pub mod Resumed
pub mod Concluded
pub mod Writes
use durable_wasm.Base.{
  contains, ℕ, zero, suc, Bool, true, false, ◌&&◌, ◌||◌, not, Bytes, str, Option, none, some, List,
  [], ◌∷◌, ◌++◌, ◌==◌, bytes_eq, nat_eq, Map, lookup, insert, if◌then◌else◌,
}
use durable_wasm.Types.{
  Error, text, wrapped, joined, call_failed, wasm_version_mismatch, concurrent_execution, Result,
  ok, err, InstanceMeta,
}
use durable_wasm.Store.{SnapshotStore}
use durable_wasm.Linear.{LinearMemory}
use durable_wasm.Session.{Session, Outcome, returns, fails, panics, Machine, Run}
use durable_wasm.Context.{Context, get_api_handler, get_download_handler, get_upload_handler}
use durable_wasm.Engine.Restore.{restore}

-- How a call of an exported function ends: with its results, or with an error. The code finds in
-- it a `sys.ExitError` with its exit code, or none, and reads its text.
pub data CallEnd : Type 0 where
  returned : List ℕ → CallEnd
  stopped : Option ℕ → Bytes → CallEnd

-- An instance of a module: its memory, and the functions that it exports.
pub record Instance (S : SnapshotStore) (L : LinearMemory) (W : Type 0) : Type 0 where
  pub memory : L.Mem
  pub exported : Bytes → Option (List ℕ → Machine S L W → CallEnd × Machine S L W)

-- The part of wazero's runtime that the engine calls. An instance takes a name, "main-" and the id of
-- the instance.
pub record Wazero (S : SnapshotStore) (L : LinearMemory) (W : Type 0) : Type 1 where
  pub Compiled : Type 0
  pub compile_module : Bytes → Result Compiled
  pub instantiate_module : Compiled → Bytes → W → Result (Instance S L W) × W

-- The engine: the module that it was made for, the hash of that module, and the cache of modules.
pub record Engine (Compiled : Type 0) : Type 0 where
  pub compiled : Compiled
  pub wasm_hash : Bytes
  pub compiled_cache : Map Bytes Compiled

-- The arguments of ExecuteWithArgs.
pub record Call (W : Type 0) : Type 0 where
  pub ctx : Context W
  pub instance_id : Bytes
  pub entrypoint : Bytes
  pub server_addr : Bytes
  pub should_crash : Bool
  pub params : List ℕ

-- `errors.As(err, &exitErr) && exitErr.ExitCode() == 0`
abbrev pub exits_well : Option ℕ → Bool
exits_well none = false
exits_well (some code) = code == 0

module _ (S : SnapshotStore) (L : LinearMemory) {W : Type 0} (Z : Wazero S L W) where
  add_compiled :
      Bytes → Engine Z.Compiled → Result Z.Compiled → Result Z.Compiled × Engine Z.Compiled
  add_compiled hash e (err failure) =
      (err (wrapped "failed to compile historical WASM module" failure), e)
  add_compiled hash e (ok built) =
      (ok built, record e { compiled_cache = insert hash built e.compiled_cache })

  -- Under the lock the cache is looked at again: another execution may have filled it.
  compile_loaded : Bytes → Bytes → Engine Z.Compiled → Result Z.Compiled × Engine Z.Compiled
  unfolding add_compiled
  compile_loaded hash bytes e = elim (lookup hash e.compiled_cache) [
    | some built ↦ (ok built, e)
    | none ↦ add_compiled hash e (Z.compile_module bytes)
  ]

  load_module : Bytes → Engine Z.Compiled → Result Bytes → Result Z.Compiled × Engine Z.Compiled
  unfolding compile_loaded
  load_module hash e (err failure) = (
    err (joined "failed to load required WASM version from registry" failure wasm_version_mismatch),
    e,
  )
  load_module hash e (ok bytes) = compile_loaded hash bytes e

  find_module : Bytes → Engine Z.Compiled → S.State → Result Z.Compiled × Engine Z.Compiled
  unfolding load_module
  find_module hash e store = elim (lookup hash e.compiled_cache) [
    | some built ↦ (ok built, e)
    | none ↦ load_module hash e (S.load_wasm hash store)
  ]

  -- The module that an instance runs: that of its metadata, or the engine's own for a new instance.
  unfoldable pub select_module :
      Option InstanceMeta → Engine Z.Compiled → S.State → Result Z.Compiled × Engine Z.Compiled
  unfolding find_module
  select_module none e store = (ok e.compiled, e)
  select_module (some meta) e store =
      if meta.wasm_hash == e.wasm_hash
      then (ok e.compiled, e)
      else find_module meta.wasm_hash e store

  -- The metadata of an instance that the store does not know.
  unfoldable pub meta_of : Bytes → Engine Z.Compiled → Option InstanceMeta → InstanceMeta
  meta_of instance_id e (some meta) = meta
  meta_of instance_id e none = record {
    instance_id = instance_id;
    wasm_hash = e.wasm_hash;
    version = 0;
    etag = [];
    process_id = [];
    definition_hash = [];
    business_key = [];
    bpmn_state = [];
    completed = false;
  }

  -- pageHashes is nil until `_start` has ended.
  unfoldable pub new_session : Call W → Engine Z.Compiled → InstanceMeta → Session W
  new_session call e meta = record {
    engine_hash = e.wasm_hash;
    instance_id = call.instance_id;
    server_addr = call.server_addr;
    should_crash_on_checkpoint = call.should_crash;
    crashed = false;
    meta = meta;
    page_hashes = [];
    hashes_made = false;
    call_index = 0;
    upload_buffer = [];
    download_eof = false;
    api_handler = get_api_handler call.ctx;
    download_handler = get_download_handler call.ctx;
    upload_handler = get_upload_handler call.ctx;
    download_reader = none;
  }

  -- What an execution leaves: the engine, the store and the world.
  pub record Host : Type 0 where
    pub engine : Engine Z.Compiled
    pub store : S.State
    pub world : W

  -- Whether a simulated crash occurred, with an error or none; or a panic of the engine itself.
  abbrev pub Executed : Type 0
  Executed = Outcome (Bool × Option Error) × Host

  abbrev leave : Engine Z.Compiled → Machine S L W → Host
  leave e m = record { engine = e; store = m.store; world = m.world }

  -- The result of the entrypoint.
  unfoldable pub conclude : Session W → Option Error → CallEnd → Bool × Option Error
  conclude session (some cancelled) end = (false, some cancelled)
  conclude session none (returned results) = (false, none)
  conclude session none (stopped exit reason) =
      if exits_well exit
      then (false, none)
      else if session.crashed
      then (true, some (call_failed reason))
      else if contains reason (str "concurrent_execution_detected")
      then (false, some concurrent_execution)
      else (false, some (call_failed reason))

  unfoldable pub call_entrypoint :
      Call W
      → Engine Z.Compiled
      → Option (List ℕ → Machine S L W → CallEnd × Machine S L W)
      → Machine S L W
      → Executed
  call_entrypoint call e none m =
      (returns (false, some (text "entrypoint function not found")), leave e m)
  call_entrypoint call e (some run_func) m =
      let called = run_func call.params m in
      (returns (conclude called.1.session (call.ctx.err called.1.world) called.0), leave e called.1)

  -- After the restoration of the memory.
  after_restore : Call W → Engine Z.Compiled → Instance S L W → Run S L W (Unit {0}) → Executed
  unfolding call_entrypoint
  after_restore call e inst (fails failure, m) = (returns (false, some failure), leave e m)
  after_restore call e inst (panics reason, m) = (panics reason, leave e m)
  after_restore call e inst (returns _, m) =
      call_entrypoint call e (inst.exported call.entrypoint) m

  abbrev pub fresh_hashes : Machine S L W → Machine S L W
  fresh_hashes m = record m { session = record m.session { page_hashes = []; hashes_made = true } }

  -- The result of `_start`: exit code 0 is what the start of a guest ends with.
  after_start : Call W → Engine Z.Compiled → Instance S L W → CallEnd × Machine S L W → Executed
  unfolding after_restore
  after_start call e inst (returned results, m) =
      after_restore call e inst (restore S L (fresh_hashes m))
  after_start call e inst (stopped exit reason, m) =
      if exits_well exit
      then after_restore call e inst (restore S L (fresh_hashes m))
      else (returns (false, some (wrapped "_start failed" (call_failed reason))), leave e m)

  start : Call W → Engine Z.Compiled → Instance S L W → Machine S L W → Executed
  unfolding after_start
  start call e inst m =
      if call.entrypoint == str "_start"
      then after_restore call e inst (restore S L (fresh_hashes m))
      else elim (inst.exported (str "_start")) [
        | none ↦ after_restore call e inst (restore S L (fresh_hashes m))
        | some start_func ↦ after_start call e inst (start_func [] m)
      ]

  instantiated :
      Call W → Engine Z.Compiled → InstanceMeta → S.State → Result (Instance S L W) × W → Executed
  unfolding start new_session
  instantiated call e meta store (err failure, w) = (
    returns (false, some (wrapped "failed to instantiate WASM" failure)),
    record { engine = e; store = store; world = w },
  )
  instantiated call e meta store (ok inst, w) =
      start call e inst (record {
        session = new_session call e meta;
        store = store;
        memory = inst.memory;
        world = w;
      })

  selected :
      Call W → Option InstanceMeta → Result Z.Compiled × Engine Z.Compiled → S.State → W → Executed
  unfolding instantiated meta_of
  selected call meta (err failure, e) store w =
      (returns (false, some failure), record { engine = e; store = store; world = w })
  selected call meta (ok built, e) store w =
      instantiated call e (meta_of call.instance_id e meta) store
        (Z.instantiate_module built (str "main-" ++ call.instance_id) w)

  loaded : Call W → Result (Option InstanceMeta) → Host → Executed
  unfolding selected select_module
  loaded call (err failure) h =
      (returns (false, some (wrapped "failed to load metadata" failure)), h)
  loaded call (ok meta) h = selected call meta (select_module meta h.engine h.store) h.store h.world

  unfoldable pub execute_with_args : Call W → Host → Executed
  unfolding loaded
  execute_with_args call h = loaded call (S.load_metadata call.instance_id h.store) h
