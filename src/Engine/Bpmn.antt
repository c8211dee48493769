-- ===== src/Engine/Bpmn.antt =====
-- wasman.go: RunBPMN and CloseInstance, with the sessions and the module instances that stay alive from
-- one call to the next. The runtime knows a module instance by its name.
pub mod Released
pub mod KeptAlive
use durable_wasm.Base.{
  true, ℕ, false, ◌||◌, not, Bytes, str, Option, none, some, List, [], ◌++◌, bytes_eq, nat_eq, Map,
  lookup, insert, delete, if◌then◌else◌,
}
use durable_wasm.Types.{Error, wrapped, call_failed, Result, ok, err, InstanceMeta}
use durable_wasm.Store.{SnapshotStore}
use durable_wasm.Linear.{LinearMemory}
use durable_wasm.Session.{Session, Outcome, returns, Machine}
use durable_wasm.Context.{is_keep_alive, get_api_handler, get_download_handler, get_upload_handler}
use durable_wasm.Engine.Restore.{restore}
use durable_wasm.Engine.Execute.{
  CallEnd, returned, stopped, Instance, Wazero, Engine, exits_well, select_module, meta_of,
}
use durable_wasm.Engine.Exchange.{BpmnCall, Answer, Ended, exchange, after_restore}

module _ {W : Type 0} where
  -- A session that no call has left.
  unfoldable pub new_session : BpmnCall W → Bytes → InstanceMeta → Session W
  new_session call wasm_hash meta = record {
    engine_hash = wasm_hash;
    instance_id = call.instance_id;
    server_addr = call.server_addr;
    should_crash_on_checkpoint = false;
    crashed = false;
    meta = meta;
    page_hashes = [];
    hashes_made = true;
    call_index = 0;
    upload_buffer = [];
    download_eof = false;
    api_handler = get_api_handler call.ctx;
    download_handler = get_download_handler call.ctx;
    upload_handler = get_upload_handler call.ctx;
    download_reader = none;
  }

  -- A session that an earlier call left: its hashes, its call index and its streams stay.
  unfoldable pub reused_session : BpmnCall W → InstanceMeta → Session W → Session W
  reused_session call meta session = record session {
    meta = meta;
    server_addr = call.server_addr;
    api_handler = get_api_handler call.ctx;
    download_handler = get_download_handler call.ctx;
    upload_handler = get_upload_handler call.ctx;
  }

  unfoldable pub session_for : BpmnCall W → Bytes → InstanceMeta → Option (Session W) → Session W
  unfolding new_session reused_session
  session_for call wasm_hash meta none = new_session call wasm_hash meta
  session_for call wasm_hash meta (some session) = reused_session call meta session

-- What a call of RunBPMN finds and leaves: the engine, the store, the world, and the sessions and module
-- instances that are alive, by the ids of instances and by the names of modules.
pub record BpmnHost (S : SnapshotStore) (L : LinearMemory) {W : Type 0} (Z : Wazero S L W)
    : Type 0 where
  pub engine : Engine Z.Compiled
  pub store : S.State
  pub world : W
  pub active_sessions : Map Bytes (Session W)
  pub modules : Map Bytes (Instance S L W)

abbrev pub module_name : Bytes → Bytes
module_name instance_id = str "main-" ++ instance_id

module _ (S : SnapshotStore) (L : LinearMemory) {W : Type 0} (Z : Wazero S L W) where
  abbrev pub Host : Type 0
  Host = BpmnHost S L Z

  -- The session and the module instance are gone.
  unfoldable pub released : Bytes → Host → Host
  released instance_id h = record h {
    active_sessions = delete instance_id h.active_sessions;
    modules = delete (module_name instance_id) h.modules;
  }

  -- What the machine leaves for the next call.
  unfoldable pub kept : Bytes → Instance S L W → Machine S L W → Host → Host
  kept instance_id inst m h = record h {
    store = m.store;
    world = m.world;
    active_sessions = insert instance_id m.session h.active_sessions;
    modules = insert (module_name instance_id) (record inst { memory = m.memory }) h.modules;
  }

  -- The deferred function.
  unfoldable pub cleanup : BpmnCall W → Instance S L W → Ended S L W → Host → Outcome Answer × Host
  unfolding released kept
  cleanup call inst end h =
      let h' = kept call.instance_id inst end.machine h in
      (
        end.outcome,
        if not (is_keep_alive call.ctx) || (end.err_set || end.machine.session.crashed)
            then released call.instance_id h'
            else h',
      )

  abbrev start_failed : BpmnCall W → Bytes → Machine S L W → Host → Outcome Answer × Host
  start_failed call reason m h = (
    returns (false, err (wrapped "_start failed" (call_failed reason))),
    released call.instance_id (record h { store = m.store; world = m.world }),
  )

  restored : BpmnCall W → Instance S L W → Machine S L W → Host → Outcome Answer × Host
  unfolding cleanup after_restore
  restored call inst m h = cleanup call inst (after_restore S L call inst (restore S L m)) h

  after_start : BpmnCall W → Instance S L W → CallEnd × Machine S L W → Host → Outcome Answer × Host
  unfolding restored released
  after_start call inst (returned results, m) h = restored call inst m h
  after_start call inst (stopped exit reason, m) h =
      if exits_well exit then restored call inst m h else start_failed call reason m h

  start :
      BpmnCall W
      → Instance S L W
      → Option (List ℕ → Machine S L W → CallEnd × Machine S L W)
      → Machine S L W
      → Host
      → Outcome Answer × Host
  unfolding after_start
  start call inst none m h = restored call inst m h
  start call inst (some start_func) m h = after_start call inst (start_func [] m) h

  instantiated : BpmnCall W → Session W → Result (Instance S L W) × W → Host → Outcome Answer × Host
  unfolding start
  instantiated call session (err failure, w) h = (
    returns (false, err (wrapped "failed to instantiate WASM" failure)),
    record h { world = w; active_sessions = delete call.instance_id h.active_sessions },
  )
  instantiated call session (ok inst, w) h =
      start call inst (inst.exported (str "_start"))
        (record { session = session; store = h.store; memory = inst.memory; world = w }) h

  -- A module instance that is alive is neither started nor restored again.
  find_instance :
      BpmnCall W → Z.Compiled → Session W → Option (Instance S L W) → Host → Outcome Answer × Host
  unfolding instantiated exchange
  find_instance call built session none h =
      instantiated call session (Z.instantiate_module built (module_name call.instance_id) h.world)
        h
  find_instance call built session (some inst) h =
      cleanup call inst
        (exchange S L call inst
          (record { session = session; store = h.store; memory = inst.memory; world = h.world }))
        h

  selected :
      BpmnCall W
      → Option InstanceMeta
      → Result Z.Compiled × Engine Z.Compiled
      → Host
      → Outcome Answer × Host
  unfolding find_instance session_for meta_of
  selected call meta (err failure, e) h = (returns (false, err failure), record h { engine = e })
  selected call meta (ok built, e) h =
      let session =
        session_for call e.wasm_hash (meta_of S L Z call.instance_id e meta)
          (lookup call.instance_id h.active_sessions) in
      find_instance call built session (lookup (module_name call.instance_id) h.modules) (record h {
        engine = e;
        active_sessions = insert call.instance_id session h.active_sessions;
      })

  loaded : BpmnCall W → Result (Option InstanceMeta) → Host → Outcome Answer × Host
  unfolding selected select_module
  loaded call (err failure) h =
      (returns (false, err (wrapped "failed to load metadata" failure)), h)
  loaded call (ok meta) h = selected call meta (select_module S L Z meta h.engine h.store) h

  unfoldable pub run_bpmn : BpmnCall W → Host → Outcome Answer × Host
  unfolding loaded
  run_bpmn call h = loaded call (S.load_metadata call.instance_id h.store) h

  -- `closing` is what closing a module instance gives.
  unfoldable pub close_instance : Option Error → Bytes → Host → Option Error × Host
  unfolding released
  close_instance closing instance_id h =
      let found = lookup (module_name instance_id) h.modules in
      (elim found [ none ↦ none | some inst ↦ closing ], released instance_id h)
