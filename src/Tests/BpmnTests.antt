-- ===== src/Tests/BpmnTests.antt =====
-- A guest that answers RunBPMN with the first bytes of its inputs, and two calls of it.
use durable_wasm.Base.{
  ℕ, ◌≡◌, refl, arith, false, Bytes, Option, none, some, str, List, [], ◌∷◌, take, drop, splice,
  replicate, ◌==◌, nat_eq, to_int32, to_uint32, bytes_eq, list_dec, lookup, if◌then◌else◌,
}
use durable_wasm.Types.{text, ok, err}
use durable_wasm.Store.Memory.{MemorySnapshotStore, new_memory_snapshot_store, load_metadata, load}
use durable_wasm.Linear.{LinearMemory}
use durable_wasm.Session.{Machine, returns}
use durable_wasm.Context.{Context, background, with_keep_alive}
use durable_wasm.Engine.Restore.{restore, restore_snapshot, grow_for, needed_pages}
use durable_wasm.Engine.Execute.{
  CallEnd, returned, stopped, Instance, Wazero, Engine, select_module, meta_of,
}
use durable_wasm.Engine.Exchange.{BpmnCall, exchange}
use durable_wasm.Engine.Exchange.Inputs.{inputs, with_inputs, exchange-answers}
use durable_wasm.Engine.Bpmn.{BpmnHost, run_bpmn, session_for, new_session, reused_session}
use durable_wasm.Engine.Bpmn.Released.{IsGone, run_bpmn-IsGone}
use durable_wasm.Engine.Bpmn.KeptAlive.{continued, run_bpmn-continues, unrestored-reused}
use durable_wasm.Tests.ByteMemory.{byte_memory, linear_bytes, read_bytes, write_bytes}
use durable_wasm.Tests.Setup.{store, id, meta_at}

-- A memory that cannot grow.
abbrev fixed_memory : LinearMemory
fixed_memory = record byte_memory { grow = λ m n. if n == 0 then (some 0, m) else (none, m) }

module _ (L : LinearMemory) where
  abbrev Guest : Type 0
  Guest = List ℕ → Machine store L ℕ → CallEnd × Machine store L ℕ

  abbrev pointer : Guest
  pointer params m = (returned (4 ∷ []), m)

  -- The response has two bytes.
  abbrev answer : Guest
  answer params m = (returned (2 ∷ []), m)

  abbrev exits : Guest
  exits params m = (stopped (some 0) (str "exit_code(0)"), m)

  abbrev exports : Bytes → Option Guest
  exports name =
      if name == str "_start"
      then some exits
      else if name == str "get_exchange_buffer_pointer"
      then some pointer
      else some answer

  abbrev runtime : L.Mem → Wazero store L ℕ
  runtime memory = record {
    Compiled = Bytes;
    compile_module = λ bytes. ok bytes;
    instantiate_module =
        λ compiled name w. (ok (record { memory = memory; exported = exports }), w);
  }

abbrev engine : Engine Bytes
engine = record { compiled = str "wasm"; wasm_hash = str "h1"; compiled_cache = [] }

abbrev call_with : Context ℕ → BpmnCall ℕ
call_with ctx = record {
  ctx = ctx;
  instance_id = id;
  entrypoint = str "execute";
  graph_bytes = str "gr";
  input_bytes = str "in";
  completed_task_id = [];
  server_addr = [];
}

abbrev blank : Bytes
blank = replicate 12 0

abbrev inst : Instance store byte_memory ℕ
inst = record { memory = blank; exported = exports byte_memory }

abbrev host : BpmnHost store byte_memory (runtime byte_memory blank)
host = record {
  engine = engine;
  store = new_memory_snapshot_store;
  world = 0;
  active_sessions = [];
  modules = [];
}

run_bpmn-IsGone_example :
    IsGone store byte_memory
      (runtime byte_memory blank)
      id
      (run_bpmn store byte_memory (runtime byte_memory blank) (call_with background) host).1
unfolding load_metadata new_memory_snapshot_store lookup select_module
run_bpmn-IsGone_example =
    run_bpmn-IsGone store byte_memory (runtime byte_memory blank) (call_with background) refl host
      none (str "wasm") engine refl refl

abbrev machine : Machine store byte_memory ℕ
machine = record {
  session = new_session (call_with background) (str "h1") (meta_at 0);
  store = new_memory_snapshot_store;
  memory = blank;
  world = 0;
}

exchange-answers_example :
    let after = with_inputs store byte_memory linear_bytes (call_with background) false 4 machine in
    (after.memory
      ≡ splice 4 (inputs store byte_memory linear_bytes (call_with background) false) blank)
    × (exchange store byte_memory (call_with background) inst machine ≡ record {
      outcome = returns (false, ok (take 2 (drop 4 after.memory)));
      err_set = false;
      machine = after;
    })
unfolding linear_bytes bytes_eq list_dec nat_eq write_bytes splice
exchange-answers_example =
    exchange-answers store byte_memory linear_bytes (call_with background) false inst machine
      machine (with_inputs store byte_memory linear_bytes (call_with background) false 4 machine)
      (pointer byte_memory) (answer byte_memory) 4 2 [] [] refl refl refl refl (omega arith)
      (omega arith) (omega arith) refl refl (omega arith) (omega arith)

abbrev keeping : BpmnCall ℕ
keeping = call_with (with_keep_alive background)

-- The instance is alive from an earlier call.
abbrev alive_host : BpmnHost store byte_memory (runtime byte_memory blank)
alive_host = record host {
  active_sessions = (id, machine.session) ∷ [];
  modules = (str "main-order", inst) ∷ [];
}

abbrev first_machine : Machine store byte_memory ℕ
first_machine =
    continued store byte_memory (runtime byte_memory blank) keeping
      (meta_of store byte_memory (runtime byte_memory blank) id engine none) machine.session blank
      new_memory_snapshot_store 0

abbrev first_end : Machine store byte_memory ℕ
first_end = (exchange store byte_memory keeping inst first_machine).machine

run_bpmn-continues_example :
    let Z = runtime byte_memory blank in
    ((run_bpmn store byte_memory Z keeping alive_host).0
      ≡ (exchange store byte_memory keeping inst first_machine).outcome)
    × ((run_bpmn store byte_memory Z keeping (run_bpmn store byte_memory Z keeping alive_host).1).0
        ≡ (exchange store byte_memory keeping
            (record inst { memory = first_end.memory })
            (continued store byte_memory Z keeping
              (meta_of store byte_memory Z id engine none)
              first_end.session
              first_end.memory
              first_end.store
              first_end.world)).outcome)
unfolding exchange load_metadata new_memory_snapshot_store lookup select_module bytes_eq list_dec
    nat_eq write_bytes new_session splice to_int32 read_bytes to_uint32 reused_session
run_bpmn-continues_example =
    run_bpmn-continues store byte_memory (runtime byte_memory blank) keeping keeping alive_host none
      none (str "wasm") (str "wasm") engine engine machine.session inst refl refl refl refl
      (record { has_session = refl; has_module = refl }) refl refl refl refl

-- A snapshot that does not fit a memory that cannot grow.
abbrev full_store : MemorySnapshotStore
full_store = record new_memory_snapshot_store { snapshots = (id, str "x") ∷ [] }

abbrev fixed_runtime : Wazero store fixed_memory ℕ
fixed_runtime = runtime fixed_memory blank

abbrev fixed_inst : Instance store fixed_memory ℕ
fixed_inst = record { memory = blank; exported = exports fixed_memory }

abbrev fixed_host : BpmnHost store fixed_memory fixed_runtime
fixed_host = record {
  engine = engine;
  store = full_store;
  world = 0;
  active_sessions = [];
  modules = [];
}

abbrev launched : Machine store fixed_memory ℕ
launched = record {
  session =
      new_session keeping (str "h1") (meta_of store fixed_memory fixed_runtime id engine none);
  store = full_store;
  memory = blank;
  world = 0;
}

unrestored-reused_example :
    ((run_bpmn store fixed_memory fixed_runtime keeping fixed_host).0
      ≡ returns (false, err (text "failed to grow memory for snapshot")))
    × ((run_bpmn store fixed_memory fixed_runtime keeping
          (run_bpmn store fixed_memory fixed_runtime keeping fixed_host).1).0
        ≡ (exchange store fixed_memory keeping
            (record fixed_inst { memory = blank })
            (continued store fixed_memory fixed_runtime keeping
              (meta_of store fixed_memory fixed_runtime id engine none)
              launched.session
              blank
              full_store
              0)).outcome)
unfolding load_metadata load new_memory_snapshot_store lookup select_module bytes_eq list_dec nat_eq
    new_session session_for restore restore_snapshot grow_for needed_pages
unrestored-reused_example =
    unrestored-reused store fixed_memory fixed_runtime keeping keeping fixed_host none none
      (str "wasm") (str "wasm") engine engine fixed_inst 0 launched launched (exits fixed_memory)
      (str "exit_code(0)") (text "failed to grow memory for snapshot") refl refl refl refl refl refl
      refl refl refl refl refl refl
