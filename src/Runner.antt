-- ===== src/Runner.antt =====
-- runner_builder.go: Runner, a chain of settings with an error that sticks, and its run.
pub mod Chain
pub mod Once
use durable_wasm.Base.{
  ℕ, zero, suc, ◌≡◌, ap, Bool, true, false, Bytes, str, Option, none, some, List, [], ◌∷◌, ◌++◌,
  ◌==◌, bytes_eq, nat_eq, if◌then◌else◌,
}
use durable_wasm.Types.{Error, text, wrapped, Result, ok, err}
use durable_wasm.Context.{
  Context, background, with_api_handler, with_download_handler, with_upload_handler,
}

-- What the runner calls of the engine, of the stores and of the file system.
pub record EngineApi (W : Type 0) : Type 1 where
  pub Engine : Type 0
  pub Store : Type 0
  pub new_memory_snapshot_store : Store
  pub new_engine : Bytes → Store → W → Result Engine × W
  pub new_engine_with_bytes : Bytes → Store → W → Result Engine × W
  pub execute_with_args :
      Engine → Context W → Bytes → Bytes → Bytes → Bool → List ℕ → W → (Bool × Option Error) × W

-- A nil slice is an empty one.
pub record Runner (W : Type 0) (E : EngineApi W) : Type 0 where
  pub ctx : Context W
  pub wasm_path : Bytes
  pub wasm_bytes : Bytes
  pub store : Option E.Store
  pub instance_id : Bytes
  pub entrypoint : Bytes
  pub api_handler : Option (Bytes → Bytes → W → Result (Option Bytes) × W)
  pub download_handler : Option (W → Result Bytes × W)
  pub upload_handler : Option (Bytes → W → Option Error × W)
  pub server_addr : Bytes
  pub should_crash : Bool
  pub params : List ℕ
  pub err : Option Error
  pub crashed : Bool

module _ {W : Type 0} {E : EngineApi W} where
  abbrev pub new_runner : Runner W E
  new_runner = record {
    ctx = background;
    wasm_path = [];
    wasm_bytes = [];
    store = none;
    instance_id = [];
    entrypoint = str "run";
    api_handler = none;
    download_handler = none;
    upload_handler = none;
    server_addr = [];
    should_crash = false;
    params = [];
    err = none;
    crashed = false;
  }

  -- `if r.err != nil { return r }`
  unfoldable pub unless_failed : Runner W E → Runner W E → Runner W E
  unless_failed r next = elim r.err [ some e ↦ r | none ↦ next ]

  pub unless_failed-stuck :
      (r next : Runner W E) {e : Error} → r.err ≡ some e → unless_failed r next ≡ r
  unfolding unless_failed
  unless_failed-stuck r next failed =
      ap (λ (x : Option Error). elim x [ some e ↦ r | none ↦ next ]) failed

  pub unless_failed-next : (r next : Runner W E) → r.err ≡ none → unless_failed r next ≡ next
  unfolding unless_failed
  unless_failed-next r next unset =
      ap (λ (x : Option Error). elim x [ some e ↦ r | none ↦ next ]) unset

  unfoldable pub with_context : Option (Context W) → Runner W E → Runner W E
  with_context none r = unless_failed r (record r { err = some (text "context cannot be nil") })
  with_context (some ctx) r = unless_failed r (record r { ctx = ctx })

  unfoldable pub with_wasm_path : Bytes → Runner W E → Runner W E
  with_wasm_path wasm_path r = unless_failed r (record r { wasm_path = wasm_path })

  unfoldable pub with_wasm_bytes : Bytes → Runner W E → Runner W E
  with_wasm_bytes wasm_bytes r = unless_failed r (record r { wasm_bytes = wasm_bytes })

  unfoldable pub with_store : Option E.Store → Runner W E → Runner W E
  with_store none r = unless_failed r (record r { err = some (text "store cannot be nil") })
  with_store (some store) r = unless_failed r (record r { store = some store })

  unfoldable pub with_memory_store : Runner W E → Runner W E
  with_memory_store r = unless_failed r (record r { store = some E.new_memory_snapshot_store })

  unfoldable pub with_session_id : Bytes → Runner W E → Runner W E
  with_session_id instance_id r = unless_failed r (record r { instance_id = instance_id })

  unfoldable pub with_entrypoint : Bytes → Runner W E → Runner W E
  with_entrypoint entrypoint r = unless_failed r (record r { entrypoint = entrypoint })

  unfoldable pub with_runner_api :
      Option (Bytes → Bytes → W → Result (Option Bytes) × W) → Runner W E → Runner W E
  with_runner_api handler r = unless_failed r (record r { api_handler = handler })

  unfoldable pub with_runner_download : Option (W → Result Bytes × W) → Runner W E → Runner W E
  with_runner_download handler r = unless_failed r (record r { download_handler = handler })

  unfoldable pub with_runner_upload :
      Option (Bytes → W → Option Error × W) → Runner W E → Runner W E
  with_runner_upload handler r = unless_failed r (record r { upload_handler = handler })

  unfoldable pub with_server : Bytes → Runner W E → Runner W E
  with_server server_addr r = unless_failed r (record r { server_addr = server_addr })

  unfoldable pub with_args : List ℕ → Runner W E → Runner W E
  with_args params r = unless_failed r (record r { params = params })

  -- TestRunner.WithCrash: a TestRunner is a Runner with this one setting more.
  unfoldable pub with_crash : Bool → Runner W E → Runner W E
  with_crash should_crash r = unless_failed r (record r { should_crash = should_crash })

  -- The handlers that are set are bound to the context.
  bind_api : Runner W E → Context W → Context W
  bind_api r ctx = elim r.api_handler [ none ↦ ctx | some h ↦ with_api_handler ctx h ]

  bind_download : Runner W E → Context W → Context W
  bind_download r ctx = elim r.download_handler [
    | none ↦ ctx
    | some h ↦ with_download_handler ctx h
  ]

  bind_upload : Runner W E → Context W → Context W
  bind_upload r ctx = elim r.upload_handler [ none ↦ ctx | some h ↦ with_upload_handler ctx h ]

  unfoldable pub run_context : Runner W E → Context W
  unfolding bind_api bind_download bind_upload
  run_context r = bind_upload r (bind_download r (bind_api r r.ctx))

  -- The engine of the WASM bytes, or else of the file; none where neither is configured.
  unfoldable pub build_engine : Runner W E → E.Store → W → Option (Result E.Engine × W)
  build_engine r store w = elim r.wasm_bytes [
    | b ∷ bs ↦ some (E.new_engine_with_bytes (b ∷ bs) store w)
    | [] ↦ elim r.wasm_path [ [] ↦ none | c ∷ cs ↦ some (E.new_engine (c ∷ cs) store w) ]
  ]

  execute : Runner W E → E.Engine → W → (Bool × Option Error) × Runner W E × W
  execute r engine w =
      let result =
        E.execute_with_args engine (run_context r) r.instance_id r.entrypoint r.server_addr
          r.should_crash r.params w in
      (result.0, record r { crashed = result.0.0; err = result.0.1 }, result.1)

  run_engine :
      Runner W E → Option (Result E.Engine × W) → W → (Bool × Option Error) × Runner W E × W
  unfolding execute
  run_engine r none w =
      ((false, some (text "either WASM file path or WASM bytes must be configured")), r, w)
  run_engine r (some (err e, w')) w = ((false, some (wrapped "failed to build engine" e)), r, w')
  run_engine r (some (ok engine, w')) w = execute r engine w'

  run_store : Runner W E → Option E.Store → W → (Bool × Option Error) × Runner W E × W
  unfolding run_engine
  run_store r none w = ((false, some (text "snapshot store is required")), r, w)
  run_store r (some store) w = run_engine r (build_engine r store w) w

  run_checked : Runner W E → Bytes → W → (Bool × Option Error) × Runner W E × W
  unfolding run_store
  run_checked r [] w = ((false, some (text "session ID is required")), r, w)
  run_checked r (b ∷ bs) w = run_store r r.store w

  -- The result, with the runner and the world that the run leaves.
  unfoldable pub run : Runner W E → W → (Bool × Option Error) × Runner W E × W
  unfolding run_checked
  run r w = elim r.err [ some e ↦ ((false, some e), r, w) | none ↦ run_checked r r.instance_id w ]

  pub run-failed :
      (r : Runner W E) (w : W) {e : Error} → r.err ≡ some e → run r w ≡ ((false, some e), r, w)
  unfolding run
  run-failed r w failed =
      ap
        (λ (x : Option Error). elim x [
          | some e ↦ ((false, some e), r, w)
          | none ↦ run_checked r r.instance_id w
        ])
        failed

  run-unset : (r : Runner W E) (w : W) → r.err ≡ none → run r w ≡ run_checked r r.instance_id w
  unfolding run
  run-unset r w unset =
      ap
        (λ (x : Option Error). elim x [
          | some e ↦ ((false, some e), r, w)
          | none ↦ run_checked r r.instance_id w
        ])
        unset
