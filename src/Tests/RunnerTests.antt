-- ===== src/Tests/RunnerTests.antt =====
-- Chains of settings over an engine that crashes once.
use durable_wasm.Base.{ℕ, suc, ◌≡◌, refl, true, false, Bytes, none, some, str, List, [], ◌∷◌, ◌++◌}
use durable_wasm.Types.{text, ok, err}
use durable_wasm.Runner.{EngineApi, Runner, new_runner, run, build_engine}
use durable_wasm.Runner.Chain.{
  Setting, session_id, store, memory_store, wasm_bytes, configure, configure_one, run-nil_setting,
}
use durable_wasm.Runner.Once.{run-after_crash}

abbrev api : EngineApi ℕ
api = record {
  Engine = Bytes;
  Store = ℕ;
  new_memory_snapshot_store = 0;
  new_engine = λ path store w. (err (text "no file"), w);
  new_engine_with_bytes = λ bytes store w. (ok bytes, w);
  execute_with_args = λ engine ctx id entrypoint addr should_crash params w.
      ((should_crash, some (text "simulated_host_crash")), suc w);
}

abbrev before : List (Setting ℕ api)
before = session_id (str "order") ∷ (wasm_bytes (str "wasm") ∷ [])

run-nil_setting_example :
    let stopped = configure_one (store none) (configure before new_runner) in
    (configure (before ++ (store none ∷ (memory_store ∷ []))) new_runner ≡ stopped)
    × (stopped.err ≡ some (text "store cannot be nil"))
    × (run (configure (before ++ (store none ∷ (memory_store ∷ []))) new_runner) 0
        ≡ ((false, some (text "store cannot be nil")), stopped, 0))
run-nil_setting_example =
    run-nil_setting before (memory_store ∷ []) (store none) new_runner (text "store cannot be nil")
      0 refl (refl, (refl, tt)) refl

-- A runner that is ready to run, and told to crash.
abbrev crashing : Runner ℕ api
crashing = record new_runner {
  instance_id = str "order";
  store = some 0;
  wasm_bytes = str "wasm";
  should_crash = true;
}

run-after_crash_example :
    run (run crashing 0).1 5 ≡ ((false, some (text "simulated_host_crash")), (run crashing 0).1, 5)
unfolding run build_engine
run-after_crash_example = run-after_crash crashing 0 5 (text "simulated_host_crash") refl
