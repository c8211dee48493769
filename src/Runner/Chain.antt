-- ===== src/Runner/Chain.antt =====
-- Chains of settings on a Runner or a TestRunner, in the order of the calls.
use durable_wasm.Base.{
  ℕ, ◌≡◌, ◌∙◌, refl, ap, Bool, false, Bytes, Option, none, some, List, [], ◌∷◌, ◌++◌, bytes_eq,
  nat_eq,
}
use durable_wasm.Types.{Error, text, Result}
use durable_wasm.Context.{Context}
use durable_wasm.Runner.{
  EngineApi, Runner, unless_failed, unless_failed-stuck, unless_failed-next, run-failed,
  with_context, with_wasm_path, with_wasm_bytes, with_store, with_memory_store, with_session_id,
  with_entrypoint, with_runner_api, with_runner_download, with_runner_upload, with_server,
  with_args, with_crash, run,
}

-- A call of the chain.
pub data Setting (W : Type 0) (E : EngineApi W) : Type 0 where
  context : Option (Context W) → Setting W E
  wasm_path : Bytes → Setting W E
  wasm_bytes : Bytes → Setting W E
  store : Option E.Store → Setting W E
  memory_store : Setting W E
  session_id : Bytes → Setting W E
  entrypoint : Bytes → Setting W E
  api : Option (Bytes → Bytes → W → Result (Option Bytes) × W) → Setting W E
  download : Option (W → Result Bytes × W) → Setting W E
  upload : Option (Bytes → W → Option Error × W) → Setting W E
  server : Bytes → Setting W E
  args : List ℕ → Setting W E
  crash : Bool → Setting W E

module _ {W : Type 0} {E : EngineApi W} where
  unfoldable pub configure_one : Setting W E → Runner W E → Runner W E
  configure_one (context ctx) r = with_context ctx r
  configure_one (wasm_path path) r = with_wasm_path path r
  configure_one (wasm_bytes bytes) r = with_wasm_bytes bytes r
  configure_one (store s) r = with_store s r
  configure_one memory_store r = with_memory_store r
  configure_one (session_id id) r = with_session_id id r
  configure_one (entrypoint name) r = with_entrypoint name r
  configure_one (api handler) r = with_runner_api handler r
  configure_one (download handler) r = with_runner_download handler r
  configure_one (upload handler) r = with_runner_upload handler r
  configure_one (server addr) r = with_server addr r
  configure_one (args params) r = with_args params r
  configure_one (crash flag) r = with_crash flag r

  unfoldable pub configure : List (Setting W E) → Runner W E → Runner W E
  unfolding configure_one
  configure [] r = r
  configure (s ∷ settings) r = configure settings (configure_one s r)

  -- The error that a setting raises by itself.
  abbrev pub nil_error : Setting W E → Option Error
  nil_error (context none) = some (text "context cannot be nil")
  nil_error (store none) = some (text "store cannot be nil")
  nil_error _ = none

  abbrev pub AllValid : List (Setting W E) → Type 0
  AllValid [] = Unit
  AllValid (s ∷ settings) = (nil_error s ≡ none) × AllValid settings

  configure_one-stuck :
      (s : Setting W E) (r : Runner W E) {e : Error} → r.err ≡ some e → configure_one s r ≡ r
  unfolding configure_one with_context with_wasm_path with_wasm_bytes with_store with_memory_store
      with_session_id with_entrypoint with_runner_api with_runner_download with_runner_upload
      with_server with_args with_crash
  configure_one-stuck (context none) r failed = unless_failed-stuck r _ failed
  configure_one-stuck (context (some ctx)) r failed = unless_failed-stuck r _ failed
  configure_one-stuck (wasm_path path) r failed = unless_failed-stuck r _ failed
  configure_one-stuck (wasm_bytes bytes) r failed = unless_failed-stuck r _ failed
  configure_one-stuck (store none) r failed = unless_failed-stuck r _ failed
  configure_one-stuck (store (some s)) r failed = unless_failed-stuck r _ failed
  configure_one-stuck memory_store r failed = unless_failed-stuck r _ failed
  configure_one-stuck (session_id id) r failed = unless_failed-stuck r _ failed
  configure_one-stuck (entrypoint name) r failed = unless_failed-stuck r _ failed
  configure_one-stuck (api handler) r failed = unless_failed-stuck r _ failed
  configure_one-stuck (download handler) r failed = unless_failed-stuck r _ failed
  configure_one-stuck (upload handler) r failed = unless_failed-stuck r _ failed
  configure_one-stuck (server addr) r failed = unless_failed-stuck r _ failed
  configure_one-stuck (args params) r failed = unless_failed-stuck r _ failed
  configure_one-stuck (crash flag) r failed = unless_failed-stuck r _ failed

  pub configure-stuck :
      (settings : List (Setting W E)) (r : Runner W E) {e : Error}
      → r.err ≡ some e
      → configure settings r ≡ r
  unfolding configure
  configure-stuck [] r failed = refl
  configure-stuck (s ∷ settings) r failed =
      ap (configure settings) (configure_one-stuck s r failed) ∙ configure-stuck settings r failed

  err-next :
      (r next : Runner W E) {e : Option Error}
      → r.err ≡ none
      → next.err ≡ e
      → (unless_failed r next).err ≡ e
  err-next r next unset after =
      ap (λ (x : Runner W E). x.err) (unless_failed-next r next unset) ∙ after

  err-configure_one :
      (s : Setting W E) (r : Runner W E) → r.err ≡ none → (configure_one s r).err ≡ nil_error s
  unfolding configure_one with_context with_wasm_path with_wasm_bytes with_store with_memory_store
      with_session_id with_entrypoint with_runner_api with_runner_download with_runner_upload
      with_server with_args with_crash
  err-configure_one (context none) r unset = err-next r _ unset refl
  err-configure_one (context (some ctx)) r unset = err-next r _ unset unset
  err-configure_one (wasm_path path) r unset = err-next r _ unset unset
  err-configure_one (wasm_bytes bytes) r unset = err-next r _ unset unset
  err-configure_one (store none) r unset = err-next r _ unset refl
  err-configure_one (store (some s)) r unset = err-next r _ unset unset
  err-configure_one memory_store r unset = err-next r _ unset unset
  err-configure_one (session_id id) r unset = err-next r _ unset unset
  err-configure_one (entrypoint name) r unset = err-next r _ unset unset
  err-configure_one (api handler) r unset = err-next r _ unset unset
  err-configure_one (download handler) r unset = err-next r _ unset unset
  err-configure_one (upload handler) r unset = err-next r _ unset unset
  err-configure_one (server addr) r unset = err-next r _ unset unset
  err-configure_one (args params) r unset = err-next r _ unset unset
  err-configure_one (crash flag) r unset = err-next r _ unset unset

  err-configure :
      (settings : List (Setting W E)) (r : Runner W E)
      → AllValid settings
      → r.err ≡ none
      → (configure settings r).err ≡ none
  unfolding configure
  err-configure [] r valid unset = unset
  err-configure (s ∷ settings) r (fine, valid) unset =
      err-configure settings (configure_one s r) valid (err-configure_one s r unset ∙ fine)

  configure-append :
      (before after : List (Setting W E)) (r : Runner W E)
      → configure (before ++ after) r ≡ configure after (configure before r)
  unfolding configure
  configure-append [] after r = refl
  configure-append (s ∷ before) after r = configure-append before after (configure_one s r)

  -- The first setting of a chain that is nil decides, on a runner with no error: the calls after it
  -- change nothing, the runner holds its error, and a run gives that error and leaves the runner and
  -- the world as they are.
  pub run-nil_setting :
      (before after : List (Setting W E)) (bad : Setting W E) (r : Runner W E) (e : Error) (w : W)
      → r.err ≡ none
      → AllValid before
      → nil_error bad ≡ some e
      → let stopped = configure_one bad (configure before r) in
        (configure (before ++ (bad ∷ after)) r ≡ stopped)
        × (stopped.err ≡ some e)
        × (run (configure (before ++ (bad ∷ after)) r) w ≡ ((false, some e), stopped, w))
  unfolding configure configure_one
  run-nil_setting before after bad r e w unset valid nil =
      let stopped = configure_one bad (configure before r) in
      let failed : stopped.err ≡ some e =
        err-configure_one bad (configure before r) (err-configure before r valid unset) ∙ nil in
      let stays : configure (before ++ (bad ∷ after)) r ≡ stopped =
        configure-append before (bad ∷ after) r ∙ configure-stuck after stopped failed in
      (stays, failed, ap (λ x. run x w) stays ∙ run-failed stopped w failed)
