-- ===== src/Runner/Once.antt =====
-- What a Runner remembers of its last run.
use durable_wasm.Base.{
  ◌≡◌, ◌∙◌, sym, ap, Bool, true, false, Option-cases, inl, inr, Bytes, Option, none, some, [], ◌∷◌,
}
use durable_wasm.Types.{Error, Result, ok, err}
use durable_wasm.Runner.{
  EngineApi, Runner, execute, run, run_checked, run_store, run_engine, run-unset, build_engine,
  run-failed,
}

module _ {W : Type 0} {E : EngineApi W} where
  -- A run that ends with a crash leaves its error in the runner.
  abbrev Remembers : Error → (Bool × Option Error) × Runner W E × W → Type 0
  Remembers e r = r.0 ≡ (true, some e) → r.1.err ≡ some e

  run_engine-Remembers :
      (r : Runner W E) (built : Option (Result E.Engine × W)) (w : W) (e : Error)
      → Remembers e (run_engine r built w)
  unfolding run_engine execute
  run_engine-Remembers r none w e crash = absurd (cc crash)
  run_engine-Remembers r (some (err e', w')) w e crash = absurd (cc crash)
  run_engine-Remembers r (some (ok engine, w')) w e crash = ap (λ x. x.1) crash

  run_store-Remembers :
      (r : Runner W E) (store : Option E.Store) (w : W) (e : Error)
      → Remembers e (run_store r store w)
  unfolding run_store
  run_store-Remembers r none w e crash = absurd (cc crash)
  run_store-Remembers r (some store) w e crash =
      run_engine-Remembers r (build_engine r store w) w e crash

  run_checked-Remembers :
      (r : Runner W E) (id : Bytes) (w : W) (e : Error) → Remembers e (run_checked r id w)
  unfolding run_checked
  run_checked-Remembers r [] w e crash = absurd (cc crash)
  run_checked-Remembers r (b ∷ bs) w e crash = run_store-Remembers r r.store w e crash

  run-Remembers : (r : Runner W E) (w : W) (e : Error) → Remembers e (run r w)
  run-Remembers r w e crash = elim (Option-cases r.err) [
    | inl unset ↦
        let open_run = run-unset r w unset in
        ap (λ x. x.1.err) open_run
        ∙ run_checked-Remembers r r.instance_id w e (ap (λ x. x.0) (sym open_run) ∙ crash)
    | inr (e', failed) ↦ absurd (cc (crash, ap (λ x. x.0) (run-failed r w failed)))
  ]

  -- A Runner whose run has crashed with an error cannot be resumed: the next run of it gives the
  -- error of the crash, is reported as no crash, and leaves the runner and the world as they are.
  pub run-after_crash :
      (r : Runner W E) (w w' : W) (e : Error)
      → (run r w).0 ≡ (true, some e)
      → run (run r w).1 w' ≡ ((false, some e), (run r w).1, w')
  run-after_crash r w w' e crash = run-failed (run r w).1 w' (run-Remembers r w e crash)
