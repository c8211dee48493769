-- ===== src/Engine/Execute/Concluded.antt =====
-- What an execution makes of the error of a guest whose checkpoint was refused.
use durable_wasm.Base.{contains-middle, ◌≡◌, refl, false, Bytes, str, none, some, ◌++◌, nat_eq}
use durable_wasm.Types.{concurrent_execution}
use durable_wasm.Session.{Session}
use durable_wasm.Store.{SnapshotStore}
use durable_wasm.Linear.{LinearMemory}
use durable_wasm.Engine.Execute.{stopped, Wazero, conclude}

module _ (S : SnapshotStore) (L : LinearMemory) {W : Type 0} (Z : Wazero S L W) where
  -- An execution of a session without a simulated crash and a context without an error, whose
  -- entrypoint fails without an exit code and with a text that has "concurrent_execution_detected"
  -- in it, wherever, gives the error ErrConcurrentExecution and no crash.
  pub conclude-refused :
      (session : Session W) (pre post : Bytes)
      → session.crashed ≡ false
      → conclude S L Z session none
          (stopped none (pre ++ (str "concurrent_execution_detected" ++ post)))
        ≡ (false, some concurrent_execution)
  unfolding conclude
  conclude-refused session pre post alive =
      rw (alive, contains-middle pre (str "concurrent_execution_detected") post) refl
