-- ===== src/Guest/Steps.antt =====
-- runner/runner.go: Run and Workflow. The counter `currentStep` stands in the guest's memory, where the
-- compiler has put it; a checkpoint is the host function of the engine.
pub mod Counted
use durable_wasm.Base.{
  ℕ, zero, suc, Option, none, some, List, [], ◌∷◌, ◌++◌, get_elem?, ℤ, pos, negsuc,
}
use durable_wasm.Types.{Error}
use durable_wasm.Store.{SnapshotStore}
use durable_wasm.Linear.{LinearMemory}
use durable_wasm.Session.{Outcome, returns, fails, panics, Machine, Run}
use durable_wasm.Engine.Checkpoint.{checkpoint}

-- The variable `currentStep` of a guest.
pub record StepVariable (L : LinearMemory) : Type 0 where
  pub current_step : L.Mem → ℕ
  pub set_step : ℕ → L.Mem → L.Mem

-- A step of a workflow: an error or none, or a panic of a host function that it calls.
abbrev pub Step : SnapshotStore → LinearMemory → Type 0 → Type 0
Step S L W = Machine S L W → Run S L W (Option Error)

module _ (S : SnapshotStore) (L : LinearMemory) {W : Type 0} where
  -- NewWorkflow and Workflow.Step
  abbrev pub new_workflow : List (Step S L W)
  new_workflow = []

  abbrev pub add_step : Step S L W → List (Step S L W) → List (Step S L W)
  add_step step steps = steps ++ (step ∷ [])

  -- A panic of `checkpoint` ends the guest's call.
  unfoldable pub after_checkpoint :
      Run S L W (Unit {0}) → Option (Outcome ℤ) × Machine S L W → Option (Outcome ℤ) × Machine S L W
  after_checkpoint (returns _, m) rest = rest
  after_checkpoint (fails e, m) rest = (some (fails e), m)
  after_checkpoint (panics reason, m) rest = (some (panics reason), m)

  unfoldable pub after_step :
      Run S L W (Option Error)
      → Run S L W (Unit {0})
      → Option (Outcome ℤ) × Machine S L W
      → Option (Outcome ℤ) × Machine S L W
  unfolding after_checkpoint
  after_step (returns none, m) checkpointed rest = after_checkpoint checkpointed rest
  after_step (returns (some e), m) checkpointed rest = (some (returns (negsuc 0)), m)
  after_step (fails e, m) checkpointed rest = (some (fails e), m)
  after_step (panics reason, m) checkpointed rest = (some (panics reason), m)

  module _ (V : StepVariable L) where
    -- `currentStep++`
    abbrev pub count_step : Machine S L W → Machine S L W
    count_step m = record m { memory = V.set_step (suc (V.current_step m.memory)) m.memory }

    -- The loop of Run, which reads the counter anew each time; none where the fuel is too small.
    unfoldable pub run : ℕ → List (Step S L W) → Machine S L W → Option (Outcome ℤ) × Machine S L W
    unfolding after_step
    run zero steps m = (none, m)
    run (suc fuel) steps m = elim (get_elem? steps (V.current_step m.memory)) [
      | none ↦ (some (returns (pos 0)), m)
      | some step ↦
          let stepped = step m in
          let checkpointed = checkpoint S L (count_step stepped.1) in
          let rest = run fuel steps checkpointed.1 in after_step stepped checkpointed rest
    ]
