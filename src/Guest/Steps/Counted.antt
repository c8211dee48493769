-- ===== src/Guest/Steps/Counted.antt =====
-- Run with its counter against the steps that are left, one after another.
use durable_wasm.Base.{
  ℕ, zero, suc, ◌<◌, ◌≡◌, ◌∙◌, ap, refl, arith, Option, none, some, List, [], ◌∷◌, get_elem?, drop,
  length, ℤ, pos, negsuc,
}
use durable_wasm.Types.{Error}
use durable_wasm.Store.{SnapshotStore}
use durable_wasm.Linear.{LinearMemory}
use durable_wasm.Session.{Outcome, returns, fails, panics, Machine, Run}
use durable_wasm.Engine.Checkpoint.{checkpoint}
use durable_wasm.Engine.Checkpoint.Memory.{memory-checkpoint}
use durable_wasm.Guest.Steps.{StepVariable, Step, after_checkpoint, after_step, run}

get_elem?-drop-[] : {A : Type 0} (k : ℕ) (xs : List A) → drop k xs ≡ [] → get_elem? xs k ≡ none
get_elem?-drop-[] zero [] e = refl
get_elem?-drop-[] zero (x ∷ xs) e = absurd (cc e)
get_elem?-drop-[] (suc k) [] e = refl
get_elem?-drop-[] (suc k) (x ∷ xs) e = get_elem?-drop-[] k xs e

get_elem?-drop-∷ :
    {A : Type 0} (k : ℕ) (xs : List A) (y : A) (ys : List A)
    → drop k xs ≡ y ∷ ys
    → (get_elem? xs k ≡ some y) × (drop (suc k) xs ≡ ys)
get_elem?-drop-∷ zero [] y ys e = absurd (cc e)
get_elem?-drop-∷ zero (x ∷ xs) y ys e = (cc e, cc e)
get_elem?-drop-∷ (suc k) [] y ys e = absurd (cc e)
get_elem?-drop-∷ (suc k) (x ∷ xs) y ys e = get_elem?-drop-∷ k xs y ys e

module _ (S : SnapshotStore) (L : LinearMemory) {W : Type 0} (V : StepVariable L) where
  -- What a step, the checkpoint after it and the rest of the steps come to.
  abbrev in_turn : Run S L W (Option Error) → Run S L W (Unit {0}) → Run S L W ℤ → Run S L W ℤ
  in_turn (fails e, n) checkpointed rest = (fails e, n)
  in_turn (panics reason, n) checkpointed rest = (panics reason, n)
  in_turn (returns (some e), n) checkpointed rest = (returns (negsuc 0), n)
  in_turn (returns none, n) (returns _, n') rest = rest
  in_turn (returns none, n) (fails e, n') rest = (fails e, n')
  in_turn (returns none, n) (panics reason, n') rest = (panics reason, n')

  -- The steps from number k on, each once and in order, with the counter advanced and a checkpoint
  -- after each: up to the first that fails, or the first panic.
  unfoldable pub run_steps : ℕ → List (Step S L W) → Machine S L W → Run S L W ℤ
  run_steps k [] m = (returns (pos 0), m)
  run_steps k (step ∷ steps) m =
      let n = (step m).1 in
      let checkpointed = checkpoint S L (record n { memory = V.set_step (suc k) n.memory }) in
      in_turn (step m) checkpointed (run_steps (suc k) steps checkpointed.1)

  after_step-in_turn :
      (stepped : Run S L W (Option Error)) (checkpointed : Run S L W (Unit {0}))
      (rest : Option (Outcome ℤ) × Machine S L W) (rest' : Run S L W ℤ)
      → rest ≡ (some rest'.0, rest'.1)
      → let r = in_turn stepped checkpointed rest' in
        after_step S L stepped checkpointed rest ≡ (some r.0, r.1)
  unfolding after_step after_checkpoint
  after_step-in_turn (fails e, n) checkpointed rest rest' same = refl
  after_step-in_turn (panics reason, n) checkpointed rest rest' same = refl
  after_step-in_turn (returns (some e), n) checkpointed rest rest' same = refl
  after_step-in_turn (returns none, n) (returns _, n') rest rest' same = same
  after_step-in_turn (returns none, n) (fails e, n') rest rest' same = refl
  after_step-in_turn (returns none, n) (panics reason, n') rest rest' same = refl

  -- The variable holds what was put there, and no step changes it.
  pub record IsCounter (steps : List (Step S L W)) : Type 0 where
    pub set : (n : ℕ) (mem : L.Mem) → V.current_step (V.set_step n mem) ≡ n
    pub kept :
        (k : ℕ) (step : Step S L W) (m : Machine S L W)
        → get_elem? steps k ≡ some step
        → V.current_step (step m).1.memory ≡ V.current_step m.memory

  -- Run, where the counter stands at k, takes the steps from number k on, each once and in order,
  -- advances the counter and has the engine make a checkpoint after each, and gives 0; at the first
  -- step that fails it gives -1, with neither, and it ends with the first panic of a step or of a
  -- checkpoint. The conditions: the counter's variable holds what is put there, no step changes it,
  -- and there is more fuel than there are steps left.
  pub run-run_steps :
      (steps rest : List (Step S L W)) (k fuel : ℕ) (m : Machine S L W)
      → IsCounter steps
      → drop k steps ≡ rest
      → V.current_step m.memory ≡ k
      → length rest < fuel
      → run S L V fuel steps m ≡ (some (run_steps k rest m).0, (run_steps k rest m).1)
  unfolding run run_steps
  run-run_steps steps rest k zero m counter left at fits = absurd (omega arith)
  run-run_steps steps [] k (suc fuel) m counter left at fits =
      rw (run, at, get_elem?-drop-[] k steps left) refl
  run-run_steps steps (step ∷ rest) k (suc fuel) m counter left at fits =
      let (here, left') = get_elem?-drop-∷ k steps step rest left in
      let n = (step m).1 in
      let counted : V.current_step n.memory ≡ k = counter.kept k step m here ∙ at in
      let next : Machine S L W = record n { memory = V.set_step (suc k) n.memory } in
      let later =
        run-run_steps steps rest (suc k) fuel (checkpoint S L next).1 counter left'
          (ap V.current_step (memory-checkpoint S L next) ∙ counter.set (suc k) n.memory)
          (omega arith) in
      rw (run, at, here, counted)
        (after_step-in_turn (step m) (checkpoint S L next) _
          (run_steps (suc k) rest (checkpoint S L next).1) later)
