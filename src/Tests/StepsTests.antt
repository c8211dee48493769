-- ===== src/Tests/StepsTests.antt =====
-- A workflow of two steps, whose counter is the first byte of a memory of 16 bytes.
use mathlib.Core.Path.{subst}
use mathlib.Core.Option.{some-injective}
use durable_wasm.Base.{
  ℕ, zero, suc, ◌+◌, ◌≡◌, refl, arith, Bytes, none, some, List, [], ◌∷◌, get_elem?, drop,
}
use durable_wasm.Session.{returns, Machine}
use durable_wasm.Guest.Steps.{StepVariable, Step, run}
use durable_wasm.Guest.Steps.Counted.{run_steps, IsCounter, run-run_steps}
use durable_wasm.Tests.ByteMemory.{byte_memory}
use durable_wasm.Tests.Setup.{store, small}

abbrev first_byte : Bytes → ℕ
first_byte [] = 0
first_byte (b ∷ bs) = b

abbrev variable : StepVariable byte_memory
variable = record { current_step = first_byte; set_step = λ n mem. n ∷ drop 1 mem }

abbrev count : Step store byte_memory ℕ
count m = (returns none, record m { world = m.world + 1 })

abbrev steps : List (Step store byte_memory ℕ)
steps = count ∷ (count ∷ [])

count-keeps :
    (step : Step store byte_memory ℕ) (m : Machine store byte_memory ℕ)
    → some count ≡ some step
    → first_byte (step m).1.memory ≡ first_byte m.memory
count-keeps step m same =
    subst (λ (f : Step store byte_memory ℕ). first_byte (f m).1.memory ≡ first_byte m.memory)
      (some-injective count step same) refl

steps-keep :
    (k : ℕ) (step : Step store byte_memory ℕ) (m : Machine store byte_memory ℕ)
    → get_elem? steps k ≡ some step
    → first_byte (step m).1.memory ≡ first_byte m.memory
steps-keep zero step m at = count-keeps step m at
steps-keep (suc zero) step m at = count-keeps step m at
steps-keep (suc (suc k)) step m at = absurd (cc at)

steps-IsCounter : IsCounter store byte_memory variable steps
steps-IsCounter = record { set = λ n mem. refl; kept = steps-keep }

abbrev begun : Machine store byte_memory ℕ
begun = record small { memory = 0 ∷ [] }

run-run_steps_example :
    let r = run_steps store byte_memory variable 0 steps begun in
    run store byte_memory variable 3 steps begun ≡ (some r.0, r.1)
run-run_steps_example =
    run-run_steps store byte_memory variable steps steps 0 3 begun steps-IsCounter refl refl
      (omega arith)
