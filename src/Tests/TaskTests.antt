-- ===== src/Tests/TaskTests.antt =====
-- A task whose variables are a text, which ends where the stream ends, over a memory of 16 bytes.
use durable_wasm.Base.{
  ℕ, ◌+◌, ◌≡◌, refl, arith, false, inl, Bytes, Option, none, some, [], ◌++◌, ℤ, pos, nat_eq,
}
use durable_wasm.Types.{Error, ok}
use durable_wasm.Session.{returns, Outcome, Machine}
use durable_wasm.Guest.Task.{TaskRuntime, decode_from, run_task}
use durable_wasm.Guest.Task.Decoded.{IsWhole, decode_from-content}
use durable_wasm.Guest.Task.Answered.{run_task-answers}
use durable_wasm.Guest.Task.Ends.{run_task-ends}
use durable_wasm.Tests.ByteMemory.{byte_memory, linear_bytes}
use durable_wasm.Tests.Setup.{store, small, download, accept, content}

abbrev text_runtime : TaskRuntime byte_memory
text_runtime = record {
  Vars = Bytes;
  decode = λ bytes. none;
  decode_end = λ bytes. ok bytes;
  room = λ k. (8, 2);
  encode = λ bytes. ok bytes;
  place = λ bytes mem. (bytes ++ mem, 0);
}

-- A handler that doubles the text, and counts in the world.
abbrev double :
    Bytes → Machine store byte_memory ℕ → Option Error × Bytes × Machine store byte_memory ℕ
double vars m = (none, vars ++ vars, record m { world = m.world + 100 })

content-IsWhole : IsWhole text_runtime content content
content-IsWhole = record { nothing = refl; part = λ read rest split. inl refl; end = refl }

-- The variables are decoded.
after_read :
    let n = (decode_from store byte_memory text_runtime 6 [] small).1 in
    ((decode_from store byte_memory text_runtime 6 [] small).0 ≡ some (ok content))
    × (n.world ≡ 1)
    × (n.session.upload_buffer ≡ [])
    × (n.session.upload_handler ≡ some accept)
unfolding linear_bytes
after_read =
    decode_from-content store byte_memory linear_bytes text_runtime content content 6 small download
      1 content-IsWhole (λ k. (omega arith, omega arith, omega arith, omega arith)) (omega arith)
      refl refl refl refl

run_task-answers_example :
    let n = (decode_from store byte_memory text_runtime 6 [] small).1 in
    let r = run_task store byte_memory text_runtime 6 double small in
    (n.world ≡ 1)
    × (r.0 ≡ some (returns (pos 0)))
    × (r.1.world ≡ (accept (content ++ content) (n.world + 100)).1)
    × (r.1.session
        ≡ record n.session { upload_buffer = []; download_reader = none; download_eof = false })
unfolding linear_bytes
run_task-answers_example =
    run_task-answers store byte_memory linear_bytes text_runtime double content (content ++ content)
      content 6 small download accept 1 content-IsWhole
      (λ k. (omega arith, omega arith, omega arith, omega arith)) (omega arith) refl refl refl refl
      refl after_read.2 after_read.3 refl (ground arith, omega arith, refl) refl

run_task-ends_example :
    (status : Outcome ℤ) × ((run_task store byte_memory text_runtime 6 double small).0
      ≡ some status)
unfolding linear_bytes
run_task-ends_example =
    run_task-ends store byte_memory linear_bytes text_runtime double 6 small
      (λ k. (omega arith, omega arith, omega arith, omega arith)) (omega arith)
