-- ===== src/Engine/Exchange/Inputs.antt =====
-- The exchange buffer: what the guest finds in it, and what the caller gets from it.
use durable_wasm.Base.{
  ℕ, ◌+◌, ◌%◌, ◌^◌, ◌≤◌, ◌<◌, ◌≡◌, ◌∙◌, sym, refl, ap, arith, Bool, true, false, Bytes, str, none,
  some, List, [], ◌∷◌, ◌++◌, bytes_eq, list_dec, nat_eq, length, length-append, length-splice, ltb,
  take, drop, splice, splice-append, to_int32-eq, to_uint32-eq,
}
use mathlib.Core.List.{append_assoc}
use durable_wasm.Types.{ok}
use durable_wasm.Store.{SnapshotStore}
use durable_wasm.Linear.{LinearMemory, IsLinear}
use durable_wasm.Session.{returns, Machine}
use durable_wasm.Engine.Execute.{CallEnd, returned, Instance}
use durable_wasm.Engine.Exchange.{
  BpmnCall, exchange_with, buffer_found, write_inputs, wrote_graph, wrote_input, run_entrypoint,
  find_resume, resume_call, call_function, after_call, end_call, returned_results, read_response,
  response, exchange, put, total_len, buffer_limit,
}

module _ (S : SnapshotStore) (L : LinearMemory) (lin : IsLinear L) {W : Type 0}
    (call : BpmnCall W) where
  open lin use {contents}

  -- What the guest is given: for "resume" also the id of the completed task.
  abbrev pub inputs : Bool → Bytes
  inputs false = call.graph_bytes ++ call.input_bytes
  inputs true = call.graph_bytes ++ (call.input_bytes ++ call.completed_task_id)

  abbrev pub params : Bool → List ℕ
  params false = length call.graph_bytes ∷ (length call.input_bytes ∷ [])
  params true =
      length call.graph_bytes
      ∷ (length call.input_bytes
          ∷ ((length call.graph_bytes + length call.input_bytes)
              ∷ (length call.completed_task_id ∷ [])))

  abbrev pub entrypoint : Bool → Bytes
  entrypoint false = str "execute"
  entrypoint true = str "resume"

  -- The machine after the graph and the input, and after the id of the task.
  abbrev with_input : ℕ → Machine S L W → Machine S L W
  with_input ptr m =
      (put S L ptr (length call.graph_bytes % 2 ^ 32) call.input_bytes
        (put S L ptr 0 call.graph_bytes m).1).1

  abbrev pub with_inputs : Bool → ℕ → Machine S L W → Machine S L W
  with_inputs false ptr m = with_input ptr m
  with_inputs true ptr m =
      (put S L ptr ((length call.graph_bytes + length call.input_bytes) % 2 ^ 32)
        call.completed_task_id (with_input ptr m)).1

  put-in :
      (ptr o : ℕ) (bs : Bytes) (m : Machine S L W)
      → ptr + (o + length bs) ≤ length (contents m.memory)
      → length (contents m.memory) < 2 ^ 32
      → ((put S L ptr (o % 2 ^ 32) bs m).0 ≡ true)
        × (contents (put S L ptr (o % 2 ^ 32) bs m).1.memory
            ≡ splice (ptr + o) bs (contents m.memory))
  put-in ptr o bs m room small =
      let at : (ptr + o % 2 ^ 32) % 2 ^ 32 ≡ ptr + o = omega arith in
      rw at (lin.write_in m.memory (ptr + o) bs (omega arith))

  module _ (ptr : ℕ) (m : Machine S L W)
      (room : ptr + total_len S L call ≤ length (contents m.memory))
      (small : length (contents m.memory) < 2 ^ 32) where
    abbrev after_graph : Machine S L W
    after_graph = (put S L ptr 0 call.graph_bytes m).1

    graph-in :
        ((put S L ptr 0 call.graph_bytes m).0 ≡ true)
        × (contents after_graph.memory ≡ splice ptr call.graph_bytes (contents m.memory))
    graph-in =
        let (done, holds) = put-in ptr 0 call.graph_bytes m (omega arith) small in
        (done, holds ∙ ap (λ (o : ℕ). splice o call.graph_bytes (contents m.memory)) (omega arith))

    input-in :
        ((put S L ptr (length call.graph_bytes % 2 ^ 32) call.input_bytes after_graph).0 ≡ true)
        × (contents (with_input ptr m).memory
            ≡ splice ptr (call.graph_bytes ++ call.input_bytes) (contents m.memory))
    input-in =
        let before = graph-in.1 in
        let same : length (contents after_graph.memory) ≡ length (contents m.memory) =
          ap length before ∙ length-splice ptr call.graph_bytes (contents m.memory) in
        let (done, holds) =
          put-in ptr (length call.graph_bytes) call.input_bytes after_graph (omega arith)
            (omega arith) in
        (
          done,
          holds
              ∙ ap (λ (xs : Bytes). splice (ptr + length call.graph_bytes) call.input_bytes xs)
                  before
              ∙ splice-append ptr call.graph_bytes call.input_bytes (contents m.memory),
        )

    task-in :
        ((put S L ptr
            ((length call.graph_bytes + length call.input_bytes) % 2 ^ 32)
            call.completed_task_id
            (with_input ptr m)).0
          ≡ true)
        × (contents (with_inputs true ptr m).memory ≡ splice ptr (inputs true) (contents m.memory))
    task-in =
        let before = input-in.1 in
        let both = call.graph_bytes ++ call.input_bytes in
        let same : length (contents (with_input ptr m).memory) ≡ length (contents m.memory) =
          ap length before ∙ length-splice ptr both (contents m.memory) in
        let lengths : length call.graph_bytes + length call.input_bytes ≡ length both =
          sym (length-append call.graph_bytes call.input_bytes) in
        let (done, holds) =
          put-in ptr (length call.graph_bytes + length call.input_bytes) call.completed_task_id
            (with_input ptr m) (omega arith) (omega arith) in
        (
          done,
          holds
              ∙ ap
                  (λ (xs : Bytes).
                    splice (ptr + (length call.graph_bytes + length call.input_bytes))
                      call.completed_task_id xs)
                  before
              ∙ ap
                  (λ (n : ℕ).
                    splice (ptr + n) call.completed_task_id (splice ptr both (contents m.memory)))
                  lengths
              ∙ splice-append ptr both call.completed_task_id (contents m.memory)
              ∙ ap (λ (xs : Bytes). splice ptr xs (contents m.memory))
                  (append_assoc call.graph_bytes call.input_bytes call.completed_task_id),
        )

    -- The guest finds the inputs in the buffer, and the rest of its memory as it was.
    contents-with_inputs :
        (resume : Bool)
        → contents (with_inputs resume ptr m).memory
          ≡ splice ptr (inputs resume) (contents m.memory)
    contents-with_inputs false = input-in.1
    contents-with_inputs true = task-in.1

    -- With the inputs in the buffer the function of the entrypoint is called.
    write_inputs-calls :
        (resume : Bool) (inst : Instance S L W)
        (run : List ℕ → Machine S L W → CallEnd × Machine S L W)
        → call.entrypoint ≡ entrypoint resume
        → inst.exported (entrypoint resume) ≡ some run
        → total_len S L call ≤ buffer_limit
        → let called = run (params resume) (with_inputs resume ptr m) in
          write_inputs S L call inst ptr m
          ≡ after_call S L (call.ctx.err called.1.world) ptr called.0 called.1
    unfolding write_inputs wrote_graph wrote_input run_entrypoint call_function find_resume
        resume_call bytes_eq list_dec nat_eq
    write_inputs-calls false inst run named exported fits =
        let within : ltb buffer_limit (total_len S L call) ≡ false = ground arith in
        rw (within, graph-in.0, input-in.0, named, exported) refl
    write_inputs-calls true inst run named exported fits =
        let within : ltb buffer_limit (total_len S L call) ≡ false = ground arith in
        let offset : (length call.graph_bytes + length call.input_bytes) % 2 ^ 32
            ≡ length call.graph_bytes + length call.input_bytes =
          omega arith in
        rw (within, graph-in.0, input-in.0, named, exported, task-in.0, offset) refl

  response-in :
      (ptr n : ℕ) (results : List ℕ) (m : Machine S L W)
      → n < 2 ^ 31
      → ptr + n ≤ length (contents m.memory)
      → after_call S L none ptr (returned (n ∷ results)) m ≡ record {
        outcome = returns (false, ok (take n (drop ptr (contents m.memory))));
        err_set = false;
        machine = m;
      }
  unfolding after_call end_call returned_results read_response response
  response-in ptr n results m low room =
      rw
        (
          to_int32-eq n low,
          read_response,
          to_uint32-eq n (omega arith),
          lin.read_in m.memory ptr n room,
        )
        refl

  -- A guest that is called by "execute" or "resume" finds the graph, the inputs and, for "resume",
  -- the id of the completed task in its exchange buffer, one after the other, with their lengths as
  -- arguments, and the rest of its memory as it was; and the caller gets exactly the bytes that
  -- stand in the buffer after the call, as many as the guest says: if the inputs are at most 1 MiB
  -- and lie in the guest's memory of less than 4 GiB, the context is not done, and the response lies
  -- in the memory and is shorter than 2 GiB.
  pub exchange-answers :
      (resume : Bool) (inst : Instance S L W) (m at_buffer after : Machine S L W)
      (get_buf_ptr run : List ℕ → Machine S L W → CallEnd × Machine S L W) (ptr n : ℕ)
      (more results : List ℕ)
      → call.entrypoint ≡ entrypoint resume
      → inst.exported (str "get_exchange_buffer_pointer") ≡ some get_buf_ptr
      → inst.exported (entrypoint resume) ≡ some run
      → get_buf_ptr [] m ≡ (returned (ptr ∷ more), at_buffer)
      → total_len S L call ≤ buffer_limit
      → ptr + total_len S L call ≤ length (contents at_buffer.memory)
      → length (contents at_buffer.memory) < 2 ^ 32
      → run (params resume) (with_inputs resume ptr at_buffer) ≡ (returned (n ∷ results), after)
      → call.ctx.err after.world ≡ none
      → n < 2 ^ 31
      → ptr + n ≤ length (contents after.memory)
      → (contents (with_inputs resume ptr at_buffer).memory
          ≡ splice ptr (inputs resume) (contents at_buffer.memory))
        × (exchange S L call inst m ≡ record {
          outcome = returns (false, ok (take n (drop ptr (contents after.memory))));
          err_set = false;
          machine = after;
        })
  unfolding exchange exchange_with buffer_found
  exchange-answers resume inst m at_buffer after get_buf_ptr run ptr n more results named has_get
        has_run got fits room small ran uncancelled low within =
      let at : ptr % 2 ^ 32 ≡ ptr = omega arith in
      (
        contents-with_inputs ptr at_buffer room small resume,
        rw
            (
              has_get,
              got,
              at,
              write_inputs-calls ptr at_buffer room small resume inst run named has_run fits,
              ran,
              uncancelled,
            )
            (response-in ptr n results after low within),
      )
