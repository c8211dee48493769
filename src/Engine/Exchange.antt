-- ===== src/Engine/Exchange.antt =====
-- wasman.go: what RunBPMN does with a module instance: the inputs are written to an exchange buffer in
-- its memory, and the response is read from there.
pub mod Inputs
use Prim.Native.String.{String}
use durable_wasm.Base.{
  ℕ, ◌+◌, ◌%◌, ◌^◌, Bool, true, false, Bytes, str, Option, none, some, List, [], ◌∷◌, ◌==◌,
  bytes_eq, nat_eq, if◌then◌else◌, length, ltb, to_int32, to_uint32, ℤ, pos, negsuc,
}
use durable_wasm.Types.{Error, text, wrapped, call_failed, Result, ok, err, InstanceMeta}
use durable_wasm.Store.{SnapshotStore}
use durable_wasm.Linear.{LinearMemory}
use durable_wasm.Session.{Session, Outcome, returns, fails, panics, Machine, Run}
use durable_wasm.Context.{Context, get_api_handler, get_download_handler, get_upload_handler}
use durable_wasm.Engine.Execute.{CallEnd, returned, stopped, Instance, exits_well}

-- The arguments of RunBPMN.
pub record BpmnCall (W : Type 0) : Type 0 where
  pub ctx : Context W
  pub instance_id : Bytes
  pub entrypoint : Bytes
  pub graph_bytes : Bytes
  pub input_bytes : Bytes
  pub completed_task_id : Bytes
  pub server_addr : Bytes

-- Whether a simulated crash occurred, and the response or an error.
abbrev pub Answer : Type 0
Answer = Bool × Result Bytes

-- How the part of RunBPMN on a module instance ends. Whether `err` of the function is set is what its
-- deferred function looks at.
pub record Ended (S : SnapshotStore) (L : LinearMemory) (W : Type 0) : Type 0 where
  pub outcome : Outcome Answer
  pub err_set : Bool
  pub machine : Machine S L W

abbrev has_failed : CallEnd → Bool
has_failed (returned results) = false
has_failed (stopped exit reason) = true

-- 1024 * 1024
abbrev pub buffer_limit : ℕ
buffer_limit = 1048576

module _ (S : SnapshotStore) (L : LinearMemory) {W : Type 0} where
  abbrev answers : Answer → Machine S L W → Ended S L W
  answers answer m = record { outcome = returns answer; err_set = false; machine = m }

  -- `return false, nil, fmt.Errorf(…)`, which leaves `err` as it is.
  abbrev refuses : Error → Machine S L W → Ended S L W
  refuses e m = answers (false, err e) m

  -- `mem.Read(bufPtr, uint32(resultLen))`
  response : Option Bytes → Machine S L W → Ended S L W
  response none m = refuses (text "failed to read response bytes from WASM exchange buffer") m
  response (some bytes) m = answers (false, ok bytes) m

  -- `resultLen := int32(callRes[0])`
  read_response : ℕ → ℤ → Machine S L W → Ended S L W
  unfolding response
  read_response buf_ptr (negsuc n) m = refuses (text "WASM core execution failed with error code") m
  read_response buf_ptr (pos n) m = response (L.read m.memory buf_ptr (to_uint32 (pos n))) m

  returned_results : ℕ → List ℕ → Machine S L W → Ended S L W
  unfolding read_response
  returned_results buf_ptr [] m = refuses (text "WASM call returned no results") m
  returned_results buf_ptr (result ∷ results) m = read_response buf_ptr (to_int32 result) m

  -- An error of the call is in `err`, also where the exit code is 0; such a call has no results.
  abbrev failing : Answer → Machine S L W → Ended S L W
  failing answer m = record { outcome = returns answer; err_set = true; machine = m }

  end_call : ℕ → CallEnd → Machine S L W → Ended S L W
  unfolding returned_results
  end_call buf_ptr (returned results) m = returned_results buf_ptr results m
  end_call buf_ptr (stopped exit reason) m =
      if exits_well exit
      then failing (false, err (text "WASM call returned no results")) m
      else if m.session.crashed
      then failing (true, err (call_failed reason)) m
      else failing (false, err (wrapped "WASM call failed" (call_failed reason))) m

  -- A context that is done comes first.
  after_call : Option Error → ℕ → CallEnd → Machine S L W → Ended S L W
  unfolding end_call
  after_call (some cancelled) buf_ptr end m = record {
    outcome = returns (false, err cancelled);
    err_set = has_failed end;
    machine = m;
  }
  after_call none buf_ptr end m = end_call buf_ptr end m

  call_function :
      BpmnCall W
      → ℕ
      → String
      → Option (List ℕ → Machine S L W → CallEnd × Machine S L W)
      → List ℕ
      → Machine S L W
      → Ended S L W
  unfolding after_call
  call_function call buf_ptr missing none params m = refuses (text missing) m
  call_function call buf_ptr missing (some run_func) params m =
      let called = run_func params m in
      after_call (call.ctx.err called.1.world) buf_ptr called.0 called.1

  -- `mem.Write(bufPtr + offset, bytes)`: the sum of uint32 wraps around.
  abbrev pub put : ℕ → ℕ → Bytes → Machine S L W → Bool × Machine S L W
  put buf_ptr offset bytes m =
      let r = L.write m.memory ((buf_ptr + offset) % 2 ^ 32) bytes in
      (r.0, record m { memory = r.1 })

  resume_call :
      BpmnCall W
      → ℕ
      → (List ℕ → Machine S L W → CallEnd × Machine S L W)
      → Bool × Machine S L W
      → Ended S L W
  unfolding call_function
  resume_call call buf_ptr run_func (false, m) =
      refuses (text "failed to write completed task ID to WASM memory") m
  resume_call call buf_ptr run_func (true, m) =
      let offset = (length call.graph_bytes + length call.input_bytes) % 2 ^ 32 in
      call_function call buf_ptr "resume function not found in WASM VM" (some run_func)
        (length call.graph_bytes
          ∷ (length call.input_bytes ∷ (offset ∷ (length call.completed_task_id ∷ []))))
        m

  -- The function is looked up before the id of the task is written.
  find_resume :
      BpmnCall W
      → ℕ
      → Option (List ℕ → Machine S L W → CallEnd × Machine S L W)
      → Machine S L W
      → Ended S L W
  unfolding resume_call
  find_resume call buf_ptr none m = refuses (text "resume function not found in WASM VM") m
  find_resume call buf_ptr (some run_func) m =
      let offset = (length call.graph_bytes + length call.input_bytes) % 2 ^ 32 in
      resume_call call buf_ptr run_func (put buf_ptr offset call.completed_task_id m)

  run_entrypoint : BpmnCall W → Instance S L W → ℕ → Machine S L W → Ended S L W
  unfolding call_function find_resume
  run_entrypoint call inst buf_ptr m =
      if call.entrypoint == str "execute"
      then call_function call buf_ptr "execute function not found in WASM VM"
          (inst.exported (str "execute")) (length call.graph_bytes ∷ (length call.input_bytes ∷ []))
          m
      else if call.entrypoint == str "resume"
      then find_resume call buf_ptr (inst.exported (str "resume")) m
      else refuses (text "invalid entrypoint for RunBPMN") m

  wrote_input : BpmnCall W → Instance S L W → ℕ → Bool × Machine S L W → Ended S L W
  unfolding run_entrypoint
  wrote_input call inst buf_ptr (false, m) =
      refuses (text "failed to write input state to WASM memory") m
  wrote_input call inst buf_ptr (true, m) = run_entrypoint call inst buf_ptr m

  wrote_graph : BpmnCall W → Instance S L W → ℕ → Bool × Machine S L W → Ended S L W
  unfolding wrote_input
  wrote_graph call inst buf_ptr (false, m) =
      refuses (text "failed to write graph definition to WASM memory") m
  wrote_graph call inst buf_ptr (true, m) =
      wrote_input call inst buf_ptr
        (put buf_ptr (length call.graph_bytes % 2 ^ 32) call.input_bytes m)

  abbrev pub total_len : BpmnCall W → ℕ
  total_len call =
      length call.graph_bytes + (length call.input_bytes + length call.completed_task_id)

  write_inputs : BpmnCall W → Instance S L W → ℕ → Machine S L W → Ended S L W
  unfolding wrote_graph
  write_inputs call inst buf_ptr m =
      if ltb buffer_limit (total_len call)
      then refuses (text "inputs size exceeds WASM exchange buffer limit of 1MB") m
      else wrote_graph call inst buf_ptr (put buf_ptr 0 call.graph_bytes m)

  -- `resPtr[0]` of no results is a panic.
  buffer_found : BpmnCall W → Instance S L W → CallEnd × Machine S L W → Ended S L W
  unfolding write_inputs
  buffer_found call inst (stopped exit reason, m) =
      failing
        (false, err (wrapped "failed to call get_exchange_buffer_pointer" (call_failed reason))) m
  buffer_found call inst (returned [], m) = record {
    outcome = panics "index out of range";
    err_set = false;
    machine = m;
  }
  buffer_found call inst (returned (ptr ∷ results), m) = write_inputs call inst (ptr % 2 ^ 32) m

  exchange_with :
      BpmnCall W
      → Instance S L W
      → Option (List ℕ → Machine S L W → CallEnd × Machine S L W)
      → Machine S L W
      → Ended S L W
  unfolding buffer_found
  exchange_with call inst none m =
      refuses (text "get_exchange_buffer_pointer function not found in WASM VM") m
  exchange_with call inst (some get_buf_ptr) m = buffer_found call inst (get_buf_ptr [] m)

  -- From the exchange buffer to the response.
  unfoldable pub exchange : BpmnCall W → Instance S L W → Machine S L W → Ended S L W
  unfolding exchange_with
  exchange call inst m =
      exchange_with call inst (inst.exported (str "get_exchange_buffer_pointer")) m

  -- After the restoration of a new module instance.
  unfoldable pub after_restore : BpmnCall W → Instance S L W → Run S L W (Unit {0}) → Ended S L W
  unfolding exchange
  after_restore call inst (returns _, m) = exchange call inst m
  after_restore call inst (fails failure, m) = refuses failure m
  after_restore call inst (panics reason, m) = record {
    outcome = panics reason;
    err_set = false;
    machine = m;
  }
