-- ===== src/Guest/Calls.antt =====
-- CallAPI of a guest against the host's answer.
use durable_wasm.Base.{
  ℕ, ◌+◌, ◌^◌, ◌<◌, ◌≤◌, ◌≡◌, ◌∙◌, ap, refl, arith, false, Bytes, some, length, length-splice, take,
  drop, take-splice, pos, to_int32-eq,
}
use durable_wasm.Store.{SnapshotStore}
use durable_wasm.Store.Contract.{IsReliable}
use durable_wasm.Linear.{LinearMemory, IsLinear}
use durable_wasm.Session.{returns, Machine}
use durable_wasm.Engine.HostCalls.{ApiCall, respond, next_call, too_long}
use durable_wasm.Engine.HostCalls.Bounds.{contents-respond}
use durable_wasm.Engine.HostCalls.Replay.{host_call_api-replays, recorded, name_in, IsInBounds}
use durable_wasm.Guest.{api_call, call_api, call_result, own_bytes}

module _ (S : SnapshotStore) (L : LinearMemory) (lin : IsLinear L) {W : Type 0} where
  open lin use {contents}

  outcome-respond :
      (call : ApiCall) (response : Bytes) (m : Machine S L W)
      → too_long call.resp_max_len response ≡ false
      → length response < 2 ^ 31
      → (respond S L call response m).0 ≡ returns (pos (length response))
  unfolding respond
  outcome-respond call response m fits small =
      rw fits (ap returns (to_int32-eq (length response) small))

  call_result-respond :
      (call : ApiCall) (ptr : ℕ) (response : Bytes) (m : Machine S L W)
      → call.resp_ptr ≡ pos ptr
      → ptr < 2 ^ 31
      → call.resp_max_len ≡ pos 65536
      → length response ≤ 65536
      → ptr + length response ≤ length (contents m.memory)
      → (call_result S L ptr (respond S L call response m)).0 ≡ returns response
  unfolding call_result
  call_result-respond call ptr response m at low max fits room =
      let fitting : too_long call.resp_max_len response ≡ false = ground arith in
      let result = outcome-respond call response m fitting (omega arith) in
      let wrote = contents-respond S L lin call response m ptr at low fitting room in
      let mem = (respond S L call response m).1.memory in
      let same : length (contents mem) ≡ length (contents m.memory) =
        ap length wrote ∙ length-splice ptr response (contents m.memory) in
      rw (call_result, result)
        (ap (λ bytes. returns (own_bytes bytes))
          (lin.read_in mem ptr (length response) (omega arith)
            ∙ ap (λ xs. some (take (length response) (drop ptr xs))) wrote
            ∙ ap some (take-splice ptr response (contents m.memory) room)))

  -- A guest whose call has a recorded answer of at most 64 KiB gets exactly that answer, if the
  -- buffers that it passes lie in its memory, and that of the response below 2 GiB.
  pub call_api-recorded :
      (rel : IsReliable S) (name_ptr name_len req_ptr req_len ptr : ℕ) (response : Bytes)
      (m : Machine S L W)
      → let call = api_call name_ptr name_len req_ptr req_len ptr in
        IsInBounds S rel L lin call m
        → recorded S rel L lin m (name_in S rel L lin call m) ≡ some response
        → ptr < 2 ^ 31
        → length response ≤ 65536
        → ptr + length response ≤ length (contents m.memory)
        → (call_api S L call ptr m).0 ≡ returns response
  unfolding call_api next_call
  call_api-recorded rel name_ptr name_len req_ptr req_len ptr response m inside found low fits
        room =
      let call = api_call name_ptr name_len req_ptr req_len ptr in
      ap (λ r. (call_result S L ptr r).0)
        (host_call_api-replays S rel L lin call m response inside found)
      ∙ call_result-respond call ptr response (next_call S L m) (to_int32-eq ptr low) low refl fits
          room
