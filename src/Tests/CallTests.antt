-- ===== src/Tests/CallTests.antt =====
-- Calls of a guest, by name, over a memory of 16 bytes.
use durable_wasm.Base.{
  ℕ, ◌≡◌, refl, arith, str, [], ◌∷◌, bytes_eq, list_dec, nat_eq, lookup, pos, to_int32,
}
use durable_wasm.Types.{OplogEntry}
use durable_wasm.Store.Memory.{new_memory_snapshot_store}
use durable_wasm.Store.Memory.Refines.{reliable_memory, contents}
use durable_wasm.Session.{Machine, returns}
use durable_wasm.Engine.HostCalls.{
  ApiCall, host_call_api, host_get_time, respond, next_call, find_response, find_time,
}
use durable_wasm.Engine.HostCalls.Replay.{host_call_api-once, host_get_time-once}
use durable_wasm.Engine.HostCalls.Bounds.{IsAnswer, host_call_api-IsAnswer}
use durable_wasm.Engine.HostCalls.Writes.{Writes, host_call_api-Writes}
use durable_wasm.Guest.Builder.{with_payload, send, send-recorded}
use durable_wasm.Guest.Builder
use durable_wasm.Tests.ByteMemory.{byte_memory, linear_bytes}
use durable_wasm.Tests.Setup.{plain_json, store, id, small, small_memory, answer}

abbrev call : ApiCall
call = record {
  api_name_ptr = pos 0;
  api_name_len = pos 3;
  req_ptr = pos 3;
  req_len = pos 5;
  resp_ptr = pos 8;
  resp_max_len = pos 8;
}

host_call_api-IsAnswer_example : IsAnswer 16 8 (host_call_api store byte_memory call small).0
unfolding linear_bytes
host_call_api-IsAnswer_example =
    host_call_api-IsAnswer store byte_memory linear_bytes call 8 small refl (omega arith)

host_call_api-Writes_example :
    Writes 8 8 small_memory (host_call_api store byte_memory call small).1.memory
unfolding linear_bytes
host_call_api-Writes_example =
    host_call_api-Writes store byte_memory linear_bytes call 8 8 refl (omega arith) refl small
      (omega arith)

-- The same call in a session that finds the first one's log.
abbrev again : Machine store byte_memory ℕ
again = record small { store = (host_call_api store byte_memory call small).1.store; world = 7 }

host_call_api-once_example :
    host_call_api store byte_memory call again
    ≡ respond store byte_memory call (str "paid") (next_call store byte_memory again)
unfolding linear_bytes reliable_memory find_response contents lookup new_memory_snapshot_store
    bytes_eq list_dec nat_eq to_int32
host_call_api-once_example =
    host_call_api-once store (reliable_memory plain_json) byte_memory linear_bytes call call small
      again answer (str "paid") 1
      (record { name = refl; request = refl; name_low = refl; request_low = refl }) refl refl refl
      refl refl refl (record { name = refl; request = refl; name_low = refl; request_low = refl })
      refl

abbrev entry : OplogEntry
entry = record {
  call_index = 1;
  api_name = str "pay";
  request_payload = str "order";
  response_payload = str "done";
}

-- A session that finds the answer "done" on record.
abbrev logged : Machine store byte_memory ℕ
logged = record small {
  store = record new_memory_snapshot_store { oplogs = (id, entry ∷ []) ∷ [] };
}

send-recorded_example :
    (send store byte_memory (with_payload (str "order") (Builder.call (str "pay"))) 0 3 8 logged).0
    ≡ returns (str "done")
unfolding linear_bytes reliable_memory find_response contents lookup new_memory_snapshot_store
    bytes_eq list_dec nat_eq
send-recorded_example =
    send-recorded store (reliable_memory plain_json) byte_memory linear_bytes (str "pay")
      (str "order") (str "done") 0 3 8 logged
      (record { inside = omega arith; low = omega arith; stands = refl })
      (record { inside = omega arith; low = omega arith; stands = refl }) refl (omega arith)
      (omega arith) (omega arith)

abbrev later : Machine store byte_memory ℕ
later = record small { store = (host_get_time store byte_memory (pos 1000) small).1.store }

host_get_time-once_example :
    ((host_get_time store byte_memory (pos 1000) small).0 ≡ returns (pos 1000))
    × (host_get_time store byte_memory (pos 2000) later
        ≡ (returns (pos 1000), next_call store byte_memory later))
unfolding linear_bytes reliable_memory find_time contents lookup new_memory_snapshot_store
host_get_time-once_example =
    host_get_time-once store (reliable_memory plain_json) byte_memory linear_bytes (pos 1000)
      (pos 2000) small later (omega arith) refl refl refl refl
