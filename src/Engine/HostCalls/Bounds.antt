-- ===== src/Engine/HostCalls/Bounds.antt =====
-- The result of host_call_api, and what it writes to the guest's memory.
use durable_wasm.Base.{
  ℕ, ◌+◌, ◌<◌, ◌≤◌, ◌^◌, ◌≡◌, refl, arith, false, Bool-cases, inl, inr, Bytes, Option, none, some,
  ◌==◌, bytes_eq, str, nat_eq, length, ℤ, pos, negsuc, to_int32-eq, to_uint32-eq, splice,
}
use durable_wasm.Types.{Result, ok, err}
use durable_wasm.Store.{SnapshotStore}
use durable_wasm.Linear.{LinearMemory, IsLinear}
use durable_wasm.Linear.Whole.{read_all}
use durable_wasm.Session.{Outcome, returns, fails, panics, Machine}
use durable_wasm.Engine.HostCalls.{
  find_response, out_of_bounds, wraps, oplog_of, api_name_of, request_of, ApiCall, next_call,
  respond, replay_call, live_call, handled, after_log, call_api, host_call_api, too_long,
  test_response,
}

-- The call ends with a length that fits the guest's buffer, with one of the error codes -1, -2, or, in
-- a memory of 2 GiB or more, with a panic.
abbrev pub IsAnswer : ℕ → ℕ → Outcome ℤ → Type 0
IsAnswer size limit (returns (pos n)) = n ≤ limit
IsAnswer size limit (returns (negsuc n)) = n ≤ 1
IsAnswer size limit (fails e) = ⊥
IsAnswer size limit (panics reason) = 2 ^ 31 ≤ size

module _ (S : SnapshotStore) (L : LinearMemory) {W : Type 0} (call : ApiCall) (size limit : ℕ)
    (max_len : call.resp_max_len ≡ pos limit) (small : limit < 2 ^ 31) where
  respond-IsAnswer :
      (response : Bytes) (m : Machine S L W) → IsAnswer size limit (respond S L call response m).0
  unfolding respond
  respond-IsAnswer response m = ground (arith, to_int32-eq (length response))

  after_log-IsAnswer :
      (response : Bytes) (m : Machine S L W) (r : Result (Unit {0}) × S.State)
      → IsAnswer size limit (after_log S L call response m r).0
  unfolding after_log
  after_log-IsAnswer response m (err e, store) = omega arith
  after_log-IsAnswer response m (ok _, store) = respond-IsAnswer response _

  handled-IsAnswer :
      (name request : Bytes) (m : Machine S L W) (r : Result (Option Bytes) × W)
      → IsAnswer size limit (handled S L call name request m r).0
  unfolding handled
  handled-IsAnswer name request m (err e, world) = omega arith
  handled-IsAnswer name request m (ok none, world) = omega arith
  handled-IsAnswer name request m (ok (some response), world) =
      after_log-IsAnswer response (record m { world = world }) _

  live_call-IsAnswer :
      (handler : Option (Bytes → Bytes → W → Result (Option Bytes) × W)) (name request : Bytes)
      (m : Machine S L W)
      → IsAnswer size limit (live_call S L handler call name request m).0
  unfolding live_call
  live_call-IsAnswer (some handler) name request m = handled-IsAnswer name request m _
  live_call-IsAnswer none name request m = elim (Bool-cases (name == str "test_api")) [
    | inl test ↦ rw test (after_log-IsAnswer (test_response request m.session.call_index) m _)
    | inr other ↦ rw other (omega arith)
  ]

  replay_call-IsAnswer :
      (found : Option Bytes) (name request : Bytes) (m : Machine S L W)
      → IsAnswer size limit (replay_call S L found call name request m).0
  unfolding replay_call
  replay_call-IsAnswer (some response) name request m = respond-IsAnswer response m
  replay_call-IsAnswer none name request m = live_call-IsAnswer m.session.api_handler name request m

  call_api-IsAnswer :
      (bytes : Bytes) (m : Machine S L W)
      → length bytes ≡ size
      → IsAnswer size limit (call_api S L call (some bytes) m).0
  unfolding call_api
  call_api-IsAnswer bytes m whole =
      let n = next_call S L m in
      let name = api_name_of call bytes in
      elim (Bool-cases (out_of_bounds call.api_name_ptr call.api_name_len (length bytes))) [
        | inl outside ↦ rw outside (omega arith)
        | inr inside ↦ elim (Bool-cases (wraps call.api_name_ptr call.api_name_len)) [
          | inl high ↦ rw (inside, high) (ground (arith, whole))
          | inr low ↦ elim (Bool-cases (out_of_bounds call.req_ptr call.req_len (length bytes))) [
            | inl outside ↦ rw (inside, low, outside) (omega arith)
            | inr inside' ↦ elim (Bool-cases (wraps call.req_ptr call.req_len)) [
              | inl high ↦ rw (inside, low, inside', high) (ground (arith, whole))
              | inr low' ↦
                  rw (inside, low, inside', low')
                    (replay_call-IsAnswer (find_response n.session.call_index name (oplog_of S L n))
                      name (request_of call bytes) n)
            ]
          ]
        ]
      ]

-- host_call_api, whatever its pointers, and whatever the store and the handler answer, gives -1 or
-- -2, or a length of at most `respMaxLen`, with a response buffer of less than 2 GiB; only in a
-- guest's memory of 2 GiB or more can it panic instead.
pub host_call_api-IsAnswer :
    (S : SnapshotStore) (L : LinearMemory) (lin : IsLinear L) {W : Type 0} (call : ApiCall)
    (limit : ℕ) (m : Machine S L W)
    → call.resp_max_len ≡ pos limit
    → limit < 2 ^ 31
    → IsAnswer (length (lin.contents m.memory)) limit (host_call_api S L call m).0
unfolding host_call_api
host_call_api-IsAnswer S L lin call limit m max_len small = rw (read_all L lin m.memory) (
    call_api-IsAnswer S L call (length (lin.contents m.memory)) limit max_len small
      (lin.contents m.memory) m refl)

-- A response that fits the guest's buffer stands in the guest's memory at `respPtr` afterwards, and
-- the rest of the memory is as before: if the buffer lies in the memory, below 2 GiB.
pub contents-respond :
    (S : SnapshotStore) (L : LinearMemory) (lin : IsLinear L) {W : Type 0} (call : ApiCall)
    (response : Bytes) (m : Machine S L W) (ptr : ℕ)
    → call.resp_ptr ≡ pos ptr
    → ptr < 2 ^ 31
    → too_long call.resp_max_len response ≡ false
    → ptr + length response ≤ length (lin.contents m.memory)
    → lin.contents (respond S L call response m).1.memory
      ≡ splice ptr response (lin.contents m.memory)
unfolding respond
contents-respond S L lin call response m ptr at small fits room =
    rw (fits, at, to_uint32-eq ptr (omega arith)) (lin.write_in m.memory ptr response room).1
