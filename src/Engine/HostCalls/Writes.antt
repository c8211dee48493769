-- ===== src/Engine/HostCalls/Writes.antt =====
-- What host_call_api writes to the guest's memory, on every branch.
use durable_wasm.Base.{
  ℕ, ◌+◌, ◌<◌, ◌≤◌, ◌^◌, ◌≡◌, sym, arith, Bool-cases, inl, inr, Bytes, Option, none, some, [], ◌==◌,
  bytes_eq, str, nat_eq, length, pos, splice, splice-nil,
}
use durable_wasm.Types.{Result, ok, err}
use durable_wasm.Store.{SnapshotStore}
use durable_wasm.Linear.{LinearMemory, IsLinear}
use durable_wasm.Linear.Whole.{read_all}
use durable_wasm.Session.{Machine}
use durable_wasm.Engine.HostCalls.{
  find_response, out_of_bounds, wraps, oplog_of, api_name_of, request_of, ApiCall, next_call,
  respond, replay_call, live_call, handled, after_log, call_api, host_call_api, too_long,
  test_response,
}
use durable_wasm.Engine.HostCalls.Bounds.{contents-respond}

-- Some bytes, no more than `limit`, are written at `ptr`, and nothing else.
abbrev pub Writes : ℕ → ℕ → Bytes → Bytes → Type 0
Writes ptr limit before after =
    (out : Bytes) × (length out ≤ limit) × (after ≡ splice ptr out before)

module _ (S : SnapshotStore) (L : LinearMemory) (lin : IsLinear L) {W : Type 0} (call : ApiCall)
    (ptr limit : ℕ) (at : call.resp_ptr ≡ pos ptr) (low : ptr < 2 ^ 31)
    (max_len : call.resp_max_len ≡ pos limit) where
  open lin use {contents}

  abbrev WritesOnly : Machine S L W → L.Mem → Type 0
  WritesOnly m mem = Writes ptr limit (contents m.memory) (contents mem)

  abbrev HasRoom : Machine S L W → Type 0
  HasRoom m = ptr + limit ≤ length (contents m.memory)

  unwritten : (m : Machine S L W) → WritesOnly m m.memory
  unwritten m = ([], omega arith, sym (splice-nil ptr (contents m.memory)))

  respond-WritesOnly :
      (response : Bytes) (m : Machine S L W)
      → HasRoom m
      → WritesOnly m (respond S L call response m).1.memory
  unfolding respond
  respond-WritesOnly response m room = elim (Bool-cases (too_long call.resp_max_len response)) [
    | inl long ↦ rw long (unwritten m)
    | inr fits ↦
        let short : length response ≤ limit = ground (arith, max_len, fits) in
        (response, short, contents-respond S L lin call response m ptr at low fits (omega arith))
  ]

  after_log-WritesOnly :
      (response : Bytes) (m : Machine S L W) (r : Result (Unit {0}) × S.State)
      → HasRoom m
      → WritesOnly m (after_log S L call response m r).1.memory
  unfolding after_log
  after_log-WritesOnly response m (err e, store) room = unwritten m
  after_log-WritesOnly response m (ok _, store) room =
      respond-WritesOnly response (record m { store = store }) room

  handled-WritesOnly :
      (name request : Bytes) (m : Machine S L W) (r : Result (Option Bytes) × W)
      → HasRoom m
      → WritesOnly m (handled S L call name request m r).1.memory
  unfolding handled
  handled-WritesOnly name request m (err e, world) room = unwritten m
  handled-WritesOnly name request m (ok none, world) room = unwritten m
  handled-WritesOnly name request m (ok (some response), world) room =
      after_log-WritesOnly response (record m { world = world }) _ room

  live_call-WritesOnly :
      (handler : Option (Bytes → Bytes → W → Result (Option Bytes) × W)) (name request : Bytes)
      (m : Machine S L W)
      → HasRoom m
      → WritesOnly m (live_call S L handler call name request m).1.memory
  unfolding live_call
  live_call-WritesOnly (some handler) name request m room = handled-WritesOnly name request m _ room
  live_call-WritesOnly none name request m room = elim (Bool-cases (name == str "test_api")) [
    | inl test ↦
        rw test (after_log-WritesOnly (test_response request m.session.call_index) m _ room)
    | inr other ↦ rw other (unwritten m)
  ]

  replay_call-WritesOnly :
      (found : Option Bytes) (name request : Bytes) (m : Machine S L W)
      → HasRoom m
      → WritesOnly m (replay_call S L found call name request m).1.memory
  unfolding replay_call
  replay_call-WritesOnly (some response) name request m room = respond-WritesOnly response m room
  replay_call-WritesOnly none name request m room =
      live_call-WritesOnly m.session.api_handler name request m room

  -- host_call_api, live, replayed or refused, writes to the guest's memory no more than `respMaxLen`
  -- bytes, from `respPtr` on, and leaves the rest of it as it was: if the response buffer lies in
  -- the memory and starts below 2 GiB.
  pub host_call_api-Writes :
      (m : Machine S L W) → HasRoom m → WritesOnly m (host_call_api S L call m).1.memory
  unfolding host_call_api call_api
  host_call_api-Writes m room =
      let bytes = contents m.memory in
      let n = next_call S L m in
      let name = api_name_of call bytes in
      let found = find_response n.session.call_index name (oplog_of S L n) in
      let called = replay_call-WritesOnly found name (request_of call bytes) n room in
      rw (read_all L lin m.memory, call_api)
        (elim (Bool-cases (out_of_bounds call.api_name_ptr call.api_name_len (length bytes))) [
          | inl outside ↦ rw outside (unwritten m)
          | inr inside ↦ elim (Bool-cases (wraps call.api_name_ptr call.api_name_len)) [
            | inl high ↦ rw (inside, high) (unwritten m)
            | inr low ↦ elim (Bool-cases (out_of_bounds call.req_ptr call.req_len (length bytes))) [
              | inl outside ↦ rw (inside, low, outside) (unwritten m)
              | inr inside' ↦ elim (Bool-cases (wraps call.req_ptr call.req_len)) [
                | inl high ↦ rw (inside, low, inside', high) (unwritten m)
                | inr low' ↦ rw (inside, low, inside', low') called
              ]
            ]
          ]
        ])
