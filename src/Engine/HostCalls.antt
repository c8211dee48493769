-- ===== src/Engine/HostCalls.antt =====
-- wasman.go: the host functions `host_get_time` and `host_call_api` that the guest imports from
-- `env`. Each logs what it answers, and answers from the log where it finds an entry.
pub mod Replay
pub mod Bounds
pub mod Writes
use Prim.Native.String.{String}
use durable_wasm.Base.{
  ℕ, zero, suc, ◌+◌, ◌^◌, ◌<◌, Bool, true, false, ◌&&◌, ◌||◌, Bytes, str, Option, none, some, List,
  [], ◌∷◌, ◌++◌, ◌==◌, nat_eq, bytes_eq, length, take, drop, leb, ltb, if◌then◌else◌, ℤ, pos,
  negsuc, is_neg, pos_part, to_int32, to_uint32,
}
use durable_wasm.Types.{Error, Result, ok, err, OplogEntry}
use durable_wasm.Store.{SnapshotStore}
use durable_wasm.Linear.{LinearMemory}
use durable_wasm.Session.{Session, Outcome, returns, panics, Machine, Run}
use durable_wasm.Engine.Decimal.{format_int, parse_int, format_nat}

-- The loop of host_get_time over the oplog: an entry whose payload is no number is passed over.
unfoldable pub find_time : ℕ → List OplogEntry → Option ℤ
find_time call_index [] = none
find_time call_index (entry ∷ oplog) =
    let rest = find_time call_index oplog in
    if entry.call_index == call_index && entry.api_name == str "host_get_time"
    then (elim (parse_int entry.response_payload) [ some value ↦ some value | none ↦ rest ])
    else rest

-- The loop of host_call_api over the oplog.
unfoldable pub find_response : ℕ → Bytes → List OplogEntry → Option Bytes
find_response call_index api_name [] = none
find_response call_index api_name (entry ∷ oplog) =
    let rest = find_response call_index api_name oplog in
    if entry.call_index == call_index && entry.api_name == api_name
    then some entry.response_payload
    else rest

-- The entries, or none where the load failed: then nothing is replayed.
abbrev entries : Result (List OplogEntry) → List OplogEntry
entries (ok oplog) = oplog
entries (err e) = []

-- The arguments of host_call_api, each an int32.
pub record ApiCall : Type 0 where
  pub api_name_ptr : ℤ
  pub api_name_len : ℤ
  pub req_ptr : ℤ
  pub req_len : ℤ
  pub resp_ptr : ℤ
  pub resp_max_len : ℤ

-- `ptr < 0 || length < 0 || int(ptr)+int(length) > size`
abbrev pub out_of_bounds : ℤ → ℤ → ℕ → Bool
out_of_bounds ptr len size = is_neg ptr || is_neg len || ltb size (pos_part ptr + pos_part len)

-- Whether the int32 sum `ptr+length` wraps around to a negative number, for arguments that are not
-- negative. A slice with that bound panics.
abbrev pub wraps : ℤ → ℤ → Bool
wraps ptr len = leb (2 ^ 31) (pos_part ptr + pos_part len)

-- `memoryBytes[ptr : ptr+length]`
abbrev pub slice : ℤ → ℤ → Bytes → Bytes
slice ptr len bytes = take (pos_part len) (drop (pos_part ptr) bytes)

abbrev pub api_name_of : ApiCall → Bytes → Bytes
api_name_of call bytes = slice call.api_name_ptr call.api_name_len bytes

abbrev pub request_of : ApiCall → Bytes → Bytes
request_of call bytes = slice call.req_ptr call.req_len bytes

-- `int(respMaxLen) < len(response)`
abbrev pub too_long : ℤ → Bytes → Bool
too_long max_len response = is_neg max_len || ltb (pos_part max_len) (length response)

-- `fmt.Sprintf("resp_for_%s_call_%d", request, callIdx)`
unfoldable pub test_response : Bytes → ℕ → Bytes
test_response request call_index =
    str "resp_for_" ++ (request ++ (str "_call_" ++ format_nat call_index))

module _ (S : SnapshotStore) (L : LinearMemory) {W : Type 0} where
  -- `s.callIndex++`
  unfoldable pub next_call : Machine S L W → Machine S L W
  next_call m = record m { session = record m.session { call_index = m.session.call_index + 1 } }

  oplog_of : Machine S L W → List OplogEntry
  oplog_of m = entries (S.load_oplog m.session.instance_id m.store)

  -- `time.Now()` is `now`. An error of SaveOplog is logged and dropped.
  live_time : ℤ → Machine S L W → Run S L W ℤ
  live_time now m =
      let entry : OplogEntry = record {
        call_index = m.session.call_index;
        api_name = str "host_get_time";
        request_payload = [];
        response_payload = format_int now;
      } in
      (returns now, record m { store = (S.save_oplog m.session.instance_id entry m.store).1 })

  replay_time : ℤ → Option ℤ → Machine S L W → Run S L W ℤ
  replay_time now (some value) m = (returns value, m)
  replay_time now none m = live_time now m

  unfoldable pub host_get_time : ℤ → Machine S L W → Run S L W ℤ
  unfolding next_call oplog_of live_time replay_time
  host_get_time now m =
      let m' = next_call m in replay_time now (find_time m'.session.call_index (oplog_of m')) m'

  -- The bounds check of the response, the write and the result: -2 if the buffer is too small.
  -- The result of the write is not looked at.
  unfoldable pub respond : ApiCall → Bytes → Machine S L W → Run S L W ℤ
  respond call response m =
      if too_long call.resp_max_len response then (returns (negsuc 1), m) else (
        returns (to_int32 (length response)),
        record m { memory = (L.write m.memory (to_uint32 call.resp_ptr) response).1 },
      )

  -- The save to the oplog comes before the check of the response buffer.
  after_log : ApiCall → Bytes → Machine S L W → Result (Unit {0}) × S.State → Run S L W ℤ
  after_log call response m (err e, store) = (returns (negsuc 0), record m { store = store })
  after_log call response m (ok _, store) = respond call response (record m { store = store })

  log_response : ApiCall → Bytes → Bytes → Bytes → Machine S L W → Run S L W ℤ
  unfolding after_log respond
  log_response call api_name request response m =
      let entry : OplogEntry = record {
        call_index = m.session.call_index;
        api_name = api_name;
        request_payload = request;
        response_payload = response;
      } in
      after_log call response m (S.save_oplog m.session.instance_id entry m.store)

  -- What the handler answered: an error and a nil response both give -1.
  handled : ApiCall → Bytes → Bytes → Machine S L W → Result (Option Bytes) × W → Run S L W ℤ
  unfolding log_response
  handled call api_name request m (err e, world) = (returns (negsuc 0), record m { world = world })
  handled call api_name request m (ok none, world) =
      (returns (negsuc 0), record m { world = world })
  handled call api_name request m (ok (some response), world) =
      log_response call api_name request response (record m { world = world })

  -- The real operation. Without a handler only "test_api" is answered.
  live_call :
      Option (Bytes → Bytes → W → Result (Option Bytes) × W)
      → ApiCall
      → Bytes
      → Bytes
      → Machine S L W
      → Run S L W ℤ
  unfolding handled test_response
  live_call (some handler) call api_name request m =
      handled call api_name request m (handler api_name request m.world)
  live_call none call api_name request m =
      if api_name == str "test_api"
      then log_response call api_name request (test_response request m.session.call_index) m
      else (returns (negsuc 0), m)

  replay_call : Option Bytes → ApiCall → Bytes → Bytes → Machine S L W → Run S L W ℤ
  unfolding live_call
  replay_call (some response) call api_name request m = respond call response m
  replay_call none call api_name request m = live_call m.session.api_handler call api_name request m

  -- The call index goes up only after the arguments have passed the bounds checks.
  call_api : ApiCall → Option Bytes → Machine S L W → Run S L W ℤ
  unfolding next_call oplog_of replay_call
  call_api call none m = (returns (negsuc 0), m)
  call_api call (some bytes) m =
      if out_of_bounds call.api_name_ptr call.api_name_len (length bytes)
      then (returns (negsuc 0), m)
      else if wraps call.api_name_ptr call.api_name_len
      then (panics "slice bounds out of range", m)
      else if out_of_bounds call.req_ptr call.req_len (length bytes)
      then (returns (negsuc 0), m)
      else if wraps call.req_ptr call.req_len
      then (panics "slice bounds out of range", m)
      else let m' = next_call m in
        let api_name = api_name_of call bytes in
        replay_call (find_response m'.session.call_index api_name (oplog_of m')) call api_name
          (request_of call bytes) m'

  unfoldable pub host_call_api : ApiCall → Machine S L W → Run S L W ℤ
  unfolding call_api
  host_call_api call m = call_api call (L.read m.memory 0 (L.size m.memory)) m
