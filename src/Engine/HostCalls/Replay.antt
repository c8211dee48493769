-- ===== src/Engine/HostCalls/Replay.antt =====
-- Replay from the oplog.
use mathlib.Core.Path.{ap₂}
use durable_wasm.Base.{
  ℕ, ◌+◌, ◌≡◌, ◌∙◌, refl, ap, arith, false, ◌&&◌, Bytes, str, Option, none, some, or_else, List, [],
  ◌∷◌, ◌++◌, ◌==◌, ==-refl, nat_eq, bytes_eq, length, if◌then◌else◌, ℤ,
}
use durable_wasm.Types.{Result, ok, OplogEntry}
use durable_wasm.Store.{SnapshotStore}
use durable_wasm.Store.View.{View, push_oplog}
use durable_wasm.Store.Contract.{IsReliable}
use durable_wasm.Linear.{LinearMemory, IsLinear}
use durable_wasm.Linear.Whole.{read_all}
use durable_wasm.Session.{returns, Machine, Run}
use durable_wasm.Engine.Decimal.{format_int, InInt64, parse_int-format_int}
use durable_wasm.Engine.HostCalls.{
  find_time, find_response, ApiCall, out_of_bounds, wraps, api_name_of, request_of, next_call,
  host_get_time, respond, replay_call, handled, after_log, call_api, host_call_api, oplog_of,
}

-- An entry at the end of the log is found if none before it fits.
find_response-push :
    (i : ℕ) (name : Bytes) (log : List OplogEntry) (entry : OplogEntry)
    → find_response i name (log ++ (entry ∷ []))
      ≡ or_else (find_response i name log) (
          if entry.call_index == i && entry.api_name == name
          then some entry.response_payload
          else none)
unfolding find_response or_else
find_response-push i name [] entry = refl
find_response-push i name (e ∷ log) entry = ground (arith, find_response-push i name log entry)

find_time-push :
    (i : ℕ) (log : List OplogEntry) (entry : OplogEntry)
    → find_time i (log ++ (entry ∷ [])) ≡ or_else (find_time i log) (find_time i (entry ∷ []))
unfolding find_time or_else
find_time-push i [] entry = refl
find_time-push i (e ∷ log) entry = ground (arith, find_time-push i log entry)

module _ (S : SnapshotStore) (rel : IsReliable S) (L : LinearMemory) (lin : IsLinear L)
    {W : Type 0} where
  open rel use {view}
  open lin use {contents}

  -- The oplog of the machine's instance.
  abbrev pub log_of : Machine S L W → List OplogEntry
  log_of m = (view m.store).oplog m.session.instance_id

  -- The answer that the log holds for the next call of this name.
  abbrev pub recorded : Machine S L W → Bytes → Option Bytes
  recorded m name = find_response (m.session.call_index + 1) name (log_of m)

  -- A call whose arguments lie in the memory, below 2 GiB.
  pub record IsInBounds (call : ApiCall) (m : Machine S L W) : Type 0 where
    pub name :
        out_of_bounds call.api_name_ptr call.api_name_len (length (contents m.memory)) ≡ false
    pub request : out_of_bounds call.req_ptr call.req_len (length (contents m.memory)) ≡ false
    pub name_low : wraps call.api_name_ptr call.api_name_len ≡ false
    pub request_low : wraps call.req_ptr call.req_len ≡ false

  abbrev pub name_in : ApiCall → Machine S L W → Bytes
  name_in call m = api_name_of call (contents m.memory)

  host_call_api-eq :
      (call : ApiCall) (m : Machine S L W)
      → IsInBounds call m
      → host_call_api S L call m
        ≡ replay_call S L
            (recorded m (name_in call m))
            call
            (name_in call m)
            (request_of call (contents m.memory))
            (next_call S L m)
  unfolding host_call_api oplog_of
  host_call_api-eq call m inside =
      rw
        (
          read_all L lin m.memory,
          call_api,
          inside.name,
          inside.name_low,
          inside.request,
          inside.request_low,
          rel.load_oplog_loads m.session.instance_id m.store,
        )
        refl

  -- A call whose name and request lie in the memory, and for which the log has an answer at the next
  -- call index under this name, gives that answer: the handler is not called and nothing is logged,
  -- whatever the request of this call.
  pub host_call_api-replays :
      (call : ApiCall) (m : Machine S L W) (response : Bytes)
      → IsInBounds call m
      → recorded m (name_in call m) ≡ some response
      → host_call_api S L call m ≡ respond S L call response (next_call S L m)
  unfolding replay_call
  host_call_api-replays call m response inside found =
      host_call_api-eq call m inside ∙ rw found refl

  store-respond :
      (call : ApiCall) (response : Bytes) (m : Machine S L W)
      → (respond S L call response m).1.store ≡ m.store
  unfolding respond
  store-respond call response m = ground arith

  -- What a live call logs.
  abbrev pub entry_for : Machine S L W → Bytes → Bytes → Bytes → OplogEntry
  entry_for m name request response = record {
    call_index = m.session.call_index + 1;
    api_name = name;
    request_payload = request;
    response_payload = response;
  }

  -- A call with no answer on record asks the handler once, logs its answer, and responds with it.
  pub host_call_api-live :
      (call : ApiCall) (m : Machine S L W) (handler : Bytes → Bytes → W → Result (Option Bytes) × W)
      (response : Bytes) (world : W)
      → IsInBounds call m
      → recorded m (name_in call m) ≡ none
      → m.session.api_handler ≡ some handler
      → handler (name_in call m) (request_of call (contents m.memory)) m.world
        ≡ (ok (some response), world)
      → (store : S.State) × (host_call_api S L call m
          ≡ respond S L call response (record (next_call S L m) { store = store; world = world }))
        × (view store
            ≡ push_oplog m.session.instance_id
                (entry_for m (name_in call m) (request_of call (contents m.memory)) response)
                (view m.store))
  unfolding replay_call next_call
  host_call_api-live call m handler response world inside missing configured answered =
      let entry = entry_for m (name_in call m) (request_of call (contents m.memory)) response in
      let (done, seen) = rel.save_oplog_writes m.session.instance_id entry m.store in
      (
        (S.save_oplog m.session.instance_id entry m.store).1,
        host_call_api-eq call m inside
            ∙ rw (missing, configured, answered, handled, done, after_log) refl,
        seen,
      )

  -- The log of a machine whose store has one entry more.
  log-pushed :
      (m m' : Machine S L W) (entry : OplogEntry)
      → view m'.store ≡ push_oplog m.session.instance_id entry (view m.store)
      → m'.session.instance_id ≡ m.session.instance_id
      → log_of m' ≡ log_of m ++ (entry ∷ [])
  log-pushed m m' entry seen same_id =
      ap₂ (λ (v : View) (id : Bytes). v.oplog id) seen same_id
      ∙ rw (==-refl m.session.instance_id) refl

  -- The answer of a live call is on record for every session that makes the call at this index.
  recorded-pushed :
      (m m' : Machine S L W) (name request response : Bytes)
      → recorded m name ≡ none
      → view m'.store
        ≡ push_oplog m.session.instance_id (entry_for m name request response) (view m.store)
      → m'.session.instance_id ≡ m.session.instance_id
      → m'.session.call_index ≡ m.session.call_index
      → recorded m' name ≡ some response
  unfolding or_else
  recorded-pushed m m' name request response missing seen same_id same_index =
      let entry = entry_for m name request response in
      ap₂ (λ (i : ℕ) (log : List OplogEntry). find_response (i + 1) name log) same_index
        (log-pushed m m' entry seen same_id)
      ∙ find_response-push (m.session.call_index + 1) name (log_of m) entry
      ∙ rw (missing, ==-refl (m.session.call_index + 1), ==-refl name) refl

  -- An API call that the handler has answered is not made again: a session that comes to the same
  -- call index and the same API name, on the store that the first call left, gives the guest the
  -- same answer without the handler, whatever its request and the state of the world. The arguments
  -- of both calls lie in the memory, below 2 GiB, and the log had no answer before the first.
  pub host_call_api-once :
      (call call' : ApiCall) (m m' : Machine S L W)
      (handler : Bytes → Bytes → W → Result (Option Bytes) × W) (response : Bytes) (world : W)
      → IsInBounds call m
      → recorded m (name_in call m) ≡ none
      → m.session.api_handler ≡ some handler
      → handler (name_in call m) (request_of call (contents m.memory)) m.world
        ≡ (ok (some response), world)
      → m'.store ≡ (host_call_api S L call m).1.store
      → m'.session.instance_id ≡ m.session.instance_id
      → m'.session.call_index ≡ m.session.call_index
      → IsInBounds call' m'
      → name_in call' m' ≡ name_in call m
      → host_call_api S L call' m' ≡ respond S L call' response (next_call S L m')
  host_call_api-once call call' m m' handler response world inside missing configured answered
        same_store same_id same_index inside' same_name =
      let (store, result, seen) =
        host_call_api-live call m handler response world inside missing configured answered in
      host_call_api-replays call' m' response inside' (
        rw same_name (
          recorded-pushed m m' (name_in call m) _ response missing
            (ap view (
                same_store
                ∙ ap (λ (r : Run S L W ℤ). r.1.store) result
                ∙ store-respond call response _)
              ∙ seen)
            same_id same_index))

  time_entry : Machine S L W → ℤ → OplogEntry
  time_entry m now = record {
    call_index = m.session.call_index + 1;
    api_name = str "host_get_time";
    request_payload = [];
    response_payload = format_int now;
  }

  find_time-entry :
      (m : Machine S L W) (now : ℤ)
      → InInt64 now
      → find_time (m.session.call_index + 1) (time_entry m now ∷ []) ≡ some now
  unfolding find_time time_entry
  find_time-entry m now fits = rw (
    ==-refl (m.session.call_index + 1),
    ==-refl (str "host_get_time"),
    parse_int-format_int now fits,
  )

  host_get_time-live :
      (now : ℤ) (m : Machine S L W)
      → find_time (m.session.call_index + 1) (log_of m) ≡ none
      → ((host_get_time S L now m).0 ≡ returns now)
        × (view (host_get_time S L now m).1.store
            ≡ push_oplog m.session.instance_id (time_entry m now) (view m.store))
  unfolding host_get_time oplog_of time_entry
  host_get_time-live now m missing =
      rw (rel.load_oplog_loads m.session.instance_id m.store, missing)
        (refl, (rel.save_oplog_writes m.session.instance_id (time_entry m now) m.store).1)

  host_get_time-replays :
      (now : ℤ) (m : Machine S L W) (value : ℤ)
      → find_time (m.session.call_index + 1) (log_of m) ≡ some value
      → host_get_time S L now m ≡ (returns value, next_call S L m)
  unfolding host_get_time
  host_get_time-replays now m value found =
      rw (rel.load_oplog_loads m.session.instance_id m.store, found) refl

  -- A time that fits 64 bits, and that a session was given with none on record, is the time that
  -- every session is given at this call index, on the store that the first call left.
  pub host_get_time-once :
      (now now' : ℤ) (m m' : Machine S L W)
      → InInt64 now
      → find_time (m.session.call_index + 1) (log_of m) ≡ none
      → m'.store ≡ (host_get_time S L now m).1.store
      → m'.session.instance_id ≡ m.session.instance_id
      → m'.session.call_index ≡ m.session.call_index
      → ((host_get_time S L now m).0 ≡ returns now)
        × (host_get_time S L now' m' ≡ (returns now, next_call S L m'))
  unfolding or_else host_get_time
  host_get_time-once now now' m m' fits missing same_store same_id same_index =
      let (result, seen) = host_get_time-live now m missing in
      let entry = time_entry m now in
      let found : find_time (m'.session.call_index + 1) (log_of m') ≡ some now =
        ap₂ (λ (i : ℕ) (log : List OplogEntry). find_time (i + 1) log) same_index
          (log-pushed m m' entry (ap view same_store ∙ seen) same_id)
        ∙ find_time-push (m.session.call_index + 1) (log_of m) entry
        ∙ rw missing (find_time-entry m now fits) in
      (result, host_get_time-replays now' m' now found)
