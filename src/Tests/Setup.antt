-- ===== src/Tests/Setup.antt =====
-- Sessions, metadata and machines that the tests share.
use durable_wasm.Base.{
  true, ℕ, ◌+◌, ◌≡◌, false, Bytes, str, Option, none, some, [], ◌++◌, length, length-replicate,
  replicate,
}
use durable_wasm.Types.{Error, Result, ok, InstanceMeta}
use durable_wasm.Store.{SnapshotStore}
use durable_wasm.Store.Memory.{IndexJson, memory_store, new_memory_snapshot_store}
use durable_wasm.Linear.{page_size}
use durable_wasm.Session.{Session, Machine}
use durable_wasm.Tests.ByteMemory.{byte_memory}

-- Objects that are their id, and an index that is lost when it is written.
abbrev pub plain_json : IndexJson
plain_json = record {
  Info = Bytes;
  instance_id = λ info. some info;
  decode_info = λ info. some info;
  decode_index = λ index. none;
  encode_index = λ index. str "[]";
}

abbrev pub store : SnapshotStore
store = memory_store plain_json

abbrev pub id : Bytes
id = str "order"

abbrev pub meta_at : ℕ → InstanceMeta
meta_at version = record {
  instance_id = id;
  wasm_hash = str "h1";
  version = version;
  etag = [];
  process_id = [];
  definition_hash = [];
  business_key = [];
  bpmn_state = [];
  completed = false;
}

-- The world is the number of calls that the handlers have answered.
abbrev pub answer : Bytes → Bytes → ℕ → Result (Option Bytes) × ℕ
answer api_name request calls = (ok (some (str "paid")), calls + 1)

abbrev pub content : Bytes
content = str "hello"

abbrev pub download : ℕ → Result Bytes × ℕ
download calls = (ok content, calls + 1)

abbrev pub accept : Bytes → ℕ → Option Error × ℕ
accept payload calls = (none, calls + length payload)

abbrev pub session_at : ℕ → Session ℕ
session_at version = record {
  engine_hash = str "h2";
  instance_id = id;
  server_addr = [];
  should_crash_on_checkpoint = false;
  crashed = false;
  meta = meta_at version;
  page_hashes = [];
  hashes_made = true;
  call_index = 0;
  upload_buffer = [];
  download_eof = false;
  api_handler = some answer;
  download_handler = some download;
  upload_handler = some accept;
  download_reader = none;
}

-- "pay", then 5 bytes of a request, then room for a response.
abbrev pub small_memory : Bytes
small_memory = str "pay" ++ (str "order" ++ replicate 8 0)

abbrev pub small : Machine store byte_memory ℕ
small = record {
  session = session_at 0;
  store = new_memory_snapshot_store;
  memory = small_memory;
  world = 0;
}

-- A page of one byte.
unfoldable pub page : ℕ → Bytes
page b = replicate page_size b

pub length-page : (b : ℕ) → length (page b) ≡ page_size
unfolding page
length-page b = length-replicate page_size b
