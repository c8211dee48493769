-- ===== src/Store/Objects.antt =====
-- s3_store.go: S3SnapshotStore. The calls of the S3 client on the store's bucket, gzip and
-- `encoding/json` are parameters. Nothing holds a lock: an operation that reads and then writes is one
-- step of the model only if no other process writes the same object in between.
pub mod Keys
pub mod Lawful
pub mod Contents
pub mod Writes
pub mod Steps
pub mod Swaps
pub mod Refines
pub mod Fencing
pub mod ActiveIndex
pub mod Mistaken
pub mod Progress
pub mod Lost
use durable_wasm.Base.{
  ℕ, ◌+◌, Bool, true, false, ◌||◌, Bytes, str, Option, none, some, List, [], ◌∷◌, ◌++◌, Map, merge,
  ◌==◌, bytes_eq, nat_eq, if◌then◌else◌, contains, has_suffix, to_lower,
}
use durable_wasm.Types.{
  Error, text, wrapped, service_failed, Result, ok, err, InstanceMeta, OplogEntry,
}
use Prim.Native.String.{String}
use durable_wasm.Store.{SnapshotStore}
use durable_wasm.Store.View.{entries_after}
use durable_wasm.Store.Codec.{Codec, Formats, and_then, or_missing}

-- An error of the client: the code that `errors.As` finds if it is a `smithy.APIError`, and its text.
pub record ObjectError : Type 0 where
  pub code : Option Bytes
  pub message : Bytes

pub data Answer (A : Type 0) : Type 0 where
  given : A → Answer A
  refused : ObjectError → Answer A

-- GetObjectOutput; reading the body may fail.
pub record Output : Type 0 where
  pub body : Answer Bytes
  pub etag : Option Bytes

-- PutObjectInput
pub record Input : Type 0 where
  pub key : Bytes
  pub body : Bytes
  pub if_match : Option Bytes
  pub if_none_match : Option Bytes

-- The client on a bucket. A put gives the ETag of the new object, if it gives one. The paginator of a
-- listing gives pages of keys, up to the last one or the first that fails.
pub record ObjectStore : Type 1 where
  pub State : Type 0
  pub get_object : Bytes → State → Answer Output
  pub put_object : Input → State → Answer (Option Bytes) × State
  pub delete_object : Bytes → State → Answer (Unit {0}) × State
  pub list_pages : Bytes → State → List (Answer (List (Option Bytes)))

abbrev has_code : (Bytes → Bool) → Option Bytes → Bool
has_code test none = false
has_code test (some code) = test code

unfoldable pub is_not_found : ObjectError → Bool
is_not_found e =
    let err_str = to_lower e.message in
    has_code (λ code. code == str "NoSuchKey" || code == str "NotFound") e.code
    || (contains err_str (str "404")
        || (contains err_str (str "nosuchkey")
            || (contains err_str (str "notfound") || contains err_str (str "not found"))))

unfoldable pub is_precondition_failed : ObjectError → Bool
is_precondition_failed e =
    let err_str = to_lower e.message in
    has_code
      (λ code. code == str "PreconditionFailed" || contains (to_lower code) (str "precondition"))
      e.code
    || (contains err_str (str "412")
        || (contains err_str (str "preconditionfailed")
            || contains err_str (str "precondition failed")))

-- `fmt.Errorf("…: %w", err)`
abbrev annotated : {A : Type 0} → String → Result A → Result A
annotated message (ok a) = ok a
annotated message (err e) = err (wrapped message e)

abbrev failed : {A : Type 0} → String → ObjectError → Result A
failed message e = err (wrapped message (service_failed e.message))

-- The objects of an instance, and those of the modules.
pub data Kind : Type 0 where
  snapshot : Kind
  deltas : Kind
  oplog : Kind
  meta : Kind
  active : Kind
  wasm : Kind

abbrev pub of_instance : Bytes → Bytes → Bytes
of_instance id name = str "instances/" ++ (id ++ name)

-- The key of an object, by the id of the instance or the hash of the module.
unfoldable pub object_key : Kind → Bytes → Bytes
object_key snapshot id = of_instance id (str "/snapshot.bin")
object_key deltas id = of_instance id (str "/deltas.json")
object_key oplog id = of_instance id (str "/oplog.json")
object_key meta id = of_instance id (str "/meta.json")
object_key active id = of_instance id (str "/active.json")
object_key wasm hash = str "wasm/" ++ (hash ++ str ".wasm")

abbrev etag_of : Option Bytes → Bytes
etag_of none = []
etag_of (some etag) = etag

abbrev done : Result (Unit {0})
done = ok tt

module _ (O : ObjectStore) where
  read_body : Answer Bytes → Option Bytes → Answer (Bytes × Bytes)
  read_body (refused e) etag = refused e
  read_body (given bytes) etag = given (bytes, etag_of etag)

  read_output : Answer Output → Answer (Bytes × Bytes)
  unfolding read_body
  read_output (refused e) = refused e
  read_output (given out) = read_body out.body out.etag

  -- The bytes of an object and its ETag.
  unfoldable pub read_object : Bytes → O.State → Answer (Bytes × Bytes)
  unfolding read_output
  read_object key s = read_output (O.get_object key s)

  abbrev plain_input : Bytes → Bytes → Input
  plain_input key bytes = record { key = key; body = bytes; if_match = none; if_none_match = none }

  written : String → Answer (Option Bytes) × O.State → Result (Unit {0}) × O.State
  written message (given etag, s) = (done, s)
  written message (refused e, s) = (failed message e, s)

  -- writeObject, whose callers drop the ETag and wrap the error.
  unfoldable pub write_object : String → Bytes → Bytes → O.State → Result (Unit {0}) × O.State
  unfolding written
  write_object message key bytes s = written message (O.put_object (plain_input key bytes) s)

  -- What was encoded is written; an error of the encoding ends it.
  write_encoded : String → Bytes → Result Bytes → O.State → Result (Unit {0}) × O.State
  unfolding write_object
  write_encoded message key (ok bytes) s = write_object message key bytes s
  write_encoded message key (err e) s = (err e, s)

  deleted : String → Answer (Unit {0}) × O.State → Result (Unit {0}) × O.State
  deleted message (given _, s) = (done, s)
  deleted message (refused e, s) = (if is_not_found e then done else failed message e, s)

  -- `DeleteObject`, where an object that is not there is no error.
  unfoldable pub remove_object : String → Bytes → O.State → Result (Unit {0}) × O.State
  unfolding deleted
  remove_object message key s = deleted message (O.delete_object key s)

  delete_rest :
      (O.State → Result (Unit {0}) × O.State)
      → Result (Unit {0}) × O.State
      → Result (Unit {0}) × O.State
  delete_rest rest (ok _, s) = rest s
  delete_rest rest (err e, s) = (err e, s)

  -- The loop over the keys, up to the first error.
  unfoldable pub delete_keys : List Bytes → O.State → Result (Unit {0}) × O.State
  unfolding delete_rest remove_object
  delete_keys [] s = (done, s)
  delete_keys (key ∷ keys) s =
      delete_rest (delete_keys keys) (remove_object "failed to delete key from S3" key s)

  unfoldable pub delete_instance : Bytes → O.State → Result (Unit {0}) × O.State
  unfolding delete_keys object_key
  delete_instance id s =
      delete_keys
        (object_key snapshot id
          ∷ (object_key deltas id
              ∷ (object_key oplog id ∷ (object_key meta id ∷ (object_key active id ∷ [])))))
        s

  unfoldable pub truncate_deltas : Bytes → O.State → Result (Unit {0}) × O.State
  unfolding remove_object object_key
  truncate_deltas id s = remove_object "failed to truncate deltas on S3" (object_key deltas id) s

-- The zero value where a decoding fails.
abbrev value_or : {A : Type 0} → A → Result A → A
value_or zero_value (ok a) = a
value_or zero_value (err e) = zero_value

-- What the messages of the errors say of each stored value.
pub record Messages : Type 0 where
  pub reading : String
  pub decompressing : String
  pub unmarshalling : String
  pub marshalling : String
  pub compressing : String
  pub writing : String

abbrev pub deltas_messages : Messages
deltas_messages = record {
  reading = "failed to read deltas from S3";
  decompressing = "failed to decompress deltas from S3";
  unmarshalling = "failed to unmarshal deltas";
  marshalling = "failed to marshal deltas";
  compressing = "failed to compress deltas";
  writing = "failed to write deltas to S3";
}

abbrev pub oplog_messages : Messages
oplog_messages = record {
  reading = "failed to read oplog from S3";
  decompressing = "failed to decompress oplog from S3";
  unmarshalling = "failed to unmarshal oplog";
  marshalling = "failed to marshal oplog";
  compressing = "failed to compress oplog";
  writing = "failed to write oplog to S3";
}

abbrev pub load_deltas_messages : Messages
load_deltas_messages = record deltas_messages { reading = "failed to load deltas from S3" }

abbrev pub load_oplog_messages : Messages
load_oplog_messages = record oplog_messages { reading = "failed to load oplog from S3" }

abbrev truncate_messages : Messages
truncate_messages = record {
  reading = "failed to read oplog for truncate from S3";
  decompressing = "failed to decompress oplog for truncate from S3";
  unmarshalling = "failed to unmarshal oplog for truncate";
  marshalling = "failed to marshal truncated oplog";
  compressing = "failed to compress truncated oplog";
  writing = "failed to write truncated oplog to S3";
}

-- The input of the conditional put: a new object, or one with the ETag that was loaded.
unfoldable pub metadata_input : InstanceMeta → Bytes → Input
metadata_input m json = record {
  key = object_key meta m.instance_id;
  body = json;
  if_match = if m.version == 0 then none else some m.etag;
  if_none_match = if m.version == 0 then some (str "*") else none;
}

module _ (O : ObjectStore) (J : Formats) where
  -- `json.Marshal`, compressData and writeObject
  pack : {A : Type 0} → Messages → Codec A → A → Result Bytes
  pack M C a =
      and_then (annotated M.marshalling (C.encode a))
        (λ json. annotated M.compressing (J.gzip.encode json))

  pub write_json :
      {A : Type 0} → Messages → Codec A → Bytes → A → O.State → Result (Unit {0}) × O.State
  unfolding write_encoded pack
  write_json M C key a s = write_encoded O M.writing key (pack M C a) s

  -- decompressData and `json.Unmarshal`
  unpack : {A : Type 0} → Messages → Codec A → Bytes → Result A
  unpack M C bytes =
      and_then (annotated M.decompressing (J.gzip.decode bytes))
        (λ json. annotated M.unmarshalling (C.decode json))

  -- What a save adds to: an object that cannot be decoded counts as empty, as one that is missing.
  pub existing : {A : Type 0} → Messages → Codec A → A → Answer (Bytes × Bytes) → Result A
  unfolding unpack
  existing M C zero_value (given (bytes, etag)) = ok (value_or zero_value (unpack M C bytes))
  existing M C zero_value (refused e) = if is_not_found e then ok zero_value else failed M.reading e

  -- What a load gives; none where the object is missing.
  pub decoded : {A : Type 0} → Messages → Codec A → Answer (Bytes × Bytes) → Result (Option A)
  unfolding unpack
  decoded M C (given (bytes, etag)) = and_then (unpack M C bytes) (λ a. ok (some a))
  decoded M C (refused e) = if is_not_found e then ok none else failed M.reading e

  pub write_merged :
      {A : Type 0}
      → Messages
      → Codec A
      → Bytes
      → (A → A)
      → Result A
      → O.State
      → Result (Unit {0}) × O.State
  unfolding write_json
  write_merged M C key change (ok a) s = write_json M C key (change a) s
  write_merged M C key change (err e) s = (err e, s)

  unfoldable pub save : Bytes → Bytes → O.State → Result (Unit {0}) × O.State
  unfolding write_encoded object_key
  save id bytes s =
      write_encoded O "failed to save snapshot" (object_key snapshot id)
        (annotated "failed to compress snapshot" (J.gzip.encode bytes)) s

  loaded : (ObjectError → Error) → Answer (Bytes × Bytes) → Result Bytes
  loaded failure (given (bytes, etag)) = J.gzip.decode bytes
  loaded failure (refused e) = err (failure e)

  unfoldable pub load : Bytes → O.State → Result Bytes
  unfolding loaded read_object object_key
  load id s = loaded (λ e. service_failed e.message) (read_object O (object_key snapshot id) s)

  unfoldable pub save_deltas : Bytes → Map ℕ Bytes → O.State → Result (Unit {0}) × O.State
  unfolding existing read_object object_key write_merged
  save_deltas id new s =
      let key = object_key deltas id in
      let current = existing deltas_messages J.deltas [] (read_object O key s) in
      write_merged deltas_messages J.deltas key (merge new) current s

  unfoldable pub load_deltas : Bytes → O.State → Result (Map ℕ Bytes)
  unfolding decoded read_object object_key
  load_deltas id s =
      or_missing [] (decoded load_deltas_messages J.deltas (read_object O (object_key deltas id) s))

  unfoldable pub save_oplog : Bytes → OplogEntry → O.State → Result (Unit {0}) × O.State
  unfolding existing read_object object_key write_merged
  save_oplog id entry s =
      let key = object_key oplog id in
      let list = existing oplog_messages J.oplog [] (read_object O key s) in
      write_merged oplog_messages J.oplog key (λ entries. entries ++ (entry ∷ [])) list s

  unfoldable pub load_oplog : Bytes → O.State → Result (List OplogEntry)
  unfolding decoded read_object object_key
  load_oplog id s =
      or_missing [] (decoded load_oplog_messages J.oplog (read_object O (object_key oplog id) s))

  cut_oplog_object :
      Bytes → ℕ → Result (Option (List OplogEntry)) → O.State → Result (Unit {0}) × O.State
  unfolding write_json
  cut_oplog_object key n (err e) s = (err e, s)
  cut_oplog_object key n (ok none) s = (done, s)
  cut_oplog_object key n (ok (some list)) s =
      write_json truncate_messages J.oplog key (entries_after n list) s

  unfoldable pub truncate_oplog : Bytes → ℕ → O.State → Result (Unit {0}) × O.State
  unfolding cut_oplog_object decoded read_object object_key
  truncate_oplog id before_call_index s =
      let key = object_key oplog id in
      cut_oplog_object key before_call_index
        (decoded truncate_messages J.oplog (read_object O key s)) s

  abbrev next_etag : Bytes → Option Bytes → Bytes
  next_etag old none = old
  next_etag old (some etag) = etag

  swapped : InstanceMeta → Answer (Option Bytes) × O.State → Result Bool × InstanceMeta × O.State
  swapped m (given etag, s) =
      (ok true, record m { version = m.version + 1; etag = next_etag m.etag etag }, s)
  swapped m (refused e, s) = (
    if is_precondition_failed e then ok false else failed "failed to save metadata to S3" e,
    m,
    s,
  )

  put_metadata : InstanceMeta → Result Bytes → O.State → Result Bool × InstanceMeta × O.State
  unfolding swapped metadata_input
  put_metadata m (err e) s = (err e, m, s)
  put_metadata m (ok json) s = swapped m (O.put_object (metadata_input m json) s)

  -- The metadata are stored without their ETag, and in the next version.
  unfoldable pub save_metadata : InstanceMeta → O.State → Result Bool × InstanceMeta × O.State
  unfolding put_metadata
  save_metadata m s =
      put_metadata m
        (annotated "failed to marshal metadata"
          (J.meta.encode (record m { version = m.version + 1; etag = [] })))
        s

  with_etag : Answer (Bytes × Bytes) → Result (Option InstanceMeta)
  with_etag (given (json, etag)) =
      and_then (annotated "failed to unmarshal metadata" (J.meta.decode json))
        (λ m. ok (some (record m { etag = etag })))
  with_etag (refused e) =
      if is_not_found e then ok none else failed "failed to load metadata from S3" e

  unfoldable pub load_metadata : Bytes → O.State → Result (Option InstanceMeta)
  unfolding with_etag read_object object_key
  load_metadata id s = with_etag (read_object O (object_key meta id) s)

  unfoldable pub save_wasm : Bytes → Bytes → O.State → Result (Unit {0}) × O.State
  unfolding write_encoded object_key
  save_wasm hash wasm_bytes s =
      write_encoded O "failed to save WASM module to S3" (object_key wasm hash)
        (annotated "failed to compress WASM module" (J.gzip.encode wasm_bytes)) s

  unfoldable pub load_wasm : Bytes → O.State → Result Bytes
  unfolding loaded read_object object_key
  load_wasm hash s =
      loaded
        (λ e.
          if is_not_found e
          then text "wasm module not found"
          else wrapped "failed to load WASM module from S3" (service_failed e.message))
        (read_object O (object_key wasm hash) s)

  unfoldable pub update_active_index : Bytes → Bytes → Bool → O.State → Result (Unit {0}) × O.State
  unfolding remove_object write_object object_key
  update_active_index id info completed s =
      let key = object_key active id in
      if completed
      then remove_object O "failed to delete active status from S3" key s
      else write_object O "failed to write active status to S3" key info s

abbrev active_key : Option Bytes → Bool
active_key none = false
active_key (some key) = has_suffix key (str "/active.json")

abbrev key_text : Option Bytes → Bytes
key_text none = []
key_text (some key) = key

-- The keys of a page that end in "/active.json".
unfoldable pub active_keys : List (Option Bytes) → List Bytes
active_keys [] = []
active_keys (key ∷ keys) =
    let rest = active_keys keys in if active_key key then key_text key ∷ rest else rest

abbrev add_page : List (Option Bytes) → Result (List Bytes) → Result (List Bytes)
unfolding active_keys
add_page keys rest = and_then rest (λ later. ok (active_keys keys ++ later))

-- The loop over the pages.
unfoldable pub listed_keys : List (Answer (List (Option Bytes))) → Result (List Bytes)
unfolding active_keys
listed_keys [] = ok []
listed_keys (given keys ∷ pages) = add_page keys (listed_keys pages)
listed_keys (refused e ∷ pages) = failed "failed to list instances prefix" e

module _ (O : ObjectStore) (J : Formats) where
  abbrev Received : Type 0
  Received = List (Answer (Bytes × Bytes))

  add_item : Option J.index.Info → Result (List J.index.Info) → Result (List J.index.Info)
  add_item none rest = err (text "failed to unmarshal active instance info")
  add_item (some item) rest = and_then rest (λ items. ok (item ∷ items))

  -- The loop over what the channel gives, up to the first error.
  unfoldable pub collect : Received → Result (List J.index.Info)
  unfolding add_item
  collect [] = ok []
  collect (refused e ∷ received) = failed "failed to read active instance info" e
  collect (given (info, etag) ∷ received) = add_item (J.index.decode_info info) (collect received)

  read_objects : List Bytes → O.State → Received
  unfolding read_object
  read_objects [] s = []
  read_objects (key ∷ keys) s = read_object O key s ∷ read_objects keys s

  fetch : (Received → Received) → List Bytes → O.State → Result Bytes
  unfolding read_objects collect
  fetch arrive [] s = ok (str "[]")
  fetch arrive (key ∷ keys) s =
      and_then (collect (arrive (read_objects (key ∷ keys) s)))
        (λ items. ok (J.index.encode_index items))

  -- The objects are read in parallel; `arrive` is the order in which the results come.
  unfoldable pub load_active_index : (Received → Received) → O.State → Result Bytes
  unfolding listed_keys fetch
  load_active_index arrive s =
      and_then (listed_keys (O.list_pages (str "instances/") s)) (λ keys. fetch arrive keys s)

  abbrev pub object_store : (Received → Received) → SnapshotStore
  object_store arrive = record {
    State = O.State;
    save = save O J;
    load = load O J;
    delete = delete_instance O;
    save_deltas = save_deltas O J;
    load_deltas = load_deltas O J;
    truncate_deltas = truncate_deltas O;
    save_oplog = save_oplog O J;
    load_oplog = load_oplog O J;
    truncate_oplog = truncate_oplog O J;
    save_metadata = save_metadata O J;
    load_metadata = load_metadata O J;
    save_wasm = save_wasm O J;
    load_wasm = load_wasm O J;
    update_active_index = update_active_index O J;
    load_active_index = load_active_index arrive;
  }
