-- ===== src/Tests/FileTests.antt =====
-- Files in a map from paths to bytes, and encodings for metadata and logs of one shape.
use durable_wasm.Base.{
  ℕ, ◌≡◌, ◌∙◌, refl, ap, Bool, true, false, Bytes, str, Option, none, some, List, [], ◌∷◌, Map,
  lookup, insert, delete, lookup-insert, ==-refl, bytes_eq, nat_eq, if◌then◌else◌,
}
use durable_wasm.Types.{text, Result, ok, err, InstanceMeta, OplogEntry}
use durable_wasm.Store.Codec.{Codec, Formats, IsLossless}
use durable_wasm.Store.Files.{
  FileRead, found, not_exist, FileSystem, write_encoded, save_oplog, load_oplog, save_metadata,
}
use durable_wasm.Store.Files.RoundTrip.{KeepsFiles, load_oplog-save_oplog}
use durable_wasm.Store.Files.Fencing.{save_metadata_refused}
use durable_wasm.Tests.Setup.{plain_json, id}

abbrev read_at : Option Bytes → FileRead
read_at none = not_exist
read_at (some bytes) = found bytes

abbrev is_there : Option Bytes → Bool
is_there none = false
is_there (some bytes) = true

abbrev files : FileSystem
files = record {
  Files = Map Bytes Bytes;
  read_file = λ path s. read_at (lookup path s);
  write_file = λ path bytes s. (ok tt, insert path bytes s);
  mkdir_all = λ dir s. s;
  remove = λ path s. delete path s;
  exists = λ path s. is_there (lookup path s);
}

lookup-same :
    (path bytes : Bytes) (s : Map Bytes Bytes) → lookup path (insert path bytes s) ≡ some bytes
lookup-same path bytes s =
    lookup-insert path path bytes s
    ∙ ap (λ b. if b then some bytes else lookup path s) (==-refl path)

files-KeepsFiles : KeepsFiles files
files-KeepsFiles = record {
  read_written = λ path bytes s done. ap read_at (lookup-same path bytes s);
  read_mkdir = λ dir path s. refl;
}

-- Not compressed.
abbrev plain : Codec Bytes
plain = record { encode = λ a. ok a; decode = λ bytes. ok bytes }

abbrev entry : ℕ → Bytes → OplogEntry
entry n payload = record {
  call_index = n;
  api_name = [];
  request_payload = [];
  response_payload = payload;
}

-- Logs of no entry, or of one without a name and a request.
abbrev encode_entry : ℕ → Bytes → Bytes → Bytes → Result Bytes
encode_entry n [] [] payload = ok (n ∷ payload)
encode_entry n _ _ payload = err (text "another shape")

abbrev encode_log : List OplogEntry → Result Bytes
encode_log [] = ok []
encode_log (e ∷ []) = encode_entry e.call_index e.api_name e.request_payload e.response_payload
encode_log (e ∷ (f ∷ log)) = err (text "another shape")

abbrev decode_log : Bytes → Result (List OplogEntry)
decode_log [] = ok []
decode_log (n ∷ payload) = ok (entry n payload ∷ [])

abbrev log_codec : Codec (List OplogEntry)
log_codec = record { encode = encode_log; decode = decode_log }

decode_log-encode_entry :
    (n : ℕ) (name request payload bytes : Bytes)
    → encode_entry n name request payload ≡ ok bytes
    → decode_log bytes
      ≡ ok (
          record {
            call_index = n;
            api_name = name;
            request_payload = request;
            response_payload = payload;
          }
          ∷ [])
decode_log-encode_entry n [] [] payload bytes h =
    let same : bytes ≡ n ∷ payload = cc h in ap decode_log same
decode_log-encode_entry n [] (r ∷ rs) payload bytes h = absurd (cc h)
decode_log-encode_entry n (c ∷ cs) request payload bytes h = absurd (cc h)

log_codec-IsLossless : IsLossless log_codec
log_codec-IsLossless [] bytes h = let same : bytes ≡ [] = cc h in ap decode_log same
log_codec-IsLossless (e ∷ []) bytes h =
    decode_log-encode_entry e.call_index e.api_name e.request_payload e.response_payload bytes h
log_codec-IsLossless (e ∷ (f ∷ log)) bytes h = absurd (cc h)

abbrev meta_of : Bytes → ℕ → InstanceMeta
meta_of who version = record {
  instance_id = who;
  wasm_hash = [];
  version = version;
  etag = [];
  process_id = [];
  definition_hash = [];
  business_key = [];
  bpmn_state = [];
  completed = false;
}

-- Metadata of the first shape only.
abbrev encode_meta : Bytes → Bytes → ℕ → Bytes → Bytes → Bytes → Bytes → Bytes → Bool → Result Bytes
encode_meta who [] version [] [] [] [] [] false = ok (version ∷ who)
encode_meta who _ version _ _ _ _ _ _ = err (text "another shape")

abbrev decode_meta : Bytes → Result InstanceMeta
decode_meta [] = err (text "empty")
decode_meta (version ∷ who) = ok (meta_of who version)

abbrev meta_codec : Codec InstanceMeta
meta_codec = record {
  encode = λ m.
      encode_meta m.instance_id m.wasm_hash m.version m.etag m.process_id m.definition_hash
        m.business_key m.bpmn_state m.completed;
  decode = decode_meta;
}

decode_meta-encode_meta :
    (who hash : Bytes) (version : ℕ) (etag process definition key state : Bytes) (completed : Bool)
    (bytes : Bytes)
    → encode_meta who hash version etag process definition key state completed ≡ ok bytes
    → decode_meta bytes
      ≡ ok (record {
        instance_id = who;
        wasm_hash = hash;
        version = version;
        etag = etag;
        process_id = process;
        definition_hash = definition;
        business_key = key;
        bpmn_state = state;
        completed = completed;
      })
decode_meta-encode_meta who [] version [] [] [] [] [] false bytes h =
    let same : bytes ≡ version ∷ who = cc h in ap decode_meta same
decode_meta-encode_meta who (c ∷ cs) version etag process definition key state completed bytes h =
    absurd (cc h)
decode_meta-encode_meta who [] version (c ∷ cs) process definition key state completed bytes h =
    absurd (cc h)
decode_meta-encode_meta who [] version [] (c ∷ cs) definition key state completed bytes h =
    absurd (cc h)
decode_meta-encode_meta who [] version [] [] (c ∷ cs) key state completed bytes h = absurd (cc h)
decode_meta-encode_meta who [] version [] [] [] (c ∷ cs) state completed bytes h = absurd (cc h)
decode_meta-encode_meta who [] version [] [] [] [] (c ∷ cs) completed bytes h = absurd (cc h)
decode_meta-encode_meta who [] version [] [] [] [] [] true bytes h = absurd (cc h)

abbrev formats : Formats
formats = record {
  gzip = plain;
  deltas = record { encode = λ ds. err (text "none"); decode = λ bytes. err (text "none") };
  oplog = log_codec;
  meta = meta_codec;
  index = plain_json;
}

abbrev dir : Bytes
dir = str "data"

load_oplog-save_oplog_example :
    load_oplog files formats dir id (save_oplog files formats dir id (entry 1 (str "paid")) []).1
    ≡ ok (entry 1 (str "paid") ∷ [])
unfolding save_oplog load_oplog write_encoded lookup
load_oplog-save_oplog_example =
    load_oplog-save_oplog files files-KeepsFiles formats dir (λ a bytes h. cc h) id
      (entry 1 (str "paid")) [] [] log_codec-IsLossless refl refl

save_metadata_refused_example :
    let r =
      save_metadata files formats dir
        (meta_of id 0)
        (save_metadata files formats dir (meta_of id 0) []).2 in
    (r.0 ≡ ok false) × (r.1 ≡ meta_of id 0)
unfolding save_metadata write_encoded lookup nat_eq
save_metadata_refused_example =
    save_metadata_refused files files-KeepsFiles formats dir
      (λ m bytes h.
        decode_meta-encode_meta m.instance_id m.wasm_hash m.version m.etag m.process_id
          m.definition_hash m.business_key m.bpmn_state m.completed bytes h)
      (meta_of id 0) (meta_of id 0) [] refl refl refl
