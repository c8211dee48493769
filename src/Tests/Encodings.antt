-- ===== src/Tests/Encodings.antt =====
-- Encodings that lose nothing: a value is a list of texts, each ended by a 0, with its numbers one up.
use durable_wasm.Base.{
  ℕ, zero, suc, ◌≡◌, ◌∙◌, refl, ap, Bool, true, false, Bytes, List, [], ◌∷◌, Map, nat_eq,
}
use durable_wasm.Types.{Result, ok, err, text, InstanceMeta, OplogEntry}
use durable_wasm.Store.Codec.{Codec, Formats, and_then}
use durable_wasm.Store.Objects.Lawful.{IsFaithful}
use durable_wasm.Tests.Setup.{plain_json}

abbrev ended : Bytes → Bytes → Bytes
ended [] rest = zero ∷ rest
ended (n ∷ field) rest = suc n ∷ ended field rest

abbrev join : List Bytes → Bytes
join [] = []
join (field ∷ fields) = ended field (join fields)

abbrev onto_head : ℕ → List Bytes → List Bytes
onto_head n [] = (n ∷ []) ∷ []
onto_head n (field ∷ fields) = (n ∷ field) ∷ fields

abbrev split : Bytes → List Bytes
split [] = []
split (zero ∷ bs) = [] ∷ split bs
split (suc n ∷ bs) = onto_head n (split bs)

split-ended : (field bs : Bytes) → split (ended field bs) ≡ field ∷ split bs
split-ended [] bs = refl
split-ended (n ∷ field) bs = ap (onto_head n) (split-ended field bs)

split-join : (fields : List Bytes) → split (join fields) ≡ fields
split-join [] = refl
split-join (field ∷ fields) =
    split-ended field (join fields) ∙ ap (λ (fs : List Bytes). field ∷ fs) (split-join fields)

abbrev log_fields : List OplogEntry → List Bytes
log_fields [] = []
log_fields (e ∷ log) =
    (e.call_index ∷ []) ∷ (e.api_name ∷ (e.request_payload ∷ (e.response_payload ∷ log_fields log)))

abbrev read_log : List Bytes → Result (List OplogEntry)
read_log [] = ok []
read_log ((n ∷ []) ∷ (name ∷ (request ∷ (response ∷ fields)))) = and_then (read_log fields) (λ log.
    ok (
      record {
        call_index = n;
        api_name = name;
        request_payload = request;
        response_payload = response;
      }
      ∷ log))
read_log _ = err (text "no log")

read_log-log_fields : (log : List OplogEntry) → read_log (log_fields log) ≡ ok log
read_log-log_fields [] = refl
read_log-log_fields (e ∷ log) =
    ap (λ r. and_then r (λ (rest : List OplogEntry). ok (e ∷ rest))) (read_log-log_fields log)

abbrev delta_fields : Map ℕ Bytes → List Bytes
delta_fields [] = []
delta_fields ((i, b) ∷ ds) = (i ∷ []) ∷ (b ∷ delta_fields ds)

abbrev read_deltas : List Bytes → Result (Map ℕ Bytes)
read_deltas [] = ok []
read_deltas ((i ∷ []) ∷ (b ∷ fields)) = and_then (read_deltas fields) (λ ds. ok ((i, b) ∷ ds))
read_deltas _ = err (text "no deltas")

read_deltas-delta_fields : (ds : Map ℕ Bytes) → read_deltas (delta_fields ds) ≡ ok ds
read_deltas-delta_fields [] = refl
read_deltas-delta_fields ((i, b) ∷ ds) =
    ap (λ r. and_then r (λ (rest : Map ℕ Bytes). ok ((i, b) ∷ rest))) (read_deltas-delta_fields ds)

abbrev flag : Bool → Bytes
flag true = 1 ∷ []
flag false = []

abbrev is_set : Bytes → Bool
is_set [] = false
is_set (b ∷ bs) = true

is_set-flag : (b : Bool) → is_set (flag b) ≡ b
is_set-flag true = refl
is_set-flag false = refl

-- Without the ETag.
abbrev meta_fields : InstanceMeta → List Bytes
meta_fields m =
    m.instance_id
    ∷ (m.wasm_hash
        ∷ ((m.version ∷ [])
            ∷ (m.process_id
                ∷ (m.definition_hash
                    ∷ (m.business_key ∷ (m.bpmn_state ∷ (flag m.completed ∷ [])))))))

abbrev read_meta : List Bytes → Result InstanceMeta
read_meta
      (id
        ∷ (hash
            ∷ ((version ∷ []) ∷ (process ∷ (definition ∷ (key ∷ (state ∷ (completed ∷ [])))))))) =
    ok (record {
      instance_id = id;
      wasm_hash = hash;
      version = version;
      etag = [];
      process_id = process;
      definition_hash = definition;
      business_key = key;
      bpmn_state = state;
      completed = is_set completed;
    })
read_meta _ = err (text "no metadata")

read_meta-meta_fields : (m : InstanceMeta) → m.etag ≡ [] → read_meta (meta_fields m) ≡ ok m
read_meta-meta_fields m untagged = rw (is_set-flag m.completed, untagged) refl

abbrev fields_codec : {A : Type 0} → (A → List Bytes) → (List Bytes → Result A) → Codec A
fields_codec fields read = record {
  encode = λ a. ok (join (fields a));
  decode = λ bytes. read (split bytes);
}

-- Not compressed.
abbrev pub plain : Codec Bytes
plain = record { encode = λ a. ok a; decode = λ bytes. ok bytes }

abbrev pub field_formats : Formats
field_formats = record {
  gzip = plain;
  deltas = fields_codec delta_fields read_deltas;
  oplog = fields_codec log_fields read_log;
  meta = fields_codec meta_fields read_meta;
  index = plain_json;
}

pub field_formats-IsFaithful : IsFaithful field_formats
field_formats-IsFaithful = record {
  gzip = λ b. (b, refl, refl);
  deltas = λ ds. (
    join (delta_fields ds),
    ds,
    refl,
    ap read_deltas (split-join (delta_fields ds)) ∙ read_deltas-delta_fields ds,
    λ i. refl,
  );
  oplog = λ log. (
    join (log_fields log),
    refl,
    ap read_log (split-join (log_fields log)) ∙ read_log-log_fields log,
  );
  meta = λ m untagged. (
    join (meta_fields m),
    refl,
    ap read_meta (split-join (meta_fields m)) ∙ read_meta-meta_fields m untagged,
  );
}
