-- ===== src/Tests/ObjectTests.antt =====
-- A bucket as a map from keys to objects, in which an object's bytes are its ETag.
use mathlib.Core.List.{filter_map, flatten}
use durable_wasm.Base.{
  ◌≡◌, ◌∙◌, sym, refl, ap, Bool, true, false, Bytes, str, Option, none, some, List, [], ◌∷◌, Map,
  lookup, insert, delete, map, lookup-insert, lookup-delete, bytes_eq, nat_eq, list_dec,
  if◌then◌else◌, ◌==◌, has_prefix,
}
use mathlib.Core.List.{Permᴰ, reverse}
use mathlib.Core.List.Permᴰ
use durable_wasm.Types.{InstanceMeta, ok, OplogEntry}
use durable_wasm.Store.Objects.{
  Kind, ObjectError, Answer, given, refused, Output, Input, ObjectStore, is_not_found,
  is_precondition_failed, oplog, object_key, load_active_index, save_metadata, load_metadata,
  load_deltas, load_oplog, save_oplog, truncate_oplog, read_object, write_json, oplog_messages,
}
use durable_wasm.Store.Objects.Lawful.{Stored, KeepsObjects, admits}
use durable_wasm.Store.Objects.Contents.{contents, Readable}
use durable_wasm.Store.Objects.Refines.{readable_store, object_store-IsReliable}
use durable_wasm.Store.Objects.Fencing.{ChangesEtags, save_metadata-fenced}
use durable_wasm.Store.Objects.ActiveIndex.{index_text, load_active_index-Entries}
use durable_wasm.Store.Objects.Lost.{finish_save, save_oplog-lost}
use durable_wasm.Store.Objects.Progress.{save_metadata-after_load}
use durable_wasm.Store.Objects.Mistaken.{read-mistaken}
use durable_wasm.Store.Contract.{IsReliable}
use durable_wasm.Tests.Setup.{id, meta_at}
use durable_wasm.Tests.Encodings.{field_formats, field_formats-IsFaithful}

abbrev Bucket : Type 0
Bucket = Map Bytes Bytes

abbrev tagged : Option Bytes → Option Stored
tagged none = none
tagged (some body) = some (record { body = body; etag = body })

abbrev fetched : Option Stored → Answer Output
fetched none = refused (record { code = some (str "NoSuchKey"); message = [] })
fetched (some o) = given (record { body = given o.body; etag = some o.etag })

abbrev put_if : Bool → Input → Bucket → Answer (Option Bytes) × Bucket
put_if true input s = (given (some input.body), insert input.key input.body s)
put_if false input s =
    (refused (record { code = some (str "PreconditionFailed"); message = [] }), s)

abbrev keys_from : Bytes → Bucket → List (Option Bytes)
keys_from prefix [] = []
keys_from prefix ((key, o) ∷ s) =
    let rest = keys_from prefix s in if has_prefix key prefix then some key ∷ rest else rest

abbrev bucket : ObjectStore
bucket = record {
  State = Bucket;
  get_object = λ key s. fetched (tagged (lookup key s));
  put_object = λ input s. put_if (admits input (tagged (lookup input.key s))) input s;
  delete_object = λ key s. (given tt, delete key s);
  list_pages = λ prefix s. map (λ key. given (key ∷ [])) (keys_from prefix s);
}

tagged-if :
    (b : Bool) (x y : Option Bytes)
    → tagged (if b then x else y) ≡ (if b then tagged x else tagged y)
tagged-if true x y = refl
tagged-if false x y = refl

unfoldable pub bucket-KeepsObjects : KeepsObjects bucket
unfolding is_not_found is_precondition_failed bytes_eq list_dec nat_eq tagged-if
bucket-KeepsObjects = record {
  objects = λ s key. tagged (lookup key s);
  get_there = λ key s o there. ap fetched there;
  get_missing = λ key s missing. (_, ap fetched missing, refl);
  put_admitted = λ input s free. rw free (
    input.body,
    refl,
    λ j. ap tagged (lookup-insert j input.key input.body s) ∙ tagged-if (j == input.key) _ _,
  );
  put_refused = λ input s held. rw held (_, refl, λ o there. refl, λ j. refl);
  delete_done = λ key s.
      (refl, λ j. ap tagged (lookup-delete j key s) ∙ tagged-if (j == key) none (lookup j s));
}

tagged-etag : (o : Option Bytes) (old : Stored) → tagged o ≡ some old → old.etag ≡ old.body
tagged-etag none old there = absurd (cc there)
tagged-etag (some body) old there = cc there

put_if-body :
    (b : Bool) (input : Input) (s : Bucket) (etag : Bytes)
    → (put_if b input s).0 ≡ given (some etag)
    → etag ≡ input.body
put_if-body true input s etag put = cc put
put_if-body false input s etag put = absurd (cc put)

bucket-ChangesEtags : ChangesEtags bucket bucket-KeepsObjects
unfolding bucket-KeepsObjects
bucket-ChangesEtags input s old etag there put other same = other (
    sym (tagged-etag (lookup input.key s) old there)
    ∙ same
    ∙ put_if-body (admits input (tagged (lookup input.key s))) input s etag put)

object_store-IsReliable_example :
    (rel : IsReliable
      (readable_store bucket bucket-KeepsObjects field_formats field_formats-IsFaithful (λ xs. xs)))
    × ((s : (readable_store bucket bucket-KeepsObjects field_formats field_formats-IsFaithful
          (λ xs. xs)).State)
        → rel.view s ≡ contents bucket bucket-KeepsObjects field_formats s.0)
object_store-IsReliable_example =
    object_store-IsReliable bucket bucket-KeepsObjects field_formats field_formats-IsFaithful
      (λ xs. xs)

save_metadata-fenced_example :
    let r =
      save_metadata bucket field_formats
        (meta_at 0)
        (save_metadata bucket field_formats (meta_at 0) []).2 in
    (r.0 ≡ ok false) × (r.1 ≡ meta_at 0)
unfolding save_metadata bucket-KeepsObjects lookup nat_eq
save_metadata-fenced_example =
    save_metadata-fenced bucket bucket-KeepsObjects bucket-ChangesEtags field_formats
      field_formats-IsFaithful (meta_at 0) (meta_at 0) [] refl refl refl
      (λ o there. absurd (cc there)) refl

-- Two active instances.
abbrev active_bucket : Bucket
active_bucket =
    (str "instances/a/active.json", str "a")
    ∷ ((str "instances/a/meta.json", str "m") ∷ ((str "instances/b/active.json", str "b") ∷ []))

order-reverse : {A : Type 0} (xs : List A) → Permᴰ xs (reverse xs)
order-reverse xs = Permᴰ.symm (Permᴰ.reverse xs)

load_active_index-Entries_example :
    (found : List Bytes) × Permᴰ (str "a" ∷ (str "b" ∷ [])) found
    × (load_active_index bucket field_formats reverse active_bucket
        ≡ ok (index_text bucket field_formats found))
unfolding read_object lookup bytes_eq list_dec nat_eq filter_map flatten
load_active_index-Entries_example =
    load_active_index-Entries bucket field_formats reverse
      ((some (str "instances/a/active.json") ∷ [])
        ∷ ((some (str "instances/a/meta.json") ∷ [])
            ∷ ((some (str "instances/b/active.json") ∷ []) ∷ [])))
      (str "a" ∷ (str "b" ∷ [])) active_bucket order-reverse refl (refl, (refl, tt))

-- A service whose every answer is an error with the id of the request in its text.
abbrev outage : ObjectError
outage = record { code = some (str "InternalError"); message = str "RequestID: 4F9404AB" }

abbrev broken : ObjectStore
broken = record {
  State = Bucket;
  get_object = λ key s. refused outage;
  put_object = λ input s. (given none, insert input.key input.body s);
  delete_object = λ key s. (given tt, delete key s);
  list_pages = λ prefix s. [];
}

abbrev paid : OplogEntry
paid = record {
  call_index = 7;
  api_name = str "pay";
  request_payload = [];
  response_payload = str "paid";
}

read-mistaken_example :
    (load_metadata broken field_formats id [] ≡ ok none)
    × (load_deltas broken field_formats id [] ≡ ok [])
    × (load_oplog broken field_formats id [] ≡ ok [])
    × (truncate_oplog broken field_formats id 3 [] ≡ (ok tt, []))
    × (save_oplog broken field_formats id paid []
        ≡ write_json broken field_formats oplog_messages field_formats.oplog
            (object_key oplog id)
            (paid ∷ [])
            [])
unfolding read_object
read-mistaken_example =
    read-mistaken broken field_formats id (str "RequestID: 4F9") (str "AB") outage paid 3 []
      (λ key. refl) refl

-- After a first swap, the metadata that it left.
abbrev swapped_meta : InstanceMeta
swapped_meta = (save_metadata bucket field_formats (meta_at 0) []).1

abbrev swapped_bucket : Bucket
swapped_bucket = (save_metadata bucket field_formats (meta_at 0) []).2

save_metadata-after_load_example :
    (save_metadata bucket field_formats swapped_meta swapped_bucket).0 ≡ ok true
unfolding save_metadata load_metadata read_object lookup insert bytes_eq list_dec nat_eq
save_metadata-after_load_example =
    save_metadata-after_load bucket bucket-KeepsObjects field_formats field_formats-IsFaithful
      swapped_meta swapped_bucket (some swapped_meta) refl refl refl

Readable-empty : Readable bucket bucket-KeepsObjects field_formats []
unfolding bucket-KeepsObjects lookup
Readable-empty Kind.snapshot name = tt
Readable-empty Kind.deltas name = tt
Readable-empty Kind.oplog name = tt
Readable-empty Kind.meta name = tt
Readable-empty Kind.active name = tt
Readable-empty Kind.wasm name = tt

abbrev shipped : OplogEntry
shipped = record {
  call_index = 7;
  api_name = str "ship";
  request_payload = [];
  response_payload = str "sent";
}

save_oplog-lost_example :
    let other = save_oplog bucket field_formats id shipped [] in
    let own =
      finish_save bucket bucket-KeepsObjects field_formats field_formats-IsFaithful id paid []
        other.1 in
    (finish_save bucket bucket-KeepsObjects field_formats field_formats-IsFaithful id paid [] []
      ≡ save_oplog bucket field_formats id paid [])
    × (other.0 ≡ ok tt)
    × (own.0 ≡ ok tt)
    × (load_oplog bucket field_formats id own.1 ≡ ok (paid ∷ []))
unfolding load_oplog read_object lookup is_not_found bytes_eq
save_oplog-lost_example =
    save_oplog-lost bucket bucket-KeepsObjects field_formats field_formats-IsFaithful id paid
      shipped [] [] Readable-empty refl
