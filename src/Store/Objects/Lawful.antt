-- ===== src/Store/Objects/Lawful.antt =====
-- What s3_store.go relies on: an object store that keeps what is put, gzip and JSON that lose nothing.
use durable_wasm.Base.{
  ℕ, ◌≡◌, refl, Bytes, Option, none, some, List, Map, lookup, ◌==◌, nat_eq, ◌&&◌, bytes_eq,
  if◌then◌else◌, Bool, true, false, [],
}
use durable_wasm.Types.{ok, InstanceMeta, OplogEntry}
use durable_wasm.Store.Codec.{Codec, Formats}
use durable_wasm.Store.Objects.{
  ObjectError, given, refused, Input, ObjectStore, is_not_found, is_precondition_failed,
  read_object,
}

pub record Stored : Type 0 where
  pub body : Bytes
  pub etag : Bytes

-- The headers If-Match and If-None-Match, the latter with "*".
abbrev matches : Option Bytes → Option Stored → Bool
matches none o = true
matches (some etag) none = false
matches (some etag) (some o) = o.etag == etag

abbrev is_free : Option Bytes → Option Stored → Bool
is_free none o = true
is_free (some any) none = true
is_free (some any) (some o) = false

abbrev pub admits : Input → Option Stored → Bool
admits input o = matches input.if_match o && is_free input.if_none_match o

-- The objects of a bucket, and what the documentation of S3 says of the calls on it, if none fails for
-- another reason: a put whose condition does not hold is refused, with PreconditionFailed if there is
-- an object (with If-Match and no object, the answer is another error).
pub record KeepsObjects (O : ObjectStore) : Type 0 where
  pub objects : O.State → Bytes → Option Stored
  pub get_there :
      (key : Bytes) (s : O.State) (o : Stored)
      → objects s key ≡ some o
      → O.get_object key s ≡ given (record { body = given o.body; etag = some o.etag })
  pub get_missing :
      (key : Bytes) (s : O.State)
      → objects s key ≡ none
      → (e : ObjectError) × (O.get_object key s ≡ refused e) × (is_not_found e ≡ true)
  pub put_admitted :
      (input : Input) (s : O.State)
      → admits input (objects s input.key) ≡ true
      → (etag : Bytes) × ((O.put_object input s).0 ≡ given (some etag))
        × ((j : Bytes)
            → objects (O.put_object input s).1 j ≡ (
                if j == input.key
                then some (record { body = input.body; etag = etag })
                else objects s j))
  pub put_refused :
      (input : Input) (s : O.State)
      → admits input (objects s input.key) ≡ false
      → (e : ObjectError) × ((O.put_object input s).0 ≡ refused e)
        × ((o : Stored) → objects s input.key ≡ some o → is_precondition_failed e ≡ true)
        × ((j : Bytes) → objects (O.put_object input s).1 j ≡ objects s j)
  pub delete_done :
      (key : Bytes) (s : O.State)
      → ((O.delete_object key s).0 ≡ given tt)
        × ((j : Bytes)
            → objects (O.delete_object key s).1 j ≡ (if j == key then none else objects s j))

-- Every value is encoded, and decoded to what it was; a map, to the same entries.
abbrev pub Encodes : {A : Type 0} → Codec A → A → Type 0
Encodes C a = (bytes : Bytes) × (C.encode a ≡ ok bytes) × (C.decode bytes ≡ ok a)

pub record IsFaithful (J : Formats) : Type 0 where
  pub gzip : (b : Bytes) → Encodes J.gzip b
  pub deltas :
      (ds : Map ℕ Bytes)
      → (bytes : Bytes) × (back : Map ℕ Bytes) × (J.deltas.encode ds ≡ ok bytes)
        × (J.deltas.decode bytes ≡ ok back)
        × ((i : ℕ) → lookup i back ≡ lookup i ds)
  pub oplog : (log : List OplogEntry) → Encodes J.oplog log
  pub meta : (m : InstanceMeta) → m.etag ≡ [] → Encodes J.meta m

module _ (O : ObjectStore) (keeps : KeepsObjects O) where
  pub read_there :
      (key : Bytes) (s : O.State) (o : Stored)
      → keeps.objects s key ≡ some o
      → read_object O key s ≡ given (o.body, o.etag)
  unfolding read_object
  read_there key s o there = rw (keeps.get_there key s o there) refl

  pub read_missing :
      (key : Bytes) (s : O.State)
      → keeps.objects s key ≡ none
      → (e : ObjectError) × (read_object O key s ≡ refused e) × (is_not_found e ≡ true)
  unfolding read_object
  read_missing key s missing =
      let (e, answer, not_found) = keeps.get_missing key s missing in (e, rw answer refl, not_found)
