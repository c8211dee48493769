-- ===== src/Store/Objects/Writes.antt =====
-- What the writes of s3_store.go do to the objects of a lawful bucket.
use durable_wasm.Base.{◌≡◌, ◌∙◌, refl, ap, Bytes, Option, none, some, List, [], nat_eq, bytes_eq}
use Prim.Native.String.{String}
use durable_wasm.Types.{Result, ok}
use durable_wasm.Store.Memory.{or_nil}
use durable_wasm.Store.Codec.{Codec, Formats, and_then, and_then-ok}
use durable_wasm.Store.Objects.{
  Input, ObjectStore, read_object, write_object, write_encoded, remove_object, deleted, Kind,
  snapshot, wasm, object_key, Messages, pack, unpack, write_json, existing, decoded, save,
  save_wasm, written,
}
use durable_wasm.Store.Objects.Lawful.{Stored, KeepsObjects, IsFaithful, read_there, read_missing}
use durable_wasm.Store.Objects.Contents.{part, HasPart, from_json, Puts, Puts_lem}

module _ (O : ObjectStore) (keeps : KeepsObjects O) (J : Formats) where
  -- A write succeeds, and puts an object in which `P` holds of the bytes.
  abbrev pub Wrote :
      Kind → Bytes → (Bytes → Type 0) → O.State → Result (Unit {0}) × O.State → Type 0
  Wrote k id P s r = (r.0 ≡ ok tt) × (o : Stored) × P o.body × Puts O keeps J k id (some o) s r.1

  -- A removal succeeds, and there is no object afterwards.
  abbrev pub Removed : Kind → Bytes → O.State → Result (Unit {0}) × O.State → Type 0
  Removed k id s r = (r.0 ≡ ok tt) × Puts O keeps J k id none s r.1

  pub write_object_lem :
      (message : String) (k : Kind) (id bytes : Bytes) (s : O.State)
      → Wrote k id (λ b. b ≡ bytes) s (write_object O message (object_key k id) bytes s)
  unfolding write_object
  write_object_lem message k id bytes s =
      let input : Input = record {
        key = object_key k id;
        body = bytes;
        if_match = none;
        if_none_match = none;
      } in
      let (etag, answer, changed) = keeps.put_admitted input s refl in
      let whole : written O message (O.put_object input s) ≡ (ok tt, (O.put_object input s).1) =
        unfold written in (rw answer refl) in
      rw whole (
        refl,
        record { body = bytes; etag = etag },
        refl,
        Puts_lem O keeps J k id (some (record { body = bytes; etag = etag })) s
            (O.put_object input s).1 changed,
      )

  pub remove_object_lem :
      (message : String) (k : Kind) (id : Bytes) (s : O.State)
      → Removed k id s (remove_object O message (object_key k id) s)
  unfolding remove_object deleted
  remove_object_lem message k id s =
      let (answer, changed) = keeps.delete_done (object_key k id) s in
      let whole : deleted O message (O.delete_object (object_key k id) s)
          ≡ (ok tt, (O.delete_object (object_key k id) s).1) =
        rw answer refl in
      rw whole
        (refl, Puts_lem O keeps J k id none s (O.delete_object (object_key k id) s).1 changed)

  module _ (faithful : IsFaithful J) where
    save_written :
        (message : String) (k : Kind) (id b : Bytes) (r : Result Bytes) (s : O.State)
        → ((bytes : Bytes) × (r ≡ ok bytes) × (J.gzip.decode bytes ≡ ok b))
        → Wrote k id
            (λ bytes. J.gzip.decode bytes ≡ ok b)
            s
            (write_encoded O message (object_key k id) r s)
    unfolding write_encoded
    save_written message k id b r s (bytes, encoded, back) =
        let (done, o, same, puts) = write_object_lem message k id bytes s in
        rw encoded (done, o, ap J.gzip.decode same ∙ back, puts)

    pub save_lem :
        (id b : Bytes) (s : O.State)
        → Wrote snapshot id (λ bytes. J.gzip.decode bytes ≡ ok b) s (save O J id b s)
    unfolding save
    save_lem id b s =
        let (bytes, zipped, back) = faithful.gzip b in
        save_written _ snapshot id b _ s (bytes, rw zipped refl, back)

    pub save_wasm_lem :
        (hash b : Bytes) (s : O.State)
        → Wrote wasm hash (λ bytes. J.gzip.decode bytes ≡ ok b) s (save_wasm O J hash b s)
    unfolding save_wasm
    save_wasm_lem hash b s =
        let (bytes, zipped, back) = faithful.gzip b in
        save_written _ wasm hash b _ s (bytes, rw zipped refl, back)

    pub write_json_lem :
        {A : Type 0} (M : Messages) (C : Codec A) (k : Kind) (id : Bytes) (a back : A)
        (json : Bytes) (s : O.State)
        → C.encode a ≡ ok json
        → C.decode json ≡ ok back
        → Wrote k id
            (λ bytes. from_json O keeps J C bytes ≡ ok back)
            s
            (write_json O J M C (object_key k id) a s)
    unfolding write_json write_encoded pack
    write_json_lem M C k id a back json s encoded decodes =
        let (bytes, zipped, unzipped) = faithful.gzip json in
        let (done, o, same, puts) = write_object_lem M.writing k id bytes s in
        let packed : pack O J M C a ≡ ok bytes = unfold pack in (rw (encoded, zipped) refl) in
        rw packed (
          done,
          o,
          ap (from_json O keeps J C) same ∙ ap (λ r. and_then r C.decode) unzipped ∙ decodes,
          puts,
        )

  unpack_lem :
      {A : Type 0} (M : Messages) (C : Codec A) (bytes : Bytes) (a : A)
      → from_json O keeps J C bytes ≡ ok a
      → unpack O J M C bytes ≡ ok a
  unfolding unpack
  unpack_lem M C bytes a h =
      let (json, unzipped, decodes) = and_then-ok (J.gzip.decode bytes) C.decode a h in
      rw (unzipped, decodes) refl

  -- What is read of an object that can be decoded.
  pub existing_lem :
      {A : Type 0} (M : Messages) (C : Codec (List A)) (key : Bytes) (s : O.State)
      (o : Option Stored)
      → keeps.objects s key ≡ o
      → HasPart (from_json O keeps J C) o
      → existing O J M C [] (read_object O key s) ≡ ok (or_nil (part (from_json O keeps J C) o))
  unfolding existing
  existing_lem M C key s none missing has =
      let (e, answer, not_found) = read_missing O keeps key s missing in rw (answer, not_found) refl
  existing_lem M C key s (some o) there (a, has) =
      rw (read_there O keeps key s o there, unpack_lem M C o.body a has, has) refl

  pub decoded_lem :
      {A : Type 0} (M : Messages) (C : Codec A) (key : Bytes) (s : O.State) (o : Option Stored)
      → keeps.objects s key ≡ o
      → HasPart (from_json O keeps J C) o
      → decoded O J M C (read_object O key s) ≡ ok (part (from_json O keeps J C) o)
  unfolding decoded
  decoded_lem M C key s none missing has =
      let (e, answer, not_found) = read_missing O keeps key s missing in rw (answer, not_found) refl
  decoded_lem M C key s (some o) there (a, has) =
      rw (read_there O keeps key s o there, unpack_lem M C o.body a has, has) refl
