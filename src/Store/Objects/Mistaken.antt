-- ===== src/Store/Objects/Mistaken.antt =====
-- isNotFound of s3_store.go on an error whose text has "404" in it by chance, as in the id of a request.
use durable_wasm.Base.{
  lower, ℕ, ◌≡◌, ◌∙◌, refl, ap, Bool, true, false, ◌||◌, ℕ, Bytes, none, [], ◌∷◌, ◌++◌, str,
  contains, contains-middle, to_lower, nat_eq,
}
use mathlib.Core.List.{map-append}
use durable_wasm.Types.{ok, OplogEntry}
use durable_wasm.Store.Codec.{Formats}
use durable_wasm.Store.Objects.{
  ObjectError, refused, ObjectStore, is_not_found, read_object, oplog, meta, object_key, existing,
  decoded, write_json, write_merged, save_oplog, load_oplog, load_metadata, load_deltas, deltas,
  truncate_oplog, cut_oplog_object, oplog_messages, with_etag,
}

or-true : (b : Bool) → (b || true) ≡ true
or-true true = refl
or-true false = refl

mentions-404 :
    (before after : Bytes) → contains (to_lower (before ++ (str "404" ++ after))) (str "404") ≡ true
mentions-404 before after =
    ap (λ (t : Bytes). contains t (str "404"))
      (map-append lower before (str "404" ++ after)
        ∙ ap (λ (t : Bytes). to_lower before ++ t) (map-append lower (str "404") after))
    ∙ contains-middle (to_lower before) (str "404") (to_lower after)

is_not_found-404 :
    (e : ObjectError) (before after : Bytes)
    → e.message ≡ before ++ (str "404" ++ after)
    → is_not_found e ≡ true
unfolding is_not_found
is_not_found-404 e before after text = rw (text, mentions-404 before after, or-true) refl

module _ (O : ObjectStore) (J : Formats) where
  -- While every read fails with an error that has "404" anywhere in its text, an instance loads as
  -- one with no metadata, no deltas and an empty log, a truncation of the log returns without an
  -- error and changes nothing, and a save of a log entry writes a log of this entry alone, whatever
  -- log is stored.
  pub read-mistaken :
      (id before after : Bytes) (e : ObjectError) (entry : OplogEntry) (n : ℕ) (s : O.State)
      → ((key : Bytes) → read_object O key s ≡ refused e)
      → e.message ≡ before ++ (str "404" ++ after)
      → (load_metadata O J id s ≡ ok none)
        × (load_deltas O J id s ≡ ok [])
        × (load_oplog O J id s ≡ ok [])
        × (truncate_oplog O J id n s ≡ (ok tt, s))
        × (save_oplog O J id entry s
            ≡ write_json O J oplog_messages J.oplog (object_key oplog id) (entry ∷ []) s)
  unfolding load_oplog load_metadata load_deltas truncate_oplog save_oplog decoded existing
      with_etag cut_oplog_object write_merged
  read-mistaken id before after e entry n s read text =
      let gone = is_not_found-404 e before after text in
      (
        rw (read (object_key meta id), gone) refl,
        rw (read (object_key deltas id), gone) refl,
        rw (read (object_key oplog id), gone) refl,
        rw (read (object_key oplog id), gone) refl,
        rw (read (object_key oplog id), gone) refl,
      )
