-- ===== src/Store/Objects/Progress.antt =====
-- A session on the object store that holds what is stored now.
use durable_wasm.Base.{
  ◌+◌, ◌≡◌, ◌∙◌, sym, refl, ap, Bytes, Option, none, some, [], ◌==◌, ==-refl, nat_eq, bytes_eq,
  Bool, true, false,
}
use durable_wasm.Types.{Result, ok, err, InstanceMeta}
use durable_wasm.Store.Codec.{Formats}
use durable_wasm.Store.Objects.{
  Answer, given, refused, ObjectStore, meta, object_key, metadata_input, swapped, put_metadata,
  save_metadata, load_metadata, with_etag,
}
use durable_wasm.Store.Objects.Lawful.{
  Stored, KeepsObjects, IsFaithful, admits, read_there, read_missing,
}

abbrev pub is_none : Option InstanceMeta → Bool
is_none none = true
is_none (some m) = false

abbrev pub loaded_etag : Option InstanceMeta → Bytes
loaded_etag none = []
loaded_etag (some m) = m.etag

module _ (O : ObjectStore) (keeps : KeepsObjects O) (J : Formats) (faithful : IsFaithful J) where
  -- What was loaded tells the ETag of the object, if there is one.
  with_etag-some :
      (r : Result InstanceMeta) (json etag : Bytes) (found : Option InstanceMeta)
      → J.meta.decode json ≡ r
      → with_etag O J (given (json, etag)) ≡ ok found
      → (is_none found ≡ false) × (loaded_etag found ≡ etag)
  unfolding with_etag
  with_etag-some (ok m) json etag found decodes loaded =
      let shown = rw decodes at loaded in
      let same : found ≡ some (record m { etag = etag }) = cc shown in rw same (refl, refl)
  with_etag-some (err e) json etag found decodes loaded = absurd (cc (rw decodes at loaded))

  swapped-ok :
      (m : InstanceMeta) (r : Answer (Option Bytes) × O.State) (etag : Bytes)
      → r.0 ≡ given (some etag)
      → (swapped O J m r).0 ≡ ok true
  unfolding swapped
  swapped-ok m (given o, s) etag answer = refl
  swapped-ok m (refused e, s) etag answer = absurd (cc answer)

  admitted :
      (m : InstanceMeta) (json : Bytes) (s : O.State) (found : Option InstanceMeta)
      (o : Option Stored)
      → keeps.objects s (object_key meta m.instance_id) ≡ o
      → load_metadata O J m.instance_id s ≡ ok found
      → m.etag ≡ loaded_etag found
      → (m.version == 0) ≡ is_none found
      → admits (metadata_input m json) o ≡ true
  unfolding metadata_input load_metadata with_etag
  admitted m json s found none at loaded tag new =
      let (e, answer, not_found) = read_missing O keeps (object_key meta m.instance_id) s at in
      let shown = rw (answer, not_found) at loaded in
      let same : found ≡ none = cc shown in
      let first : (m.version == 0) ≡ true = new ∙ ap is_none same in rw first refl
  admitted m json s found (some o) at loaded tag new =
      let read = read_there O keeps (object_key meta m.instance_id) s o at in
      let (there, etag) =
        with_etag-some (J.meta.decode o.body) o.body o.etag found refl
          (sym (ap (with_etag O J) read) ∙ loaded) in
      let later : (m.version == 0) ≡ false = new ∙ there in
      let same : (o.etag == m.etag) ≡ true =
        ap (λ (x : Bytes). o.etag == x) (tag ∙ etag) ∙ ==-refl o.etag in
      rw (later, same) refl

  -- A session that has loaded the metadata of an instance wins its swap if nothing was written
  -- since: with the ETag that it loaded, and with version 0 exactly if there were none. So a session
  -- whose swap was refused can go on after it has loaded again, over a service that keeps the
  -- objects that it is given and encodings that lose nothing.
  pub save_metadata-after_load :
      (m : InstanceMeta) (s : O.State) (found : Option InstanceMeta)
      → load_metadata O J m.instance_id s ≡ ok found
      → m.etag ≡ loaded_etag found
      → (m.version == 0) ≡ is_none found
      → (save_metadata O J m s).0 ≡ ok true
  unfolding save_metadata put_metadata metadata_input
  save_metadata-after_load m s found loaded tag new =
      let (json, encoded, _) =
        faithful.meta (record m { version = m.version + 1; etag = [] }) refl in
      let free = admitted m json s found _ refl loaded tag new in
      let (etag, answer, _) = keeps.put_admitted (metadata_input m json) s free in
      rw encoded (swapped-ok m (O.put_object (metadata_input m json) s) etag answer)
