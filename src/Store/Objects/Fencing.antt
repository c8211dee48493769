-- ===== src/Store/Objects/Fencing.antt =====
-- SaveMetadata of s3_store.go against a session that holds metadata of the same version.
use durable_wasm.Base.{
  ℕ, ◌≡◌, ◌≢◌, ◌∙◌, sym, refl, ap, arith, Bytes, Option, none, some, [], ◌==◌, ==-eq, ==-refl,
  nat_eq, bytes_eq, if◌then◌else◌, true, false, Bool-cases, inl, inr, ◌+◌,
}
use durable_wasm.Types.{Result, ok, err, InstanceMeta}
use durable_wasm.Store.Codec.{Formats}
use durable_wasm.Store.Objects.{
  ObjectError, Answer, given, refused, Input, ObjectStore, meta, object_key, metadata_input,
  swapped, put_metadata, save_metadata, is_precondition_failed,
}
use durable_wasm.Store.Objects.Lawful.{Stored, KeepsObjects, admits, IsFaithful}

-- The documentation of S3 on ETags: an ETag reflects the contents of an object, so that an object that
-- is replaced by other bytes gets another ETag.
abbrev pub ChangesEtags : (O : ObjectStore) → KeepsObjects O → Type 0
ChangesEtags O keeps =
    (input : Input) (s : O.State) (old : Stored) (etag : Bytes)
    → keeps.objects s input.key ≡ some old
    → (O.put_object input s).0 ≡ given (some etag)
    → old.body ≢ input.body
    → old.etag ≢ etag

abbrev version_of : Result InstanceMeta → ℕ
version_of (ok m) = m.version
version_of (err e) = 0

module _ (O : ObjectStore) (keeps : KeepsObjects O) (changes : ChangesEtags O keeps) (J : Formats)
    (faithful : IsFaithful J) where
  -- The object of the metadata, if it has the ETag that a session holds, has the version that the
  -- session holds.
  abbrev pub Current : InstanceMeta → O.State → Type 0
  Current m s =
      (o : Stored)
      → keeps.objects s (object_key meta m.instance_id) ≡ some o
      → o.etag ≡ m.etag
      → (stored : InstanceMeta) × (J.meta.decode o.body ≡ ok stored) × (stored.version ≡ m.version)

  -- A session with metadata from before wins only against the object that it holds, whose bytes hold
  -- another version than the new ones.
  etag-changed :
      (first : InstanceMeta) (s : O.State) (json etag : Bytes) (o : Option Stored)
      → keeps.objects s (object_key meta first.instance_id) ≡ o
      → Current first s
      → (first.version == 0) ≡ false
      → admits (metadata_input first json) o ≡ true
      → (O.put_object (metadata_input first json) s).0 ≡ given (some etag)
      → J.meta.decode json ≡ ok (record first { version = first.version + 1; etag = [] })
      → first.etag ≢ etag
  unfolding metadata_input
  etag-changed first s json etag none at current old won answer decodes =
      absurd (cc (rw old at won))
  etag-changed first s json etag (some o) at current old won answer decodes =
      let held : (o.etag == first.etag) ≡ true = ground (arith, won, old) in
      let same : o.etag ≡ first.etag = ==-eq o.etag first.etag held in
      let (stored, was, version) = current o at same in
      let other : o.body ≢ json = λ (h : o.body ≡ json).
        let both : ok stored ≡ ok (record first { version = first.version + 1; etag = [] }) =
          sym was ∙ ap J.meta.decode h ∙ decodes in
        let versions : stored.version ≡ first.version + 1 = ap version_of both in
        omega (arith, version, versions) in
      λ h. changes (metadata_input first json) s o etag at answer other (same ∙ h)

  -- After a swap that won there is an object that the same swap does not find unchanged.
  held-false :
      (first second : InstanceMeta) (s : O.State) (json etag : Bytes)
      → first.instance_id ≡ second.instance_id
      → first.version ≡ second.version
      → first.etag ≡ second.etag
      → Current first s
      → admits (metadata_input first json) (keeps.objects s (object_key meta first.instance_id))
        ≡ true
      → (O.put_object (metadata_input first json) s).0 ≡ given (some etag)
      → J.meta.decode json ≡ ok (record first { version = first.version + 1; etag = [] })
      → (other : Bytes)
      → admits (metadata_input second other) (some (record { body = json; etag = etag })) ≡ false
  unfolding metadata_input
  held-false first second s json etag same_id same_version same_etag current won answer decodes
        other =
      elim (Bool-cases (first.version == 0)) [
        | inl new ↦
            let second_new : (second.version == 0) ≡ true =
              ap (λ (v : ℕ). v == 0) (sym same_version) ∙ new in
            rw second_new refl
        | inr old ↦
            let second_old : (second.version == 0) ≡ false =
              ap (λ (v : ℕ). v == 0) (sym same_version) ∙ old in
            let changed : first.etag ≢ etag =
              etag-changed first s json etag _ refl current old won answer decodes in
            let other_etag : (etag == second.etag) ≡ false =
              elim (Bool-cases (etag == second.etag)) [
                | inl same ↦ absurd (changed (same_etag ∙ sym (==-eq etag second.etag same)))
                | inr differ ↦ differ
              ] in
            rw (second_old, other_etag) refl
      ]

  swapped-refused :
      (m : InstanceMeta) (e : ObjectError) (r : Answer (Option Bytes) × O.State)
      → r.0 ≡ refused e
      → is_precondition_failed e ≡ true
      → ((swapped O J m r).0 ≡ ok false) × ((swapped O J m r).1 ≡ m)
  unfolding swapped
  swapped-refused m e (given etag, s) answer code = absurd (cc answer)
  swapped-refused m e (refused e', s) answer code =
      let is_code : is_precondition_failed e' ≡ true =
        (let same : e' ≡ e = cc answer in ap is_precondition_failed same ∙ code) in
      rw is_code (refl, refl)

  -- What a swap that won did.
  swapped-won :
      (m : InstanceMeta) (r : Answer (Option Bytes) × O.State)
      → (swapped O J m r).0 ≡ ok true
      → ((swapped O J m r).2 ≡ r.1) × (answer : Option Bytes) × (r.0 ≡ given answer)
  unfolding swapped
  swapped-won m (given etag, s) won = (refl, etag, refl)
  swapped-won m (refused e, s) won = elim (Bool-cases (is_precondition_failed e)) [
    | inl lost ↦ absurd (cc (rw lost at won))
    | inr failure ↦ absurd (cc (rw failure at won))
  ]

  -- A swap is a conditional put of the next metadata.
  save_metadata-put :
      (m : InstanceMeta) (s : O.State)
      → (json : Bytes) × (J.meta.decode json ≡ ok (record m { version = m.version + 1; etag = [] }))
        × (save_metadata O J m s ≡ swapped O J m (O.put_object (metadata_input m json) s))
  unfolding save_metadata put_metadata
  save_metadata-put m s =
      let (json, encoded, decodes) =
        faithful.meta (record m { version = m.version + 1; etag = [] }) refl in
      (json, decodes, rw encoded refl)

  -- The object that a swap leaves that won, and how it was admitted.
  save_metadata-stores :
      (m : InstanceMeta) (s : O.State)
      → (save_metadata O J m s).0 ≡ ok true
      → (json : Bytes) × (etag : Bytes) × (J.meta.decode json
          ≡ ok (record m { version = m.version + 1; etag = [] }))
        × (admits (metadata_input m json) (keeps.objects s (object_key meta m.instance_id)) ≡ true)
        × ((O.put_object (metadata_input m json) s).0 ≡ given (some etag))
        × (keeps.objects (save_metadata O J m s).2 (object_key meta m.instance_id)
            ≡ some (record { body = json; etag = etag }))
  unfolding metadata_input
  save_metadata-stores m s won =
      let (json, decodes, whole) = save_metadata-put m s in
      let key = object_key meta m.instance_id in
      let input = metadata_input m json in
      let (state, answer, put) =
        swapped-won m (O.put_object input s) (sym (ap (λ r. r.0) whole) ∙ won) in
      elim (Bool-cases (admits input (keeps.objects s key))) [
        | inl free ↦
            let (etag, stored, changed) = keeps.put_admitted input s free in
            (
              json,
              etag,
              decodes,
              free,
              stored,
              ap (λ (t : O.State). keeps.objects t key) (ap (λ r. r.2) whole ∙ state)
                  ∙ changed key
                  ∙ ap
                      (λ b.
                        if b
                        then some (record { body = json; etag = etag })
                        else keeps.objects s key)
                      (==-refl key),
            )
        | inr held ↦
            let (e, failed, _, _) = keeps.put_refused input s held in absurd (cc (failed, put))
      ]

  -- Of two sessions on the object store that hold metadata of one instance with the same version and
  -- ETag, once the first has won its swap, the second is refused, and its metadata stay as they are:
  -- if an object of the metadata with the ETag that they hold has the version that they hold, over a
  -- service that gives an object another ETag when it gets other bytes, and encodings that lose
  -- nothing.
  pub save_metadata-fenced :
      (first second : InstanceMeta) (s : O.State)
      → first.instance_id ≡ second.instance_id
      → first.version ≡ second.version
      → first.etag ≡ second.etag
      → Current first s
      → (save_metadata O J first s).0 ≡ ok true
      → let r = save_metadata O J second (save_metadata O J first s).2 in
        (r.0 ≡ ok false) × (r.1 ≡ second)
  unfolding metadata_input
  save_metadata-fenced first second s same_id same_version same_etag current won =
      let (json, etag, decodes, free, stored, there) = save_metadata-stores first s won in
      let t = (save_metadata O J first s).2 in
      let (other, _, whole) = save_metadata-put second t in
      let there' : keeps.objects t (object_key meta second.instance_id)
          ≡ some (record { body = json; etag = etag }) =
        ap (λ (id : Bytes). keeps.objects t (object_key meta id)) (sym same_id) ∙ there in
      let held =
        ap (admits (metadata_input second other)) there'
        ∙ held-false first second s json etag same_id same_version same_etag current free stored
            decodes other in
      let (e, answer, code, _) = keeps.put_refused (metadata_input second other) t held in
      rw whole (
        swapped-refused second e (O.put_object (metadata_input second other) t) answer
          (code _ there'))
