-- ===== src/Store/Objects/Swaps.antt =====
-- Delete and SaveMetadata of s3_store.go on a lawful bucket.
use durable_wasm.Base.{
  ◌≡◌, ◌∙◌, refl, ap, Bytes, Option, none, some, List, [], ◌∷◌, ◌==◌, nat_eq, bytes_eq,
  if◌then◌else◌, Bool, true, false, Bool-cases, inl, inr, ◌+◌, lookup,
}
use Prim.Native.String.{String}
use durable_wasm.Types.{Result, ok, err, InstanceMeta}
use durable_wasm.Store.View.{View, View-ext, update, drop_instance}
use durable_wasm.Store.Contract.{Swaps}
use durable_wasm.Store.Codec.{Formats}
use durable_wasm.Store.Objects.{
  Answer, given, refused, ObjectError, is_precondition_failed, ObjectStore, remove_object,
  delete_keys, delete_rest, delete_instance, snapshot, deltas, oplog, meta, active, wasm,
  object_key, metadata_input, swapped, put_metadata, save_metadata,
}
use durable_wasm.Store.Objects.Lawful.{Stored, KeepsObjects, IsFaithful, admits}
use durable_wasm.Store.Objects.Contents.{
  object_at, contents, Puts_lem, Readable, Puts-Readable, contents-snapshot, contents-deltas,
  contents-meta, contents-oplog, contents-active, tagged,
}
use durable_wasm.Store.Objects.Writes.{remove_object_lem}
use durable_wasm.Store.Objects.Steps.{Steps}

module _ (O : ObjectStore) (keeps : KeepsObjects O) (J : Formats) (faithful : IsFaithful J) where
  delete_rest-ok :
      (rest : O.State → Result (Unit {0}) × O.State) (r : Result (Unit {0}) × O.State)
      → r.0 ≡ ok tt
      → delete_rest O rest r ≡ rest r.1
  unfolding delete_rest
  delete_rest-ok rest (ok tt, t) done = refl
  delete_rest-ok rest (err e, t) done = absurd (cc done)

  delete_keys-cons :
      (key : Bytes) (keys : List Bytes) (s : O.State)
      → let r = remove_object O "failed to delete key from S3" key s in
        r.0 ≡ ok tt → delete_keys O (key ∷ keys) s ≡ delete_keys O keys r.1
  unfolding delete_keys
  delete_keys-cons key keys s done = delete_rest-ok (delete_keys O keys) _ done

  pub delete_instance-Steps :
      (id : Bytes) (s : O.State)
      → Readable O keeps J s
      → Steps O keeps J faithful (delete_instance O id s) (drop_instance id (contents O keeps J s))
  unfolding delete_instance delete_keys lookup
  delete_instance-Steps id s readable =
      let message : String = "failed to delete key from S3" in
      let c = contents O keeps J in
      let a = (remove_object O message (object_key snapshot id) s).1 in
      let b = (remove_object O message (object_key deltas id) a).1 in
      let d = (remove_object O message (object_key oplog id) b).1 in
      let e = (remove_object O message (object_key meta id) d).1 in
      let f = (remove_object O message (object_key active id) e).1 in
      let (a_done, a_puts) = remove_object_lem O keeps J message snapshot id s in
      let (b_done, b_puts) = remove_object_lem O keeps J message deltas id a in
      let (d_done, d_puts) = remove_object_lem O keeps J message oplog id b in
      let (e_done, e_puts) = remove_object_lem O keeps J message meta id d in
      let (f_done, f_puts) = remove_object_lem O keeps J message active id e in
      let whole : delete_instance O id s ≡ (ok tt, f) =
        delete_keys-cons (object_key snapshot id)
          (object_key deltas id
            ∷ (object_key oplog id ∷ (object_key meta id ∷ (object_key active id ∷ []))))
          s a_done
        ∙ delete_keys-cons (object_key deltas id)
            (object_key oplog id ∷ (object_key meta id ∷ (object_key active id ∷ []))) a b_done
        ∙ delete_keys-cons (object_key oplog id) (object_key meta id ∷ (object_key active id ∷ []))
            b d_done
        ∙ delete_keys-cons (object_key meta id) (object_key active id ∷ []) d e_done
        ∙ delete_keys-cons (object_key active id) [] e f_done in
      let seen : c f ≡ drop_instance id (c s) =
        contents-active O keeps J id none e f f_puts
        ∙ contents-meta O keeps J id none d e e_puts
        ∙ ap (λ (v : View). record v { meta = update id none v.meta })
            (contents-oplog O keeps J id none b d d_puts
              ∙ ap (λ (v : View). record v { oplog = update id [] v.oplog })
                  (contents-deltas O keeps J id none a b b_puts
                    ∙ ap (λ (v : View). record v { deltas = update id (λ i. none) v.deltas })
                        (contents-snapshot O keeps J id none s a a_puts))) in
      rw whole (
        (refl, seen),
        Puts-Readable O keeps J active id none e f f_puts tt (
            Puts-Readable O keeps J meta id none d e e_puts tt (
              Puts-Readable O keeps J oplog id none b d d_puts tt (
                Puts-Readable O keeps J deltas id none a b b_puts tt
                  (Puts-Readable O keeps J snapshot id none s a a_puts tt readable)))),
      )

  unchanged :
      (s s' : O.State)
      → ((j : Bytes) → keeps.objects s' j ≡ keeps.objects s j)
      → (contents O keeps J s' ≡ contents O keeps J s)
        × (Readable O keeps J s → Readable O keeps J s')
  unfolding contents
  unchanged s s' same = (
    View-ext _ _ (λ j. rw (same (object_key snapshot j)) refl)
        (λ j i. rw (same (object_key deltas j)) refl) (λ j. rw (same (object_key oplog j)) refl)
        (λ j. rw (same (object_key meta j)) refl) (λ j. rw (same (object_key wasm j)) refl),
    λ readable k j. rw (same (object_key k j)) (readable k j),
  )

  -- What a swap does, with every object readable afterwards.
  abbrev pub SwapSteps : InstanceMeta → O.State → Result Bool × InstanceMeta × O.State → Type 0
  SwapSteps m s r = Swaps (contents O keeps J) m s r × Readable O keeps J r.2

  swap_won :
      (m : InstanceMeta) (json etag : Bytes) (s : O.State) (r : Answer (Option Bytes) × O.State)
      → Readable O keeps J s
      → J.meta.decode json ≡ ok (record m { version = m.version + 1; etag = [] })
      → r.0 ≡ given (some etag)
      → ((j : Bytes)
          → keeps.objects r.1 j ≡ (
              if j == object_key meta m.instance_id
              then some (record { body = json; etag = etag })
              else keeps.objects s j))
      → SwapSteps m s (swapped O J m r)
  unfolding swapped
  swap_won m json etag s (given none, s') readable decodes answer changed = absurd (cc answer)
  swap_won m json etag s (refused e, s') readable decodes answer changed = absurd (cc answer)
  swap_won m json etag s (given (some tag), s') readable decodes answer changed =
      let new : Stored = record { body = json; etag = etag } in
      let puts = Puts_lem O keeps J meta m.instance_id (some new) s s' changed in
      let same : tag ≡ etag = cc answer in
      rw same (
        (
          refl,
          refl,
          contents-meta O keeps J m.instance_id (some new) s s' puts
              ∙ ap
                  (λ r. record (contents O keeps J s) {
                    meta = update m.instance_id (tagged etag r) (contents O keeps J s).meta;
                  })
                  decodes,
        ),
        Puts-Readable O keeps J meta m.instance_id (some new) s s' puts (_, decodes) readable,
      )

  swap_lost :
      (m : InstanceMeta) (e : ObjectError) (o : Option Stored) (s : O.State)
      (r : Answer (Option Bytes) × O.State)
      → Readable O keeps J s
      → object_at O keeps J meta m.instance_id s ≡ o
      → admits (metadata_input m []) o ≡ false
      → r.0 ≡ refused e
      → ((found : Stored) → o ≡ some found → is_precondition_failed e ≡ true)
      → ((j : Bytes) → keeps.objects r.1 j ≡ keeps.objects s j)
      → SwapSteps m s (swapped O J m r)
  unfolding swapped metadata_input
  swap_lost m e o s (given etag, s') readable at held answer code same = absurd (cc answer)
  swap_lost m e (some found) s (refused e', s') readable at held answer code same =
      let (seen, read) = unchanged s s' same in
      let is_code : is_precondition_failed e' ≡ true =
        (let same_error : e' ≡ e = cc answer in
          ap is_precondition_failed same_error ∙ code found refl) in
      rw is_code ((refl, seen), read readable)
  swap_lost m e none s (refused e', s') readable at held answer code same =
      let (seen, read) = unchanged s s' same in
      elim (Bool-cases (is_precondition_failed e')) [
        | inl lost ↦ rw lost ((refl, seen), read readable)
        | inr failure ↦ elim (Bool-cases (m.version == 0)) [
          | inl new ↦ absurd (cc (rw new at held))
          | inr old ↦ rw failure ((old, unfold contents in (rw at refl), refl, seen), read readable)
        ]
      ]

  pub save_metadata-SwapSteps :
      (m : InstanceMeta) (s : O.State)
      → Readable O keeps J s
      → SwapSteps m s (save_metadata O J m s)
  unfolding save_metadata put_metadata metadata_input
  save_metadata-SwapSteps m s readable =
      let (json, encoded, decodes) =
        faithful.meta (record m { version = m.version + 1; etag = [] }) refl in
      let input = metadata_input m json in
      rw encoded (elim (Bool-cases (admits input (object_at O keeps J meta m.instance_id s))) [
        | inl won ↦
            let (etag, answer, changed) = keeps.put_admitted input s won in
            swap_won m json etag s (O.put_object input s) readable decodes answer changed
        | inr lost ↦
            let (e, answer, code, same) = keeps.put_refused input s lost in
            swap_lost m e _ s (O.put_object input s) readable refl lost answer code same
      ])

  swapped-hash :
      (m : InstanceMeta) (r : Answer (Option Bytes) × O.State)
      → (swapped O J m r).1.wasm_hash ≡ m.wasm_hash
  unfolding swapped
  swapped-hash m (given etag, s) = refl
  swapped-hash m (refused e, s) = refl

  put_metadata-hash :
      (m : InstanceMeta) (r : Result Bytes) (s : O.State)
      → (put_metadata O J m r s).1.wasm_hash ≡ m.wasm_hash
  unfolding put_metadata
  put_metadata-hash m (err e) s = refl
  put_metadata-hash m (ok json) s = swapped-hash m (O.put_object (metadata_input m json) s)

  pub save_metadata-hash :
      (m : InstanceMeta) (s : O.State) → (save_metadata O J m s).1.wasm_hash ≡ m.wasm_hash
  unfolding save_metadata
  save_metadata-hash m s = put_metadata-hash m _ s
