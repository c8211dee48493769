-- ===== src/Store/Objects/Steps.antt =====
-- Each write of s3_store.go as a step on the contents, which leaves every object readable.
use durable_wasm.Base.{
  Bool-cases, ==-eq, ℕ, ◌≡◌, ◌∙◌, sym, refl, ap, fun_ext, Bytes, Option, none, some, List, [], ◌∷◌,
  ◌++◌, Map, lookup, ◌==◌, nat_eq, bytes_eq, Bool, true, false, inl, inr, merge, lookup-merge,
  or_else,
}
use durable_wasm.Types.{Result, ok, OplogEntry}
use durable_wasm.Store.Memory.{or_nil}
use durable_wasm.Store.View.{
  View, View-ext, entries_after, update, put_snapshot, put_deltas, drop_deltas, push_oplog,
  cut_oplog, put_wasm,
}
use durable_wasm.Store.Contract.{Writes}
use durable_wasm.Store.Codec.{Formats}
use durable_wasm.Store.Objects.{
  ObjectStore, read_object, write_merged, remove_object, delete_keys, delete_rest, delete_instance,
  Kind, snapshot, deltas, oplog, meta, active, wasm, object_key, write_json, existing, decoded,
  save, save_deltas, save_oplog, cut_oplog_object, truncate_oplog, truncate_deltas, save_wasm,
  update_active_index, deltas_messages, oplog_messages, truncate_messages,
}
use durable_wasm.Store.Objects as Objects
use durable_wasm.Store.Objects.Lawful.{Stored, KeepsObjects, IsFaithful}
use durable_wasm.Store.Objects.Contents.{
  value, part, HasPart, object_at, from_json, contents, Readable, Puts-Readable, contents-snapshot,
  contents-deltas, contents-oplog, contents-wasm, contents-active,
}
use durable_wasm.Store.Objects.Writes.{
  write_object_lem, remove_object_lem, save_lem, save_wasm_lem, write_json_lem, existing_lem,
  decoded_lem,
}

module _ (O : ObjectStore) (keeps : KeepsObjects O) (J : Formats) (faithful : IsFaithful J) where
  -- A write that succeeds, with what it does to the contents, and every object readable afterwards.
  abbrev pub Steps : Result (Unit {0}) × O.State → View → Type 0
  Steps r after = Writes (contents O keeps J) r after × Readable O keeps J r.1

  module _ (s : O.State) (readable : Readable O keeps J s) where
    pub save-Steps :
        (id b : Bytes) → Steps (save O J id b s) (put_snapshot id b (contents O keeps J s))
    save-Steps id b =
        let (done, o, back, puts) = save_lem O keeps J faithful id b s in
        (
          (
            done,
            contents-snapshot O keeps J id (some o) s _ puts
                ∙ ap
                    (λ r. record (contents O keeps J s) {
                      snapshot = update id (value r) (contents O keeps J s).snapshot;
                    })
                    back,
          ),
          Puts-Readable O keeps J snapshot id (some o) s _ puts (b, back) readable,
        )

    pub save_wasm-Steps :
        (id b : Bytes) → Steps (save_wasm O J id b s) (put_wasm id b (contents O keeps J s))
    save_wasm-Steps id b =
        let (done, o, back, puts) = save_wasm_lem O keeps J faithful id b s in
        (
          (
            done,
            contents-wasm O keeps J id (some o) s _ puts
                ∙ ap
                    (λ r. record (contents O keeps J s) {
                      wasm = update id (value r) (contents O keeps J s).wasm;
                    })
                    back,
          ),
          Puts-Readable O keeps J wasm id (some o) s _ puts (b, back) readable,
        )

    save_deltas_step :
        (id : Bytes) (new : Map ℕ Bytes) (r : Result (Map ℕ Bytes))
        → r ≡ ok (or_nil (part (from_json O keeps J J.deltas) (object_at O keeps J deltas id s)))
        → Steps
            (write_merged O J deltas_messages J.deltas (object_key deltas id) (merge new) r s)
            (put_deltas id new (contents O keeps J s))
    unfolding write_merged
    save_deltas_step id new r read =
        let old = or_nil (part (from_json O keeps J J.deltas) (object_at O keeps J deltas id s)) in
        let (json, back, encoded, decodes, same) = faithful.deltas (merge new old) in
        let (done, o, is_back, puts) =
          write_json_lem O keeps J faithful deltas_messages J.deltas deltas id (merge new old) back
            json s encoded decodes in
        let now : (i : ℕ)
            → lookup i (or_nil (value (from_json O keeps J J.deltas o.body)))
              ≡ or_else (lookup i new) (lookup i old) =
          λ i. ap (λ x. lookup i (or_nil (value x))) is_back ∙ same i ∙ lookup-merge i new old in
        rw read (
          (
            done,
            contents-deltas O keeps J id (some o) s _ puts
                ∙ unfold contents in
                  (ap
                    (λ (f : ℕ → Option Bytes). record (contents O keeps J s) {
                      deltas = update id f (contents O keeps J s).deltas;
                    })
                    (fun_ext now)),
          ),
          Puts-Readable O keeps J deltas id (some o) s _ puts (back, is_back) readable,
        )

    pub save_deltas-Steps :
        (id : Bytes) (new : Map ℕ Bytes)
        → Steps (save_deltas O J id new s) (put_deltas id new (contents O keeps J s))
    unfolding save_deltas
    save_deltas-Steps id new = save_deltas_step id new _ (
        existing_lem O keeps J deltas_messages J.deltas (object_key deltas id) s _ refl
          (readable deltas id))

    -- A log that is written in the place of the old one.
    oplog_written :
        (M : Objects.Messages) (id : Bytes) (log : List OplogEntry)
        → Steps
            (write_json O J M J.oplog (object_key oplog id) log s)
            (record (contents O keeps J s) { oplog = update id log (contents O keeps J s).oplog })
    oplog_written M id log =
        let (json, encoded, decodes) = faithful.oplog log in
        let (done, o, back, puts) =
          write_json_lem O keeps J faithful M J.oplog oplog id log log json s encoded decodes in
        (
          (
            done,
            contents-oplog O keeps J id (some o) s _ puts
                ∙ ap
                    (λ r. record (contents O keeps J s) {
                      oplog = update id (or_nil (value r)) (contents O keeps J s).oplog;
                    })
                    back,
          ),
          Puts-Readable O keeps J oplog id (some o) s _ puts (log, back) readable,
        )

    save_oplog_step :
        (id : Bytes) (entry : OplogEntry) (r : Result (List OplogEntry))
        → r ≡ ok (or_nil (part (from_json O keeps J J.oplog) (object_at O keeps J oplog id s)))
        → Steps
            (write_merged O J oplog_messages J.oplog
              (object_key oplog id)
              (λ entries. entries ++ (entry ∷ []))
              r
              s)
            (push_oplog id entry (contents O keeps J s))
    unfolding write_merged contents
    save_oplog_step id entry r read = rw read (oplog_written oplog_messages id _)

    pub save_oplog-Steps :
        (id : Bytes) (entry : OplogEntry)
        → Steps (save_oplog O J id entry s) (push_oplog id entry (contents O keeps J s))
    unfolding save_oplog
    save_oplog-Steps id entry = save_oplog_step id entry _ (
        existing_lem O keeps J oplog_messages J.oplog (object_key oplog id) s _ refl
          (readable oplog id))

    kept_oplog :
        (id : Bytes) (n : ℕ)
        → (contents O keeps J s).oplog id ≡ []
        → contents O keeps J s ≡ cut_oplog id n (contents O keeps J s)
    unfolding entries_after
    kept_oplog id n empty =
        View-ext _ _ (λ _. refl) (λ _ _. refl)
          (λ j. elim (Bool-cases (j == id)) [
            | inl same ↦ rw same (
                ap (contents O keeps J s).oplog (==-eq j id same)
                ∙ empty
                ∙ sym (ap (entries_after n) empty))
            | inr other ↦ rw other refl
          ])
          (λ _. refl) (λ _. refl)

    cut_step :
        (id : Bytes) (n : ℕ) (o : Option Stored)
        → object_at O keeps J oplog id s ≡ o
        → HasPart (from_json O keeps J J.oplog) o
        → Steps
            (cut_oplog_object O J
              (object_key oplog id)
              n
              (ok (part (from_json O keeps J J.oplog) o))
              s)
            (cut_oplog id n (contents O keeps J s))
    unfolding cut_oplog_object contents
    cut_step id n none at has = ((refl, kept_oplog id n (rw at refl)), readable)
    cut_step id n (some o) at (log, has) =
        rw has (rw at (rw has (oplog_written truncate_messages id (entries_after n log))))

    pub truncate_oplog-Steps :
        (id : Bytes) (n : ℕ)
        → Steps (truncate_oplog O J id n s) (cut_oplog id n (contents O keeps J s))
    unfolding truncate_oplog
    truncate_oplog-Steps id n =
        let read =
          decoded_lem O keeps J truncate_messages J.oplog (object_key oplog id) s _ refl
            (readable oplog id) in
        rw read (cut_step id n _ refl (readable oplog id))

    pub truncate_deltas-Steps :
        (id : Bytes) → Steps (truncate_deltas O id s) (drop_deltas id (contents O keeps J s))
    unfolding truncate_deltas lookup
    truncate_deltas-Steps id =
        let (done, puts) = remove_object_lem O keeps J _ deltas id s in
        (
          (done, contents-deltas O keeps J id none s _ puts),
          Puts-Readable O keeps J deltas id none s _ puts tt readable,
        )

    pub update_active_index-Steps :
        (id info : Bytes) (completed : Bool)
        → Steps (update_active_index O J id info completed s) (contents O keeps J s)
    unfolding update_active_index
    update_active_index-Steps id info true =
        let (done, puts) = remove_object_lem O keeps J _ active id s in
        (
          (done, contents-active O keeps J id none s _ puts),
          Puts-Readable O keeps J active id none s _ puts tt readable,
        )
    update_active_index-Steps id info false =
        let (done, o, same, puts) = write_object_lem O keeps J _ active id info s in
        (
          (done, contents-active O keeps J id (some o) s _ puts),
          Puts-Readable O keeps J active id (some o) s _ puts tt readable,
        )
