-- ===== src/Store/Objects/Lost.antt =====
-- SaveOplog of s3_store.go by two sessions of an instance: each reads the log, and then writes it.
use durable_wasm.Base.{
  ◌≡◌, ◌∙◌, sym, refl, ap, Bytes, Option, some, List, [], ◌∷◌, ◌++◌, ==-refl, bytes_eq,
  if◌then◌else◌,
}
use durable_wasm.Types.{Result, ok, OplogEntry}
use durable_wasm.Store.Memory.{or_nil}
use durable_wasm.Store.Codec.{Formats}
use durable_wasm.Store.Objects.{
  ObjectStore, oplog, object_key, read_object, existing, write_merged, save_oplog, load_oplog,
  oplog_messages, load_oplog_messages,
}
use durable_wasm.Store.Objects.Lawful.{Stored, KeepsObjects, IsFaithful}
use durable_wasm.Store.Objects.Contents.{value, part, HasPart, object_at, from_json, Readable}
use durable_wasm.Store.Objects.Writes.{write_json_lem, existing_lem, decoded_lem}
use durable_wasm.Store.Objects.Steps.{save_oplog-Steps}
use durable_wasm.Store.Objects.Refines.{or_missing-ok}

module _ (O : ObjectStore) (keeps : KeepsObjects O) (J : Formats) (faithful : IsFaithful J) where
  -- The second half of SaveOplog in a state `now`, of which the first half read the log in the state `then`.
  abbrev pub finish_save : Bytes → OplogEntry → O.State → O.State → Result (Unit {0}) × O.State
  finish_save id entry earlier now =
      write_merged O J oplog_messages J.oplog (object_key oplog id)
        (λ entries. entries ++ (entry ∷ []))
        (existing O J oplog_messages J.oplog [] (read_object O (object_key oplog id) earlier)) now

  loaded_log : Bytes → O.State → List OplogEntry
  loaded_log id s = or_nil (part (from_json O keeps J J.oplog) (object_at O keeps J oplog id s))

  load_oplog-read :
      (id : Bytes) (s : O.State) (o : Option Stored)
      → object_at O keeps J oplog id s ≡ o
      → HasPart (from_json O keeps J J.oplog) o
      → load_oplog O J id s ≡ ok (or_nil (part (from_json O keeps J J.oplog) o))
  unfolding load_oplog
  load_oplog-read id s o at has =
      or_missing-ok _ _
        (decoded_lem O keeps J load_oplog_messages J.oplog (object_key oplog id) s o at has)

  finish-written :
      (id : Bytes) (entry : OplogEntry) (log : List OplogEntry) (r : Result (List OplogEntry))
      (now : O.State)
      → r ≡ ok log
      → let w =
          write_merged O J oplog_messages J.oplog
            (object_key oplog id)
            (λ entries. entries ++ (entry ∷ []))
            r
            now in
        (w.0 ≡ ok tt) × (load_oplog O J id w.1 ≡ ok (log ++ (entry ∷ [])))
  unfolding write_merged
  finish-written id entry log r now read =
      let next = log ++ (entry ∷ []) in
      let (json, encoded, decodes) = faithful.oplog next in
      let (done, o, back, puts) =
        write_json_lem O keeps J faithful oplog_messages J.oplog oplog id next next json now encoded
          decodes in
      let there =
        puts.0 id ∙ ap (λ b. if b then some o else object_at O keeps J oplog id now) (==-refl id) in
      rw read (
        done,
        load_oplog-read id _ (some o) there (next, back) ∙ ap (λ x. ok (or_nil (value x))) back,
      )

  -- SaveOplog on the object store is not atomic: if another session of the instance saves an entry
  -- between the read and the write of a SaveOplog, both report success, and the log that is loaded
  -- afterwards has the own entry but not the other one: on a bucket in which every object can be
  -- decoded, over a service that keeps the objects that it is given and encodings that lose nothing.
  -- With no other session in between, the two halves are SaveOplog.
  pub save_oplog-lost :
      (id : Bytes) (mine theirs : OplogEntry) (log : List OplogEntry) (s : O.State)
      → Readable O keeps J s
      → load_oplog O J id s ≡ ok log
      → let other = save_oplog O J id theirs s in
        let own = finish_save id mine s other.1 in
        (finish_save id mine s s ≡ save_oplog O J id mine s)
        × (other.0 ≡ ok tt)
        × (own.0 ≡ ok tt)
        × (load_oplog O J id own.1 ≡ ok (log ++ (mine ∷ [])))
  unfolding save_oplog
  save_oplog-lost id mine theirs log s readable had =
      let other = save_oplog O J id theirs s in
      let read =
        existing_lem O keeps J oplog_messages J.oplog (object_key oplog id) s _ refl
          (readable oplog id) in
      let same : ok (or_nil (part (from_json O keeps J J.oplog) (object_at O keeps J oplog id s)))
          ≡ ok log =
        sym (load_oplog-read id s _ refl (readable oplog id)) ∙ had in
      let (own_done, own_log) = finish-written id mine log _ other.1 (read ∙ same) in
      (refl, (save_oplog-Steps O keeps J faithful s readable id theirs).0.0, own_done, own_log)
