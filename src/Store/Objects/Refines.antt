-- ===== src/Store/Objects/Refines.antt =====
-- s3_store.go over a lawful bucket meets the contract of a snapshot store.
use durable_wasm.Base.{◌≡◌, refl, Bytes, Option, none, some, List, [], nat_eq, bytes_eq}
use durable_wasm.Types.{Error, Result, ok}
use durable_wasm.Store.{SnapshotStore}
use durable_wasm.Store.Memory.{or_nil}
use durable_wasm.Store.Contract.{IsReliable, Loads}
use durable_wasm.Store.Restrict.{Swaps-restrict, Keeps, restrict}
use durable_wasm.Store.Codec.{Formats, or_missing}
use durable_wasm.Store.Objects.{
  load_deltas_messages, load_oplog_messages, ObjectError, Answer, ObjectStore, read_object,
  snapshot, deltas, oplog, meta, wasm, object_key, loaded, load, load_deltas, load_oplog,
  load_metadata, save_metadata, load_wasm, with_etag, object_store,
}
use durable_wasm.Store.Objects.Lawful.{Stored, KeepsObjects, IsFaithful, read_there, read_missing}
use durable_wasm.Store.Objects.Contents.{part, HasPart, meta_part, contents, Readable}
use durable_wasm.Store.Objects.Writes.{decoded_lem}
use durable_wasm.Store.Objects.Steps.{
  save-Steps, save_wasm-Steps, save_deltas-Steps, save_oplog-Steps, truncate_oplog-Steps,
  truncate_deltas-Steps, update_active_index-Steps,
}
use durable_wasm.Store.Objects.Swaps.{
  delete_instance-Steps, save_metadata-SwapSteps, save_metadata-hash,
}

pub or_missing-ok :
    {A : Type 0} (r : Result (Option (List A))) (o : Option (List A))
    → r ≡ ok o
    → or_missing [] r ≡ ok (or_nil o)
or_missing-ok r none h = rw h refl
or_missing-ok r (some a) h = rw h refl

module _ (O : ObjectStore) (keeps : KeepsObjects O) (J : Formats) where
  Loads-part :
      (failure : ObjectError → Error) (key : Bytes) (s : O.State) (o : Option Stored)
      → keeps.objects s key ≡ o
      → HasPart J.gzip.decode o
      → Loads (loaded O J failure (read_object O key s)) (part J.gzip.decode o)
  unfolding loaded
  Loads-part failure key s none missing has =
      let (e, answer, not_found) = read_missing O keeps key s missing in (failure e, rw answer refl)
  Loads-part failure key s (some o) there (b, has) =
      rw (has, read_there O keeps key s o there, has) refl

  load_metadata_part :
      (key : Bytes) (s : O.State) (o : Option Stored)
      → keeps.objects s key ≡ o
      → HasPart J.meta.decode o
      → with_etag O J (read_object O key s) ≡ ok (meta_part J.meta.decode o)
  unfolding with_etag
  load_metadata_part key s none missing has =
      let (e, answer, not_found) = read_missing O keeps key s missing in rw (answer, not_found) refl
  load_metadata_part key s (some o) there (m, has) = rw (read_there O keeps key s o there, has) refl

module _ (O : ObjectStore) (keeps : KeepsObjects O) (J : Formats) (faithful : IsFaithful J)
    (arrive : List (Answer (Bytes × Bytes)) → List (Answer (Bytes × Bytes))) where
  abbrev whole_store : SnapshotStore
  whole_store = object_store O J arrive

  pub object_store-Keeps : Keeps whole_store (Readable O keeps J)
  object_store-Keeps = record {
    save = λ id b s readable. (save-Steps O keeps J faithful s readable id b).1;
    delete = λ id s readable. (delete_instance-Steps O keeps J faithful id s readable).1;
    save_deltas = λ id new s readable. (save_deltas-Steps O keeps J faithful s readable id new).1;
    truncate_deltas = λ id s readable. (truncate_deltas-Steps O keeps J faithful s readable id).1;
    save_oplog = λ id entry s readable. (save_oplog-Steps O keeps J faithful s readable id entry).1;
    truncate_oplog = λ id n s readable. (truncate_oplog-Steps O keeps J faithful s readable id n).1;
    save_metadata = λ m s readable. (save_metadata-SwapSteps O keeps J faithful m s readable).1;
    save_wasm = λ hash b s readable. (save_wasm-Steps O keeps J faithful s readable hash b).1;
    update_active_index = λ id info completed s readable.
        (update_active_index-Steps O keeps J faithful s readable id info completed).1;
  }

  -- The store on the buckets in which every object can be decoded.
  abbrev pub readable_store : SnapshotStore
  readable_store = restrict whole_store (Readable O keeps J) object_store-Keeps

  reliable_objects : IsReliable readable_store
  unfolding load load_deltas load_oplog load_metadata load_wasm contents
  reliable_objects = record {
    view = λ s. contents O keeps J s.0;
    save_writes = λ id b s. (save-Steps O keeps J faithful s.0 s.1 id b).0;
    load_loads =
        λ id s. Loads-part O keeps J _ (object_key snapshot id) s.0 _ refl (s.1 snapshot id);
    delete_writes = λ id s. (delete_instance-Steps O keeps J faithful id s.0 s.1).0;
    save_deltas_writes = λ id new s. (save_deltas-Steps O keeps J faithful s.0 s.1 id new).0;
    load_deltas_loads = λ id s. (
      _,
      or_missing-ok _ _ (
          decoded_lem O keeps J load_deltas_messages J.deltas (object_key deltas id) s.0 _ refl
            (s.1 deltas id)),
      λ i. refl,
    );
    truncate_deltas_writes = λ id s. (truncate_deltas-Steps O keeps J faithful s.0 s.1 id).0;
    save_oplog_writes = λ id entry s. (save_oplog-Steps O keeps J faithful s.0 s.1 id entry).0;
    load_oplog_loads = λ id s. or_missing-ok _ _ (
        decoded_lem O keeps J load_oplog_messages J.oplog (object_key oplog id) s.0 _ refl
          (s.1 oplog id));
    truncate_oplog_writes = λ id n s. (truncate_oplog-Steps O keeps J faithful s.0 s.1 id n).0;
    save_metadata_swaps = λ m s.
        Swaps-restrict (Readable O keeps J) (contents O keeps J) m s (save_metadata O J m s.0) _
          (save_metadata-SwapSteps O keeps J faithful m s.0 s.1).0;
    save_metadata_hash = λ m s. save_metadata-hash O keeps J faithful m s.0;
    load_metadata_loads =
        λ id s. load_metadata_part O keeps J (object_key meta id) s.0 _ refl (s.1 meta id);
    save_wasm_writes = λ hash b s. (save_wasm-Steps O keeps J faithful s.0 s.1 hash b).0;
    load_wasm_loads =
        λ hash s. Loads-part O keeps J _ (object_key wasm hash) s.0 _ refl (s.1 wasm hash);
  }

  -- The object store meets the contract of a snapshot store on the buckets in which every object can
  -- be decoded, which every operation keeps so: each operation does to the contents of the bucket
  -- what the contract says. This is over a service that keeps the objects that it is given and
  -- honours conditional puts, without failures of its own, and encodings that lose nothing.
  pub object_store-IsReliable :
      (rel : IsReliable readable_store) × ((s : readable_store.State)
        → rel.view s ≡ contents O keeps J s.0)
  unfolding reliable_objects
  object_store-IsReliable = (reliable_objects, λ s. refl)
