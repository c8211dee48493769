-- ===== src/Store/Files/RoundTrip.antt =====
-- What FileSnapshotStore reads after a write, over a file system that keeps what it is given.
use durable_wasm.Base.{
  ℕ, ◌≡◌, ◌∙◌, refl, ap, Bytes, Option, none, some, List, [], ◌∷◌, ◌++◌, nat_eq, bytes_eq,
}
use durable_wasm.Types.{Result, ok, err, OplogEntry}
use durable_wasm.Store.View.{entries_after}
use durable_wasm.Store.Codec.{
  Codec, Formats, IsLossless, and_then, and_then-ok, or_zero, or_missing,
}
use durable_wasm.Store.Files.{
  found, FileSystem, snapshot_path, oplog_path, write_encoded, make_dir, write_json, decoded,
  read_json, unpacked, save, load, save_oplog, load_oplog, cut_oplog_file, truncate_oplog,
}

-- What the code relies on: a file that was written without an error is read back, and making a
-- directory changes no file.
pub record KeepsFiles (F : FileSystem) : Type 0 where
  pub read_written :
      (path bytes : Bytes) (s : F.Files)
      → (F.write_file path bytes s).0 ≡ ok tt
      → F.read_file path (F.write_file path bytes s).1 ≡ found bytes
  pub read_mkdir :
      (dir path : Bytes) (s : F.Files) → F.read_file path (F.mkdir_all dir s) ≡ F.read_file path s

module _ (F : FileSystem) (keeps : KeepsFiles F) where
  pub read-write_encoded :
      (path : Bytes) (r : Result Bytes) (s : F.Files)
      → (write_encoded F path r s).0 ≡ ok tt
      → (bytes : Bytes) × (r ≡ ok bytes)
        × (F.read_file path (write_encoded F path r s).1 ≡ found bytes)
  unfolding write_encoded
  read-write_encoded path (ok bytes) s done = (bytes, refl, keeps.read_written path bytes s done)
  read-write_encoded path (err e) s done = absurd (cc done)

  pub read-make_dir :
      (dir path : Bytes) (s : F.Files) → F.read_file path (make_dir F dir s) ≡ F.read_file path s
  unfolding make_dir
  read-make_dir [] path s = refl
  read-make_dir (d ∷ dir) path s = keeps.read_mkdir (d ∷ dir) path s

module _ (F : FileSystem) (keeps : KeepsFiles F) (J : Formats) (dir : Bytes)
    (gzip : IsLossless J.gzip) where
  -- A snapshot that the file store saves without an error is loaded as it was, over a file system
  -- that keeps what is written to it and a lossless compression.
  pub load-save :
      (id snapshot : Bytes) (s : F.Files)
      → (save F J dir id snapshot s).0 ≡ ok tt
      → load F J dir id (save F J dir id snapshot s).1 ≡ ok snapshot
  unfolding save load unpacked
  load-save id snapshot s done =
      let (bytes, packed, there) =
        read-write_encoded F keeps (snapshot_path dir id) (J.gzip.encode snapshot)
          (make_dir F dir s) done in
      rw there (gzip snapshot bytes packed)

  read_json-write_json :
      {A : Type 0} (C : Codec A) (path : Bytes) (a : A) (s : F.Files)
      → IsLossless C
      → (write_json F J dir C path a s).0 ≡ ok tt
      → read_json F J dir C path (write_json F J dir C path a s).1 ≡ ok (some a)
  unfolding write_json read_json decoded
  read_json-write_json C path a s lossless done =
      let (bytes, packed, there) =
        read-write_encoded F keeps path (and_then (C.encode a) J.gzip.encode) s done in
      let (json, encoded, zipped) = and_then-ok (C.encode a) J.gzip.encode bytes packed in
      rw (there, gzip json bytes zipped, lossless a json encoded) refl

  or_zero-missing :
      {A : Type 0} (missing : A) (r : Result (Option A)) (a : A)
      → or_missing missing r ≡ ok a
      → or_zero missing r ≡ a
  or_zero-missing missing (ok (some b)) a h = cc h
  or_zero-missing missing (ok none) a h = cc h
  or_zero-missing missing (err e) a h = absurd (cc h)

  -- A log entry that the file store saves without an error stands at the end of the log that is
  -- loaded afterwards, after the entries of the log that was loaded before: over a file system that
  -- keeps what is written to it, and a lossless compression and encoding of logs.
  pub load_oplog-save_oplog :
      (id : Bytes) (entry : OplogEntry) (log : List OplogEntry) (s : F.Files)
      → IsLossless J.oplog
      → load_oplog F J dir id s ≡ ok log
      → (save_oplog F J dir id entry s).0 ≡ ok tt
      → load_oplog F J dir id (save_oplog F J dir id entry s).1 ≡ ok (log ++ (entry ∷ []))
  unfolding save_oplog load_oplog read_json
  load_oplog-save_oplog id entry log s lossless had done =
      let path = oplog_path dir id in
      let s' = make_dir F dir s in
      let old = or_zero [] (read_json F J dir J.oplog path s') in
      let same : old ≡ log =
        ap (λ r. or_zero [] (decoded F J dir J.oplog r)) (read-make_dir F keeps dir path s)
        ∙ or_zero-missing [] (read_json F J dir J.oplog path s) log had in
      ap (or_missing []) (read_json-write_json J.oplog path (old ++ (entry ∷ [])) s' lossless done)
      ∙ ap (λ (xs : List OplogEntry). ok (xs ++ (entry ∷ []))) same

  cut-written :
      (id : Bytes) (n : ℕ) (r : Result (Option (List OplogEntry))) (log : List OplogEntry)
      (s : F.Files)
      → IsLossless J.oplog
      → read_json F J dir J.oplog (oplog_path dir id) s ≡ r
      → or_missing [] r ≡ ok log
      → (cut_oplog_file F J dir id n r s).0 ≡ ok tt
      → or_missing []
          (read_json F J dir J.oplog (oplog_path dir id) (cut_oplog_file F J dir id n r s).1)
        ≡ ok (entries_after n log)
  unfolding cut_oplog_file entries_after
  cut-written id n (err e) log s lossless read had done = absurd (cc had)
  cut-written id n (ok none) log s lossless read had done =
      ap (or_missing []) read
      ∙ ap (λ (r : Result (List OplogEntry)). and_then r (λ xs. ok (entries_after n xs))) had
  cut-written id n (ok (some list)) log s lossless read had done =
      ap (or_missing [])
        (read_json-write_json J.oplog (oplog_path dir id) (entries_after n list) s lossless done)
      ∙ ap (λ (r : Result (List OplogEntry)). and_then r (λ xs. ok (entries_after n xs))) had

  -- After a truncation by the file store without an error the log that is loaded is the log that was
  -- loaded before, without the entries up to the call index: over a file system that keeps what is
  -- written to it, and a lossless compression and encoding of logs.
  pub load_oplog-truncate_oplog :
      (id : Bytes) (n : ℕ) (log : List OplogEntry) (s : F.Files)
      → IsLossless J.oplog
      → load_oplog F J dir id s ≡ ok log
      → (truncate_oplog F J dir id n s).0 ≡ ok tt
      → load_oplog F J dir id (truncate_oplog F J dir id n s).1 ≡ ok (entries_after n log)
  unfolding truncate_oplog load_oplog
  load_oplog-truncate_oplog id n log s lossless had done =
      cut-written id n (read_json F J dir J.oplog (oplog_path dir id) s) log s lossless refl had
        done
