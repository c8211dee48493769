-- ===== src/Store/Files.antt =====
-- fs_store.go: FileSnapshotStore. The mutex makes each operation one step. The file system, gzip and
-- `encoding/json` are parameters.
pub mod RoundTrip
pub mod Fencing
use durable_wasm.Base.{
  ℕ, zero, suc, ◌+◌, ◌≡◌, Bool, true, false, ◌&&◌, not, Bytes, str, Option, none, some, List, [],
  ◌∷◌, ◌++◌, Map, merge, ◌==◌, bytes_eq, nat_eq, if◌then◌else◌,
}
use durable_wasm.Types.{Error, text, wrapped, Result, ok, err, InstanceMeta, OplogEntry}
use durable_wasm.Store.{SnapshotStore}
use durable_wasm.Store.View.{entries_after}
use durable_wasm.Store.Memory.{next_index}
use durable_wasm.Store.Codec.{Codec, Formats, and_then, or_zero, or_missing}

-- What `os.ReadFile` gives: the bytes, an error for which `os.IsNotExist` holds, or another one.
pub data FileRead : Type 0 where
  found : Bytes → FileRead
  not_exist : FileRead
  unreadable : Error → FileRead

-- The calls of `os`. The errors of MkdirAll and Remove are dropped by the code.
pub record FileSystem : Type 1 where
  pub Files : Type 0
  pub read_file : Bytes → Files → FileRead
  pub write_file : Bytes → Bytes → Files → Result (Unit {0}) × Files
  pub mkdir_all : Bytes → Files → Files
  pub remove : Bytes → Files → Files
  pub exists : Bytes → Files → Bool

-- `if f.Dir != ""`
abbrev in_dir : Bytes → Bytes → Bytes
in_dir [] name = name
in_dir (d ∷ dir) name = (d ∷ dir) ++ (str "/" ++ name)

abbrev pub snapshot_path : Bytes → Bytes → Bytes
snapshot_path dir id = in_dir dir (id ++ str ".bin")

abbrev pub deltas_path : Bytes → Bytes → Bytes
deltas_path dir id = in_dir dir (id ++ str "_deltas.json")

abbrev pub oplog_path : Bytes → Bytes → Bytes
oplog_path dir id = in_dir dir (id ++ str "_oplog.json")

abbrev pub meta_path : Bytes → Bytes → Bytes
meta_path dir id = in_dir dir (id ++ str "_meta.json")

abbrev pub wasm_path : Bytes → Bytes → Bytes
wasm_path dir hash = in_dir dir (str "wasm_" ++ (hash ++ str ".wasm"))

abbrev pub index_path : Bytes → Bytes
index_path dir = in_dir dir (str "active_index.json")

module _ (F : FileSystem) where
  unfoldable pub write_encoded : Bytes → Result Bytes → F.Files → Result (Unit {0}) × F.Files
  write_encoded path (ok bytes) s = F.write_file path bytes s
  write_encoded path (err e) s = (err e, s)

  pub make_dir : Bytes → F.Files → F.Files
  make_dir [] s = s
  make_dir (d ∷ dir) s = F.mkdir_all (d ∷ dir) s

module _ (F : FileSystem) (J : Formats) (dir : Bytes) where
  -- `json.Marshal`, compressData and `os.WriteFile`
  write_json : {A : Type 0} → Codec A → Bytes → A → F.Files → Result (Unit {0}) × F.Files
  unfolding write_encoded
  write_json C path a s = write_encoded F path (and_then (C.encode a) J.gzip.encode) s

  -- `os.ReadFile`, decompressData and `json.Unmarshal`; none where there is no file.
  decoded : {A : Type 0} → Codec A → FileRead → Result (Option A)
  decoded C (found bytes) = and_then (and_then (J.gzip.decode bytes) C.decode) (λ a. ok (some a))
  decoded C not_exist = ok none
  decoded C (unreadable e) = err e

  read_json : {A : Type 0} → Codec A → Bytes → F.Files → Result (Option A)
  unfolding decoded
  read_json C path s = decoded C (F.read_file path s)

  unpacked : FileRead → Result Bytes
  unpacked (found bytes) = J.gzip.decode bytes
  unpacked not_exist = err (text "file does not exist")
  unpacked (unreadable e) = err e

  unfoldable pub save : Bytes → Bytes → F.Files → Result (Unit {0}) × F.Files
  unfolding write_encoded make_dir
  save id snapshot s =
      write_encoded F (snapshot_path dir id) (J.gzip.encode snapshot) (make_dir F dir s)

  unfoldable pub load : Bytes → F.Files → Result Bytes
  unfolding unpacked
  load id s = unpacked (F.read_file (snapshot_path dir id) s)

  unfoldable pub save_deltas : Bytes → Map ℕ Bytes → F.Files → Result (Unit {0}) × F.Files
  unfolding write_json read_json make_dir
  save_deltas id deltas s =
      let s' = make_dir F dir s in
      let current = or_zero [] (read_json J.deltas (deltas_path dir id) s') in
      write_json J.deltas (deltas_path dir id) (merge deltas current) s'

  unfoldable pub load_deltas : Bytes → F.Files → Result (Map ℕ Bytes)
  unfolding read_json
  load_deltas id s = or_missing [] (read_json J.deltas (deltas_path dir id) s)

  unfoldable pub truncate_deltas : Bytes → F.Files → Result (Unit {0}) × F.Files
  truncate_deltas id s = (ok tt, F.remove (deltas_path dir id) s)

  unfoldable pub save_oplog : Bytes → OplogEntry → F.Files → Result (Unit {0}) × F.Files
  unfolding write_json read_json make_dir
  save_oplog id entry s =
      let s' = make_dir F dir s in
      let list = or_zero [] (read_json J.oplog (oplog_path dir id) s') in
      write_json J.oplog (oplog_path dir id) (list ++ (entry ∷ [])) s'

  unfoldable pub load_oplog : Bytes → F.Files → Result (List OplogEntry)
  unfolding read_json
  load_oplog id s = or_missing [] (read_json J.oplog (oplog_path dir id) s)

  cut_oplog_file :
      Bytes → ℕ → Result (Option (List OplogEntry)) → F.Files → Result (Unit {0}) × F.Files
  unfolding write_json
  cut_oplog_file id n (err e) s = (err e, s)
  cut_oplog_file id n (ok none) s = (ok tt, s)
  cut_oplog_file id n (ok (some list)) s =
      write_json J.oplog (oplog_path dir id) (entries_after n list) s

  unfoldable pub truncate_oplog : Bytes → ℕ → F.Files → Result (Unit {0}) × F.Files
  unfolding cut_oplog_file read_json
  truncate_oplog id before_call_index s =
      cut_oplog_file id before_call_index (read_json J.oplog (oplog_path dir id) s) s

  -- The metadata are not compressed. The version goes up also where the write then fails.
  write_meta : InstanceMeta → F.Files → Result Bool × InstanceMeta × F.Files
  unfolding write_encoded
  write_meta meta s =
      let next = record meta { version = meta.version + 1 } in
      let (written, s') = write_encoded F (meta_path dir meta.instance_id) (J.meta.encode next) s in
      (and_then written (λ _. ok true), next, s')

  stored_version : Result InstanceMeta → ℕ
  stored_version (ok meta) = meta.version
  stored_version (err e) = 0

  swap_meta : InstanceMeta → FileRead → F.Files → Result Bool × InstanceMeta × F.Files
  unfolding write_meta stored_version
  swap_meta meta (found bytes) s =
      if not (meta.version == 0) && stored_version (J.meta.decode bytes) == meta.version
      then write_meta meta s
      else (ok false, meta, s)
  swap_meta meta not_exist s = if meta.version == 0 then write_meta meta s else (ok false, meta, s)
  swap_meta meta (unreadable e) s = (err e, meta, s)

  unfoldable pub save_metadata : InstanceMeta → F.Files → Result Bool × InstanceMeta × F.Files
  unfolding swap_meta make_dir
  save_metadata meta s =
      let s' = make_dir F dir s in
      swap_meta meta (F.read_file (meta_path dir meta.instance_id) s') s'

  decode_meta : FileRead → Result (Option InstanceMeta)
  decode_meta (found bytes) = and_then (J.meta.decode bytes) (λ meta. ok (some meta))
  decode_meta not_exist = ok none
  decode_meta (unreadable e) = err e

  unfoldable pub load_metadata : Bytes → F.Files → Result (Option InstanceMeta)
  unfolding decode_meta
  load_metadata id s = decode_meta (F.read_file (meta_path dir id) s)

  unfoldable pub delete_instance : Bytes → F.Files → Result (Unit {0}) × F.Files
  delete_instance id s = (
    ok tt,
    F.remove (meta_path dir id) (
        F.remove (oplog_path dir id)
          (F.remove (deltas_path dir id) (F.remove (snapshot_path dir id) s))),
  )

  -- A module that is there is not written again.
  unfoldable pub save_wasm : Bytes → Bytes → F.Files → Result (Unit {0}) × F.Files
  unfolding write_encoded make_dir
  save_wasm hash wasm_bytes s =
      let s' = make_dir F dir s in
      if F.exists (wasm_path dir hash) s'
      then (ok tt, s')
      else write_encoded F (wasm_path dir hash) (J.gzip.encode wasm_bytes) s'

  unfoldable pub load_wasm : Bytes → F.Files → Result Bytes
  unfolding unpacked
  load_wasm hash s = unpacked (F.read_file (wasm_path dir hash) s)

  index_in : FileRead → List J.index.Info
  index_in (found bytes) = elim (J.index.decode_index bytes) [ none ↦ [] | some index ↦ index ]
  index_in not_exist = []
  index_in (unreadable e) = []

  unfoldable pub update_active_index : Bytes → Bytes → Bool → F.Files → Result (Unit {0}) × F.Files
  unfolding make_dir index_in next_index
  update_active_index id info completed s =
      let s' = make_dir F dir s in
      let index = index_in (F.read_file (index_path dir) s') in
      elim (J.index.decode_info info) [
        | none ↦ (err (text "failed to unmarshal index info"), s')
        | some new_info ↦
            F.write_file (index_path dir)
              (J.index.encode_index (next_index J.index id new_info completed false index)) s'
      ]

  unfoldable pub load_active_index : F.Files → Result Bytes
  load_active_index s = elim (F.read_file (index_path dir) s) [
    | found bytes ↦ ok bytes
    | not_exist ↦ ok (str "[]")
    | unreadable e ↦ err e
  ]

  abbrev pub file_store : SnapshotStore
  file_store = record {
    State = F.Files;
    save = save;
    load = load;
    delete = delete_instance;
    save_deltas = save_deltas;
    load_deltas = load_deltas;
    truncate_deltas = truncate_deltas;
    save_oplog = save_oplog;
    load_oplog = load_oplog;
    truncate_oplog = truncate_oplog;
    save_metadata = save_metadata;
    load_metadata = load_metadata;
    save_wasm = save_wasm;
    load_wasm = load_wasm;
    update_active_index = update_active_index;
    load_active_index = load_active_index;
  }
