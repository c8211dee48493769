-- ===== src/Store/Memory.antt =====
-- memory_store.go: MemorySnapshotStore. The mutex makes each operation one step.
pub mod Refines
pub mod Fencing
pub mod ActiveIndex
use durable_wasm.Base.{
  ℕ, zero, suc, ◌+◌, ◌≡◌, refl, Bool, true, false, ◌&&◌, ◌||◌, not, Bytes, str, Option, none, some,
  List, [], ◌∷◌, ◌++◌, Map, lookup, insert, delete, merge, ◌==◌, bytes_eq, nat_eq, ltb,
  if◌then◌else◌,
}
use durable_wasm.Types.{Error, text, Result, ok, err, InstanceMeta, OplogEntry}
use durable_wasm.Store.{SnapshotStore}
use durable_wasm.Store.View.{entries_after}

-- `encoding/json` on the active index. An object is known by its field "instance_id", if that is
-- a text. A decoder gives `none` where `json.Unmarshal` gives an error.
pub record IndexJson : Type 1 where
  pub Info : Type 0
  pub instance_id : Info → Option Bytes
  pub decode_info : Bytes → Option Info
  pub decode_index : Bytes → Option (List Info)
  pub encode_index : List Info → Bytes

pub record MemorySnapshotStore : Type 0 where
  pub snapshots : Map Bytes Bytes
  pub deltas : Map Bytes (Map ℕ Bytes)
  pub oplogs : Map Bytes (List OplogEntry)
  pub meta : Map Bytes InstanceMeta
  pub wasm : Map Bytes Bytes
  pub active_index : Bytes

unfoldable pub new_memory_snapshot_store : MemorySnapshotStore
new_memory_snapshot_store = record {
  snapshots = [];
  deltas = [];
  oplogs = [];
  meta = [];
  wasm = [];
  active_index = str "[]";
}

abbrev done : Result (Unit {0})
done = ok tt

-- `value, ok := m[k]`, with the error of a missing key.
abbrev found {ℓ} : {A : Type ℓ} → Option A → Result A
found none = err (text "not found")
found (some a) = ok a

-- The zero value of a slice or a map, where the key is missing.
abbrev pub or_nil {ℓ} : {A : Type ℓ} → Option (List A) → List A
or_nil none = []
or_nil (some a) = a

unfoldable pub save : Bytes → Bytes → MemorySnapshotStore → Result (Unit {0}) × MemorySnapshotStore
save id snapshot s = (done, record s { snapshots = insert id snapshot s.snapshots })

unfoldable pub load : Bytes → MemorySnapshotStore → Result Bytes
load id s = found (lookup id s.snapshots)

unfoldable pub delete_instance :
    Bytes → MemorySnapshotStore → Result (Unit {0}) × MemorySnapshotStore
delete_instance id s = (
  done,
  record s {
    snapshots = delete id s.snapshots;
    deltas = delete id s.deltas;
    oplogs = delete id s.oplogs;
    meta = delete id s.meta;
  },
)

unfoldable pub save_deltas :
    Bytes → Map ℕ Bytes → MemorySnapshotStore → Result (Unit {0}) × MemorySnapshotStore
save_deltas id deltas s =
    let current = or_nil (lookup id s.deltas) in
    (done, record s { deltas = insert id (merge deltas current) s.deltas })

unfoldable pub load_deltas : Bytes → MemorySnapshotStore → Result (Map ℕ Bytes)
load_deltas id s = ok (or_nil (lookup id s.deltas))

unfoldable pub truncate_deltas :
    Bytes → MemorySnapshotStore → Result (Unit {0}) × MemorySnapshotStore
truncate_deltas id s = (done, record s { deltas = delete id s.deltas })

unfoldable pub save_oplog :
    Bytes → OplogEntry → MemorySnapshotStore → Result (Unit {0}) × MemorySnapshotStore
save_oplog id entry s =
    let list = or_nil (lookup id s.oplogs) in
    (done, record s { oplogs = insert id (list ++ (entry ∷ [])) s.oplogs })

unfoldable pub load_oplog : Bytes → MemorySnapshotStore → Result (List OplogEntry)
load_oplog id s = ok (or_nil (lookup id s.oplogs))

unfoldable pub truncate_oplog :
    Bytes → ℕ → MemorySnapshotStore → Result (Unit {0}) × MemorySnapshotStore
truncate_oplog id before_call_index s =
    let list = or_nil (lookup id s.oplogs) in
    (done, record s { oplogs = insert id (entries_after before_call_index list) s.oplogs })

abbrev is_empty : Bytes → Bool
is_empty [] = true
is_empty (b ∷ bs) = false

-- The compare-and-swap on the version.
unfoldable pub may_write : Option InstanceMeta → InstanceMeta → Bool
may_write none meta = meta.version == 0
may_write (some existing) meta = not (meta.version == 0) && existing.version == meta.version

unfoldable pub save_metadata :
    InstanceMeta → MemorySnapshotStore → Result Bool × InstanceMeta × MemorySnapshotStore
unfolding may_write
save_metadata meta s =
    let next = record meta { version = meta.version + 1 } in
    if may_write (lookup meta.instance_id s.meta) meta
    then (ok true, next, record s { meta = insert meta.instance_id next s.meta })
    else (ok false, meta, s)

unfoldable pub load_metadata : Bytes → MemorySnapshotStore → Result (Option InstanceMeta)
load_metadata id s = ok (lookup id s.meta)

unfoldable pub save_wasm :
    Bytes → Bytes → MemorySnapshotStore → Result (Unit {0}) × MemorySnapshotStore
save_wasm hash wasm_bytes s = (done, record s { wasm = insert hash wasm_bytes s.wasm })

unfoldable pub load_wasm : Bytes → MemorySnapshotStore → Result Bytes
load_wasm hash s = found (lookup hash s.wasm)

-- `entry["instance_id"] == id`
abbrev pub is_named : Option Bytes → Bytes → Bool
is_named none id = false
is_named (some name) id = name == id

module _ (J : IndexJson) where
  -- The loop over the old index, and the append after it. The flag is `updated`.
  unfoldable pub next_index : Bytes → J.Info → Bool → Bool → List J.Info → List J.Info
  next_index id new_info completed updated [] =
      if not updated && not completed then new_info ∷ [] else []
  next_index id new_info completed updated (entry ∷ index) =
      let same = is_named (J.instance_id entry) id in
      let rest = next_index id new_info completed (updated || same && not completed) index in
      if same then (if completed then rest else new_info ∷ rest) else entry ∷ rest

  -- `json.Marshal(nextIndex)`: here a slice with no entries is nil, which is written "null".
  unfoldable pub marshal_nil : List J.Info → Bytes
  marshal_nil [] = str "null"
  marshal_nil (entry ∷ index) = J.encode_index (entry ∷ index)

  unfoldable pub update_active_index :
      Bytes → Bytes → Bool → MemorySnapshotStore → Result (Unit {0}) × MemorySnapshotStore
  unfolding next_index marshal_nil
  update_active_index id info completed s =
      let index = if is_empty s.active_index then [] else or_nil (J.decode_index s.active_index) in
      elim (J.decode_info info) [
        | none ↦ (err (text "cannot unmarshal info"), s)
        | some new_info ↦ (
          done,
          record s { active_index = marshal_nil (next_index id new_info completed false index) },
        )
      ]

  unfoldable pub load_active_index : MemorySnapshotStore → Result Bytes
  load_active_index s = ok (if is_empty s.active_index then str "[]" else s.active_index)

  abbrev pub memory_store : SnapshotStore
  memory_store = record {
    State = MemorySnapshotStore;
    save = save;
    load = load;
    delete = delete_instance;
    save_deltas = save_deltas;
    load_deltas = load_deltas;
    truncate_deltas = truncate_deltas;
    save_oplog = save_oplog;
    load_oplog = load_oplog;
    truncate_oplog = truncate_oplog;
    save_metadata = save_metadata;
    load_metadata = load_metadata;
    save_wasm = save_wasm;
    load_wasm = load_wasm;
    update_active_index = update_active_index;
    load_active_index = load_active_index;
  }
