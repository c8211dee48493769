-- ===== src/Store/Memory/Fencing.antt =====
-- The fencing of concurrent executions by SaveMetadata of memory_store.go: what any interleaving of
-- the operations of any number of sessions can do to the version of one instance.
use durable_wasm.Base.{
  ◌&&◌, ℕ, zero, suc, ◌+◌, ◌≤◌, ◌<◌, ◌≡◌, refl, arith, Bool, true, false, Bool-cases, Bytes, inl,
  inr, Option, none, some, List, [], ◌∷◌, Map, lookup, lookup-insert, length, ◌==◌, bytes_eq,
  nat_eq, if◌then◌else◌,
}
use durable_wasm.Types.{Result, ok, err, InstanceMeta, OplogEntry}
use durable_wasm.Store.Memory.{
  MemorySnapshotStore, save, save_deltas, truncate_deltas, save_oplog, truncate_oplog, may_write,
  save_metadata,
}

-- One operation of some session, in the order in which they take the mutex. Delete is not among
-- them: it starts an instance over.
pub data Event : Type 0 where
  saves : Bytes → Bytes → Event
  saves_deltas : Bytes → Map ℕ Bytes → Event
  truncates_deltas : Bytes → Event
  logs : Bytes → OplogEntry → Event
  truncates_oplog : Bytes → ℕ → Event
  swaps : InstanceMeta → Event

unfoldable pub after_event : Event → MemorySnapshotStore → MemorySnapshotStore
unfolding save save_deltas truncate_deltas save_oplog truncate_oplog save_metadata
after_event (saves id b) s = (save id b s).1
after_event (saves_deltas id new) s = (save_deltas id new s).1
after_event (truncates_deltas id) s = (truncate_deltas id s).1
after_event (logs id entry) s = (save_oplog id entry s).1
after_event (truncates_oplog id n) s = (truncate_oplog id n s).1
after_event (swaps meta) s = (save_metadata meta s).2

abbrev pub version_of : Option InstanceMeta → ℕ
version_of none = 0
version_of (some meta) = meta.version

-- The version of an instance in the store, 0 if it has none.
abbrev pub stored_version : Bytes → MemorySnapshotStore → ℕ
stored_version id s = version_of (lookup id s.meta)

abbrev swapped : Result Bool × InstanceMeta × MemorySnapshotStore → Bool
swapped (ok b, _, _) = b
swapped (err e, _, _) = false

-- The swap of `meta` is on this instance, and goes through.
abbrev pub wins : Bytes → InstanceMeta → MemorySnapshotStore → Bool
wins id meta s = id == meta.instance_id && swapped (save_metadata meta s)

-- The versions of `id` that the events write, in order: one for each swap that returns true.
unfoldable pub versions_won : Bytes → List Event → MemorySnapshotStore → List ℕ
unfolding after_event
versions_won id [] s = []
versions_won id (swaps meta ∷ events) s =
    let rest = versions_won id events (after_event (swaps meta) s) in
    if wins id meta s then (save_metadata meta s).1.version ∷ rest else rest
versions_won id (event ∷ events) s = versions_won id events (after_event event s)

unfoldable pub after_events : List Event → MemorySnapshotStore → MemorySnapshotStore
after_events [] s = s
after_events (event ∷ events) s = after_events events (after_event event s)

-- n numbers from v on.
abbrev pub count_from : ℕ → ℕ → List ℕ
count_from v zero = []
count_from v (suc n) = v ∷ count_from (suc v) n

may_write-version :
    (o : Option InstanceMeta) (meta : InstanceMeta)
    → may_write o meta ≡ true
    → version_of o ≡ meta.version
unfolding may_write nat_eq
may_write-version o meta h = ground arith

-- A swap that wins takes the instance to the next version, and another changes no version of it.
stored_version-save_metadata :
    (id : Bytes) (meta : InstanceMeta) (s : MemorySnapshotStore)
    → stored_version id (save_metadata meta s).2
      ≡ (if wins id meta s then suc (stored_version id s) else stored_version id s)
unfolding save_metadata
stored_version-save_metadata id meta s = ground (
  arith,
  lookup-insert id meta.instance_id (record meta { version = meta.version + 1 }) s.meta,
  may_write-version (lookup meta.instance_id s.meta) meta,
)

version-save_metadata :
    (id : Bytes) (meta : InstanceMeta) (s : MemorySnapshotStore)
    → wins id meta s ≡ true
    → (save_metadata meta s).1.version ≡ suc (stored_version id s)
unfolding save_metadata
version-save_metadata id meta s h =
    ground (arith, may_write-version (lookup meta.instance_id s.meta) meta)

-- Whatever the sessions save, log and swap, in whatever order, the versions that they write to one
-- instance are consecutive numbers, from the one after the stored version on.
pub versions_won-eq-count_from :
    (id : Bytes) (events : List Event) (s : MemorySnapshotStore)
    → versions_won id events s
      ≡ count_from (suc (stored_version id s)) (length (versions_won id events s))
unfolding versions_won
versions_won-eq-count_from id [] s = refl
versions_won-eq-count_from id (swaps meta ∷ events) s = elim (Bool-cases (wins id meta s)) [
  | inl h ↦ rw h (
      ground (
        arith,
        stored_version-save_metadata id meta s,
        version-save_metadata id meta s h,
        versions_won-eq-count_from id events (save_metadata meta s).2,
      ))
  | inr h ↦ rw h (
      ground (
        arith,
        stored_version-save_metadata id meta s,
        versions_won-eq-count_from id events (save_metadata meta s).2,
      ))
]
versions_won-eq-count_from id (event ∷ events) s =
    versions_won-eq-count_from id events (after_event event s)

-- No events lower a version.
stored_version-after_events :
    (id : Bytes) (events : List Event) (s : MemorySnapshotStore)
    → stored_version id s ≤ stored_version id (after_events events s)
unfolding after_events after_event
stored_version-after_events id [] s = omega arith
stored_version-after_events id (swaps meta ∷ events) s = ground (
  arith,
  stored_version-save_metadata id meta s,
  stored_version-after_events id events (save_metadata meta s).2,
)
stored_version-after_events id (event ∷ events) s =
    stored_version-after_events id events (after_event event s)

save_metadata_stale :
    (meta : InstanceMeta) (s : MemorySnapshotStore)
    → meta.version < stored_version meta.instance_id s
    → save_metadata meta s ≡ (ok false, meta, s)
unfolding save_metadata
save_metadata_stale meta s h =
    ground (arith, may_write-version (lookup meta.instance_id s.meta) meta)

won_version :
    (meta : InstanceMeta) (s : MemorySnapshotStore)
    → (save_metadata meta s).0 ≡ ok true
    → stored_version meta.instance_id (save_metadata meta s).2 ≡ suc meta.version
unfolding save_metadata
won_version meta s h = ground (
  arith,
  lookup-insert meta.instance_id meta.instance_id (record meta { version = meta.version + 1 })
      s.meta,
)

-- Of two sessions that hold metadata of one instance in one version, once the first has won its
-- swap, the second is refused and changes nothing, whatever the sessions save, log and swap in
-- between.
pub save_metadata_fenced :
    (first second : InstanceMeta) (events : List Event) (s : MemorySnapshotStore)
    → first.instance_id ≡ second.instance_id
    → first.version ≡ second.version
    → (save_metadata first s).0 ≡ ok true
    → let t = after_events events (save_metadata first s).2 in
      save_metadata second t ≡ (ok false, second, t)
save_metadata_fenced first second events s same_id same_version won = save_metadata_stale second _ (
    rw (← same_id) (
      omega (
        arith,
        stored_version-after_events first.instance_id events (save_metadata first s).2,
        won_version first s won,
      )))
