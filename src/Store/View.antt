-- ===== src/Store/View.antt =====
-- The abstract contents of a snapshot store, and what each operation promises to do to them.
use durable_wasm.Base.{
  ◌≡◌, ℕ, Bytes, Option, none, some, or_else, List, [], ◌∷◌, ◌++◌, Map, lookup, ◌==◌, bytes_eq,
  nat_eq, ltb, if◌then◌else◌,
}
use durable_wasm.Types.{InstanceMeta, OplogEntry}

pub record View : Type 0 where
  pub snapshot : Bytes → Option Bytes
  pub deltas : Bytes → ℕ → Option Bytes
  pub oplog : Bytes → List OplogEntry
  pub meta : Bytes → Option InstanceMeta
  pub wasm : Bytes → Option Bytes

-- A function with a new value at one key.
abbrev pub update {ℓ} : {A : Type ℓ} → Bytes → A → (Bytes → A) → Bytes → A
update id a f j = if j == id then a else f j

-- The entries that TruncateOplog keeps.
unfoldable pub entries_after : ℕ → List OplogEntry → List OplogEntry
entries_after n [] = []
entries_after n (entry ∷ list) =
    let rest = entries_after n list in if ltb n entry.call_index then entry ∷ rest else rest

abbrev pub put_snapshot : Bytes → Bytes → View → View
put_snapshot id b v = record v { snapshot = update id (some b) v.snapshot }

abbrev pub put_deltas : Bytes → Map ℕ Bytes → View → View
put_deltas id new v = record v {
  deltas = update id (λ i. or_else (lookup i new) (v.deltas id i)) v.deltas;
}

abbrev pub drop_deltas : Bytes → View → View
drop_deltas id v = record v { deltas = update id (λ i. none) v.deltas }

abbrev pub push_oplog : Bytes → OplogEntry → View → View
push_oplog id entry v = record v { oplog = update id (v.oplog id ++ (entry ∷ [])) v.oplog }

abbrev pub cut_oplog : Bytes → ℕ → View → View
cut_oplog id n v = record v { oplog = update id (entries_after n (v.oplog id)) v.oplog }

abbrev pub put_meta : InstanceMeta → View → View
put_meta m v = record v { meta = update m.instance_id (some m) v.meta }

abbrev pub put_wasm : Bytes → Bytes → View → View
put_wasm hash b v = record v { wasm = update hash (some b) v.wasm }

abbrev pub drop_instance : Bytes → View → View
drop_instance id v = record v {
  snapshot = update id none v.snapshot;
  deltas = update id (λ i. none) v.deltas;
  oplog = update id [] v.oplog;
  meta = update id none v.meta;
}

-- Two views are equal if they agree at every key.
pub View-ext :
    (v w : View)
    → ((j : Bytes) → v.snapshot j ≡ w.snapshot j)
    → ((j : Bytes) (i : ℕ) → v.deltas j i ≡ w.deltas j i)
    → ((j : Bytes) → v.oplog j ≡ w.oplog j)
    → ((j : Bytes) → v.meta j ≡ w.meta j)
    → ((j : Bytes) → v.wasm j ≡ w.wasm j)
    → v ≡ w
View-ext v w s d o m h i = record {
  snapshot = λ j. s j i;
  deltas = λ j k. d j k i;
  oplog = λ j. o j i;
  meta = λ j. m j i;
  wasm = λ j. h j i;
}
