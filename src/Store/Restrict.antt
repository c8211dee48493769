-- ===== src/Store/Restrict.antt =====
-- A store on the states that have a property, which every operation keeps.
use durable_wasm.Base.{ℕ, Bool, true, false, Bytes, Map}
use durable_wasm.Types.{Result, ok, err, InstanceMeta, OplogEntry}
use durable_wasm.Store.View.{View}
use durable_wasm.Store.Contract.{Swaps}
use durable_wasm.Store.{SnapshotStore}

-- Every operation that writes keeps the property, whatever its result.
pub record Keeps (S : SnapshotStore) (P : S.State → Type 0) : Type 0 where
  pub save : (id b : Bytes) (s : S.State) → P s → P (S.save id b s).1
  pub delete : (id : Bytes) (s : S.State) → P s → P (S.delete id s).1
  pub save_deltas :
      (id : Bytes) (new : Map ℕ Bytes) (s : S.State) → P s → P (S.save_deltas id new s).1
  pub truncate_deltas : (id : Bytes) (s : S.State) → P s → P (S.truncate_deltas id s).1
  pub save_oplog :
      (id : Bytes) (entry : OplogEntry) (s : S.State) → P s → P (S.save_oplog id entry s).1
  pub truncate_oplog : (id : Bytes) (n : ℕ) (s : S.State) → P s → P (S.truncate_oplog id n s).1
  pub save_metadata : (meta : InstanceMeta) (s : S.State) → P s → P (S.save_metadata meta s).2
  pub save_wasm : (hash b : Bytes) (s : S.State) → P s → P (S.save_wasm hash b s).1
  pub update_active_index :
      (id info : Bytes) (completed : Bool) (s : S.State)
      → P s
      → P (S.update_active_index id info completed s).1

module _ (S : SnapshotStore) (P : S.State → Type 0) (keeps : Keeps S P) where
  abbrev pub Kept : Type 0
  Kept = (s : S.State) × P s

  -- The store with its property carried along.
  abbrev pub restrict : SnapshotStore
  restrict = record {
    State = Kept;
    save = λ id b s. let r = S.save id b s.0 in (r.0, (r.1, keeps.save id b s.0 s.1));
    load = λ id s. S.load id s.0;
    delete = λ id s. let r = S.delete id s.0 in (r.0, (r.1, keeps.delete id s.0 s.1));
    save_deltas = λ id new s.
        let r = S.save_deltas id new s.0 in (r.0, (r.1, keeps.save_deltas id new s.0 s.1));
    load_deltas = λ id s. S.load_deltas id s.0;
    truncate_deltas =
        λ id s. let r = S.truncate_deltas id s.0 in (r.0, (r.1, keeps.truncate_deltas id s.0 s.1));
    save_oplog = λ id entry s.
        let r = S.save_oplog id entry s.0 in (r.0, (r.1, keeps.save_oplog id entry s.0 s.1));
    load_oplog = λ id s. S.load_oplog id s.0;
    truncate_oplog = λ id n s.
        let r = S.truncate_oplog id n s.0 in (r.0, (r.1, keeps.truncate_oplog id n s.0 s.1));
    save_metadata = λ meta s.
        let r = S.save_metadata meta s.0 in (r.0, r.1, (r.2, keeps.save_metadata meta s.0 s.1));
    load_metadata = λ id s. S.load_metadata id s.0;
    save_wasm =
        λ hash b s. let r = S.save_wasm hash b s.0 in (r.0, (r.1, keeps.save_wasm hash b s.0 s.1));
    load_wasm = λ hash s. S.load_wasm hash s.0;
    update_active_index = λ id info completed s.
        let r = S.update_active_index id info completed s.0 in
        (r.0, (r.1, keeps.update_active_index id info completed s.0 s.1));
    load_active_index = λ s. S.load_active_index s.0;
  }

-- A swap of the store is one of the restricted store.
pub Swaps-restrict :
    {S : Type 0} (P : S → Type 0) (view : S → View) (meta : InstanceMeta) (s : (t : S) × P t)
    (r : Result Bool × InstanceMeta × S) (p : P r.2)
    → Swaps view meta s.0 r
    → Swaps (λ (t : (t : S) × P t). view t.0) meta s (r.0, r.1, (r.2, p))
Swaps-restrict P view meta s (err e, meta', s') p swaps = swaps
Swaps-restrict P view meta s (ok false, meta', s') p swaps = swaps
Swaps-restrict P view meta s (ok true, meta', s') p swaps = swaps
