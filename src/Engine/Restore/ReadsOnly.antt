-- ===== src/Engine/Restore/ReadsOnly.antt =====
-- The restoration only reads the store.
use durable_wasm.Base.{ℕ, ◌≡◌, ◌∙◌, refl, Bytes, Option, none, some, [], ◌∷◌, Map}
use durable_wasm.Types.{Result, ok, err}
use durable_wasm.Store.{SnapshotStore}
use durable_wasm.Linear.{LinearMemory}
use durable_wasm.Session.{returns, fails, panics, Machine, Run}
use durable_wasm.Engine.Restore.{
  copy_snapshot, put_snapshot, with_snapshot, restore_snapshot, with_copied, write_back,
  overlay_view, put_deltas, with_deltas, restore_deltas, then_deltas, restore,
}

module _ (S : SnapshotStore) (L : LinearMemory) {W : Type 0} where
  store-copy_snapshot :
      (snapshot : Bytes) (view : Option Bytes) (m : Machine S L W)
      → (copy_snapshot S L snapshot view m).1.store ≡ m.store
  unfolding copy_snapshot
  store-copy_snapshot snapshot none m = refl
  store-copy_snapshot snapshot (some view) m = refl

  store-put_snapshot :
      (snapshot : Bytes) (mem : Option L.Mem) (m : Machine S L W)
      → (put_snapshot S L snapshot mem m).1.store ≡ m.store
  unfolding put_snapshot
  store-put_snapshot snapshot none m = refl
  store-put_snapshot snapshot (some mem) m = store-copy_snapshot snapshot _ _

  store-with_snapshot :
      (loaded : Result Bytes) (m : Machine S L W) → (with_snapshot S L loaded m).1.store ≡ m.store
  unfolding with_snapshot
  store-with_snapshot (err e) m = refl
  store-with_snapshot (ok []) m = refl
  store-with_snapshot (ok (b ∷ bs)) m = store-put_snapshot (b ∷ bs) _ m

  store-write_back :
      (deltas : Map ℕ Bytes) (view : Bytes) (bytes : Option Bytes) (m : Machine S L W)
      → (write_back S L deltas view bytes m).1.store ≡ m.store
  unfolding write_back with_copied
  store-write_back deltas view none m = refl
  store-write_back deltas view (some bytes) m = refl

  store-overlay_view :
      (deltas : Map ℕ Bytes) (view : Option Bytes) (m : Machine S L W)
      → (overlay_view S L deltas view m).1.store ≡ m.store
  unfolding overlay_view
  store-overlay_view deltas none m = refl
  store-overlay_view deltas (some view) m = store-write_back deltas view _ m

  store-put_deltas :
      (deltas : Map ℕ Bytes) (mem : Option L.Mem) (m : Machine S L W)
      → (put_deltas S L deltas mem m).1.store ≡ m.store
  unfolding put_deltas
  store-put_deltas deltas none m = refl
  store-put_deltas deltas (some mem) m = store-overlay_view deltas _ _

  store-with_deltas :
      (loaded : Result (Map ℕ Bytes)) (m : Machine S L W)
      → (with_deltas S L loaded m).1.store ≡ m.store
  unfolding with_deltas
  store-with_deltas (err e) m = refl
  store-with_deltas (ok []) m = refl
  store-with_deltas (ok (d ∷ ds)) m = store-put_deltas (d ∷ ds) _ m

  store-then_deltas : (r : Run S L W (Unit {0})) → (then_deltas S L r).1.store ≡ r.1.store
  unfolding then_deltas restore_deltas
  store-then_deltas (returns _, m) =
      store-with_deltas (S.load_deltas m.session.instance_id m.store) m
  store-then_deltas (fails e, m) = refl
  store-then_deltas (panics reason, m) = refl

  pub store-restore : (m : Machine S L W) → (restore S L m).1.store ≡ m.store
  unfolding restore restore_snapshot
  store-restore m =
      store-then_deltas (restore_snapshot S L m)
      ∙ store-with_snapshot (S.load m.session.instance_id m.store) m
