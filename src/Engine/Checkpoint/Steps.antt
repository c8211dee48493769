-- ===== src/Engine/Checkpoint/Steps.antt =====
-- The parts of a checkpoint, over a store and a memory that meet their contracts.
use durable_wasm.Base.{
  ℕ, ◌/◌, ◌≤◌, ◌≡◌, ◌∙◌, refl, ap, arith, Bool, true, false, not, ◌&&◌, Bool-cases, inl, inr, Bytes,
  [], ◌∷◌, Map, lookup, nat_eq, bytes_eq, ◌==◌, ==-refl, length, ltb, if◌then◌else◌, or_else,
}
use durable_wasm.Types.{Result, ok, InstanceMeta}
use durable_wasm.Store.{SnapshotStore}
use durable_wasm.Store.View.{View, put_snapshot, drop_deltas, cut_oplog}
use durable_wasm.Store.Contract.{IsReliable}
use durable_wasm.Linear.{LinearMemory, IsLinear}
use durable_wasm.Linear.Whole.{read_all}
use durable_wasm.Session.{returns, panics, Machine, Run}
use durable_wasm.Engine.Blocks.{block_size, scan_blocks}
use durable_wasm.Engine.Checkpoint.{
  is_full_snapshot, after_save, write_snapshot, save_nonempty, is_nonempty, write_scanned,
  write_deltas, crash_if_asked, write_memory, after_swap, checkpoint,
}

module _ (S : SnapshotStore) (rel : IsReliable S) (L : LinearMemory) (lin : IsLinear L)
    {W : Type 0} where
  open rel use {view}
  open lin use {contents}

  abbrev id_of : Machine S L W → Bytes
  id_of m = m.session.instance_id

  -- The swap that a checkpoint starts with.
  abbrev pub swap : Machine S L W → Result Bool × InstanceMeta × S.State
  swap m = S.save_metadata (record m.session.meta { wasm_hash = m.session.engine_hash }) m.store

  -- The machine after a swap.
  abbrev pub after : Machine S L W → Machine S L W
  after m = record m { session = record m.session { meta = (swap m).1 }; store = (swap m).2 }

  -- The write of a checkpoint, by the kind of snapshot.
  abbrev pub written : Machine S L W → Run S L W (Unit {0})
  written m =
      if is_full_snapshot m.session.meta.version
      then write_snapshot S L (contents m.memory) m
      else write_deltas S L (contents m.memory) m

  pub checkpoint-won :
      (m : Machine S L W)
      → (swap m).0 ≡ ok true
      → 1 ≤ length (contents m.memory)
      → checkpoint S L m ≡ crash_if_asked S L (written (after m))
  unfolding checkpoint nat_eq
  checkpoint-won m won some_bytes =
      let nonzero : (L.size m.memory == 0) ≡ false = ground (arith, lin.size_contents m.memory) in
      rw (won, after_swap, nonzero, read_all L lin m.memory, write_memory) refl

  -- What a full snapshot does to the contents of the store.
  abbrev pub full_view : Machine S L W → Bytes → View
  full_view m bytes =
      let saved = put_snapshot (id_of m) bytes (view m.store) in
      if ltb 1 m.session.meta.version
      then drop_deltas (id_of m) (cut_oplog (id_of m) m.session.call_index saved)
      else saved

  pub write_snapshot_lem :
      (m : Machine S L W) (bytes : Bytes)
      → (store : S.State) × (write_snapshot S L bytes m ≡ (returns tt, record m { store = store }))
        × (view store ≡ full_view m bytes)
  unfolding write_snapshot
  write_snapshot_lem m bytes =
      let id = id_of m in
      let saved = S.save id bytes m.store in
      let (done, seen) = rel.save_writes id bytes m.store in
      let cut = S.truncate_oplog id m.session.call_index saved.1 in
      let cut_seen = (rel.truncate_oplog_writes id m.session.call_index saved.1).1 in
      let dropped_seen = (rel.truncate_deltas_writes id cut.1).1 in
      elim (Bool-cases (ltb 1 m.session.meta.version)) [
        | inl later ↦ (
          (S.truncate_deltas id cut.1).1,
          rw (done, after_save, later) refl,
          rw later (
              dropped_seen
              ∙ ap (drop_deltas id) (cut_seen ∙ ap (cut_oplog id m.session.call_index) seen)),
        )
        | inr first ↦ (saved.1, rw (done, after_save, first) refl, rw first seen)
      ]

  save_nonempty_lem :
      (ds : Map ℕ Bytes) (m : Machine S L W)
      → (store : S.State) × (save_nonempty S L ds m ≡ (returns tt, record m { store = store }))
        × ((view store).snapshot (id_of m) ≡ (view m.store).snapshot (id_of m))
        × ((i : ℕ)
            → (view store).deltas (id_of m) i
              ≡ or_else (lookup i ds) ((view m.store).deltas (id_of m) i))
        × ((view store).meta ≡ (view m.store).meta)
  unfolding save_nonempty lookup or_else
  save_nonempty_lem [] m = (m.store, refl, refl, (λ i. refl), refl)
  save_nonempty_lem (d ∷ ds) m =
      let id = id_of m in
      let (done, seen) = rel.save_deltas_writes id (d ∷ ds) m.store in
      (
        (S.save_deltas id (d ∷ ds) m.store).1,
        rw (done, save_nonempty) refl,
        ap (λ (v : View). v.snapshot id) seen,
        (λ i. ap (λ (v : View). v.deltas id i) seen ∙ rw (==-refl id) refl),
        ap (λ (v : View). v.meta) seen,
      )

  -- The deltas and the hashes of an incremental checkpoint.
  abbrev pub scanned : Machine S L W → Bytes → Map ℕ Bytes × Map ℕ ℕ
  scanned m bytes = scan_blocks (length bytes / block_size) 0 bytes [] m.session.page_hashes

  write_scanned-made :
      (deltas : Map ℕ Bytes) (hashes : Map ℕ ℕ) (m : Machine S L W)
      → m.session.hashes_made ≡ true
      → write_scanned S L deltas hashes m
        ≡ save_nonempty S L deltas
            (record m { session = record m.session { page_hashes = hashes } })
  unfolding write_scanned
  write_scanned-made deltas hashes m made =
      ap
        (λ (made : Bool).
          if not made && is_nonempty deltas
          then (panics "assignment to entry in nil map", m)
          else save_nonempty S L deltas
              (record m { session = record m.session { page_hashes = hashes } }))
        made

  -- In a session without a map of hashes, nothing is written.
  store-write_scanned :
      (deltas : Map ℕ Bytes) (hashes : Map ℕ ℕ) (m : Machine S L W)
      → m.session.hashes_made ≡ false
      → (write_scanned S L deltas hashes m).1.store ≡ m.store
  unfolding write_scanned save_nonempty
  store-write_scanned [] hashes m nil = rw nil refl
  store-write_scanned (d ∷ deltas) hashes m nil = rw nil refl

  pub store-write_deltas :
      (m : Machine S L W) (bytes : Bytes)
      → m.session.hashes_made ≡ false
      → (write_deltas S L bytes m).1.store ≡ m.store
  unfolding write_deltas
  store-write_deltas m bytes = store-write_scanned (scanned m bytes).0 (scanned m bytes).1 m

  pub write_deltas_lem :
      (m : Machine S L W) (bytes : Bytes)
      → m.session.hashes_made ≡ true
      → (store : S.State) × (write_deltas S L bytes m ≡ (
        returns tt,
        record m {
          store = store;
          session = record m.session { page_hashes = (scanned m bytes).1 };
        },
      ))
        × ((view store).snapshot (id_of m) ≡ (view m.store).snapshot (id_of m))
        × ((i : ℕ)
            → (view store).deltas (id_of m) i
              ≡ or_else (lookup i (scanned m bytes).0) ((view m.store).deltas (id_of m) i))
        × ((view store).meta ≡ (view m.store).meta)
  unfolding write_deltas
  write_deltas_lem m bytes made =
      let (store, done, kept, new, same) =
        save_nonempty_lem (scanned m bytes).0
          (record m { session = record m.session { page_hashes = (scanned m bytes).1 } }) in
      (
        store,
        write_scanned-made (scanned m bytes).0 (scanned m bytes).1 m made ∙ done,
        kept,
        new,
        same,
      )
