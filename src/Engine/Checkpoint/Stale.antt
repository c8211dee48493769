-- ===== src/Engine/Checkpoint/Stale.antt =====
-- The page hashes after a full snapshot: they are still those of the checkpoint before it.
use durable_wasm.Base.{
  ℕ, ◌+◌, ◌*◌, ◌/◌, ◌≤◌, ◌≡◌, ◌≢◌, ◌∙◌, sym, refl, ap, arith, true, false, Bytes, Option, none,
  some, [], lookup, nat_eq, bytes_eq, length, or_else,
}
use mathlib.Core.Option.{some-injective}
use durable_wasm.Types.{ok}
use durable_wasm.Store.{SnapshotStore}
use durable_wasm.Store.Contract.{IsReliable}
use durable_wasm.Linear.{LinearMemory, IsLinear}
use durable_wasm.Session.{Machine}
use durable_wasm.Engine.Blocks.{fnv64a, block, block_size}
use durable_wasm.Engine.Blocks.Scan.{lookup-scan_blocks_deltas}
use durable_wasm.Engine.Checkpoint.{is_full_snapshot, checkpoint}
use durable_wasm.Engine.Checkpoint.Steps.{
  swap, after, checkpoint-won, write_snapshot_lem, write_deltas_lem,
}
use durable_wasm.Engine.Checkpoint.Hashes.{checkpoint-completed}
use durable_wasm.Engine.Checkpoint.Durable.{store-crash_if_asked, after_lem}
use durable_wasm.Engine.Recovery.Saved.{IsSaved}
use durable_wasm.Engine.Recovery.BlocksOf.{block-base}

module _ (S : SnapshotStore) (rel : IsReliable S) (L : LinearMemory) (lin : IsLinear L)
    {W : Type 0} where
  open rel use {view}
  open lin use {contents}

  -- A block whose new bytes have the hash that is on record is not saved.
  pub clean_block_unsaved :
      (m : Machine S L W) (snapshot : Bytes) (i : ℕ)
      → 1 ≤ length (contents m.memory)
      → m.session.hashes_made ≡ true
      → (swap S rel L lin m).0 ≡ ok true
      → is_full_snapshot (swap S rel L lin m).1.version ≡ false
      → (view m.store).snapshot m.session.instance_id ≡ some snapshot
      → (view m.store).deltas m.session.instance_id i ≡ none
      → lookup i m.session.page_hashes ≡ some (fnv64a (block i (contents m.memory)))
      → let v = view (checkpoint S L m).1.store in
        (v.snapshot m.session.instance_id ≡ some snapshot)
        × (v.deltas m.session.instance_id i ≡ none)
  unfolding lookup or_else nat_eq
  clean_block_unsaved m snapshot i some_bytes made won partial stored no_delta on_record =
      let n = after S rel L lin m in
      let (next, kept_snapshot, kept) = after_lem S rel L lin m won in
      let (store, result, same, new, _) = write_deltas_lem S rel L lin n (contents m.memory) made in
      rw (checkpoint-won S rel L lin m won some_bytes, store-crash_if_asked, partial, result)
        (
          same ∙ ap (λ (d : Bytes → Option Bytes). d m.session.instance_id) kept_snapshot ∙ stored,
          new i
              ∙ ground (
                arith,
                lookup-scan_blocks_deltas (length (contents m.memory) / block_size) 0
                    (contents m.memory) [] m.session.page_hashes i,
                ap (λ (d : Bytes → ℕ → Option Bytes). d m.session.instance_id i) kept,
              ),
        )

  full_checkpoint_view :
      (m : Machine S L W)
      → 1 ≤ length (contents m.memory)
      → (swap S rel L lin m).0 ≡ ok true
      → is_full_snapshot (swap S rel L lin m).1.version ≡ true
      → 2 ≤ (swap S rel L lin m).1.version
      → let v = view (checkpoint S L m).1.store in
        (v.snapshot m.session.instance_id ≡ some (contents m.memory))
        × ((i : ℕ) → v.deltas m.session.instance_id i ≡ none)
  full_checkpoint_view m some_bytes won full past =
      let n = after S rel L lin m in
      let (store, result, seen) = write_snapshot_lem S rel L lin n (contents m.memory) in
      rw (checkpoint-won S rel L lin m won some_bytes, store-crash_if_asked, full, result, seen)
        (ground arith, λ i. ground arith)

  -- A full snapshot after the first one, in a session whose page hashes are not a nil map, does not
  -- bring them up to date: if the guest then puts bytes back into a block, whose hash was on record
  -- before that snapshot, and which the snapshot holds with other bytes, and the next checkpoint is
  -- an incremental one that wins its swap, then what is stored afterwards does not stand for the
  -- guest's memory.
  pub reverted_block_lost :
      (m : Machine S L W) (mem : L.Mem) (i : ℕ)
      → let m' = record (checkpoint S L m).1 { memory = mem } in
        1 ≤ length (contents m.memory)
        → m.session.hashes_made ≡ true
        → (swap S rel L lin m).0 ≡ ok true
        → is_full_snapshot (swap S rel L lin m).1.version ≡ true
        → 2 ≤ (swap S rel L lin m).1.version
        → 1 ≤ length (contents mem)
        → (swap S rel L lin m').0 ≡ ok true
        → is_full_snapshot (swap S rel L lin m').1.version ≡ false
        → i * 4096 + 4096 ≤ length (contents m.memory)
        → lookup i m.session.page_hashes ≡ some (fnv64a (block i (contents mem)))
        → block i (contents mem) ≢ block i (contents m.memory)
        → ¬ IsSaved (view (checkpoint S L m').1.store) m.session.instance_id (contents mem)
  reverted_block_lost m mem i some_bytes made won full past some_bytes' won' partial inside
        on_record differs saved =
      let (_, _, same_id, _, same_made, hashes) =
        checkpoint-completed S rel L lin m won some_bytes made in
      let kept_hashes : (checkpoint S L m).1.session.page_hashes ≡ m.session.page_hashes =
        hashes ∙ rw full refl in
      let (stored, no_deltas) = full_checkpoint_view m some_bytes won full past in
      let m' = record (checkpoint S L m).1 { memory = mem } in
      let v = view m'.store in
      let (stored', no_delta') =
        clean_block_unsaved m' (contents m.memory) i some_bytes' (same_made ∙ made) won' partial
          (ap v.snapshot same_id ∙ stored) (ap (λ (j : Bytes). v.deltas j i) same_id ∙ no_deltas i)
          (ap (lookup i) kept_hashes ∙ on_record) in
      let v' = view (checkpoint S L m').1.store in
      let same_snapshot : saved.snapshot ≡ contents m.memory =
        some-injective _ _ (sym saved.stored ∙ ap v'.snapshot (sym same_id) ∙ stored') in
      differs (
        block-base saved.snapshot (contents mem) _ saved.image i
          (ap (λ (j : Bytes). v'.deltas j i) (sym same_id) ∙ no_delta')
          (omega (arith, ap length same_snapshot))
        ∙ ap (block i) same_snapshot)
