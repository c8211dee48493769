-- ===== src/Engine/Checkpoint/Torn.antt =====
-- The process ends inside a full snapshot: between Save and the truncations that follow it.
use durable_wasm.Base.{
  ℕ, ◌+◌, ◌*◌, ◌≤◌, ◌≡◌, ◌≢◌, ◌∙◌, sym, refl, ap, arith, true, Bytes, Option, none, some, ltb,
  bytes_eq, ==-refl, length,
}
use mathlib.Core.Option.{some-injective}
use durable_wasm.Types.{ok}
use durable_wasm.Store.{SnapshotStore}
use durable_wasm.Store.View.{View}
use durable_wasm.Store.Contract.{IsReliable}
use durable_wasm.Linear.{LinearMemory, IsLinear}
use durable_wasm.Session.{returns, Machine}
use durable_wasm.Engine.Blocks.{block}
use durable_wasm.Engine.Checkpoint.{
  is_full_snapshot, truncate_logs, after_save, write_snapshot, crash_if_asked, checkpoint,
}
use durable_wasm.Engine.Checkpoint.Steps.{swap, after, checkpoint-won}
use durable_wasm.Engine.Checkpoint.Durable.{after_lem}
use durable_wasm.Engine.Recovery.Saved.{IsSaved}
use durable_wasm.Engine.Recovery.BlocksOf.{block-delta, block-base}

module _ (S : SnapshotStore) (rel : IsReliable S) (L : LinearMemory) (lin : IsLinear L)
    {W : Type 0} where
  open rel use {view}
  open lin use {contents}

  -- The machine of a full checkpoint after its swap and its Save.
  abbrev pub saved_only : Machine S L W → Machine S L W
  saved_only m =
      let n = after S rel L lin m in
      record n { store = (S.save n.session.instance_id (contents n.memory) n.store).1 }

  -- The truncations, and a crash that is asked for, are what a full checkpoint does after its Save.
  checkpoint-saved_only :
      (m : Machine S L W)
      → 1 ≤ length (contents m.memory)
      → (swap S rel L lin m).0 ≡ ok true
      → is_full_snapshot (swap S rel L lin m).1.version ≡ true
      → 2 ≤ (swap S rel L lin m).1.version
      → checkpoint S L m ≡ crash_if_asked S L (returns tt, truncate_logs S L (saved_only m))
  unfolding write_snapshot
  checkpoint-saved_only m some_bytes won full past =
      let n = after S rel L lin m in
      let later : ltb 1 (swap S rel L lin m).1.version ≡ true = ground arith in
      let (done, _) = rel.save_writes n.session.instance_id (contents n.memory) n.store in
      rw (checkpoint-won S rel L lin m won some_bytes, full, done, after_save, later) refl

  -- Save puts the new snapshot under the deltas of the checkpoints before it.
  view-saved_only :
      (m : Machine S L W)
      → (swap S rel L lin m).0 ≡ ok true
      → let v = view (saved_only m).store in
        (v.snapshot m.session.instance_id ≡ some (contents m.memory))
        × ((i : ℕ)
            → v.deltas m.session.instance_id i ≡ (view m.store).deltas m.session.instance_id i)
  view-saved_only m won =
      let n = after S rel L lin m in
      let id = m.session.instance_id in
      let (_, seen) = rel.save_writes id (contents m.memory) n.store in
      let (_, _, kept) = after_lem S rel L lin m won in
      (
        ap (λ (v : View). v.snapshot id) seen ∙ rw (==-refl id) refl,
        λ i.
            ap (λ (v : View). v.deltas id i) seen
            ∙ ap (λ (ds : Bytes → ℕ → Option Bytes). ds id i) kept,
      )

  -- A full snapshot is not written at once: after its swap, a checkpoint at a version past the first
  -- saves the memory and then truncates the oplog and the deltas. If the process ends between the
  -- two, where the store held a delta of block i that is not the memory's block, and no delta of
  -- block j, which the memory has and has changed, then what is stored stands neither for the
  -- guest's memory nor for the memory before it.
  pub checkpoint-torn :
      (m : Machine S L W) (i j : ℕ) (d before : Bytes)
      → 1 ≤ length (contents m.memory)
      → (swap S rel L lin m).0 ≡ ok true
      → is_full_snapshot (swap S rel L lin m).1.version ≡ true
      → 2 ≤ (swap S rel L lin m).1.version
      → (view m.store).deltas m.session.instance_id i ≡ some d
      → block i (contents m.memory) ≢ d
      → (view m.store).deltas m.session.instance_id j ≡ none
      → j * 4096 + 4096 ≤ length (contents m.memory)
      → block j before ≢ block j (contents m.memory)
      → let v = view (saved_only m).store in
        (checkpoint S L m ≡ crash_if_asked S L (returns tt, truncate_logs S L (saved_only m)))
        × (¬ IsSaved v m.session.instance_id (contents m.memory))
        × (¬ IsSaved v m.session.instance_id before)
  checkpoint-torn m i j d before some_bytes won full past stale differs missing room changed =
      let (snapshot, deltas) = view-saved_only m won in
      (
        checkpoint-saved_only m some_bytes won full past,
        (λ saved.
            differs (
              block-delta saved.snapshot (contents m.memory) _ saved.image i d (deltas i ∙ stale))),
        λ saved.
            let same : saved.snapshot ≡ contents m.memory =
              some-injective _ _ (sym saved.stored ∙ snapshot) in
            changed (
              block-base saved.snapshot before _ saved.image j (deltas j ∙ missing)
                (omega (arith, ap length same))
              ∙ ap (block j) same),
      )
