-- ===== src/Engine/Checkpoint/Durable.antt =====
-- After a checkpoint that is not refused, the store stands for the guest's memory.
use durable_wasm.Base.{
  ℕ, ◌+◌, ◌*◌, ◌≤◌, ◌≡◌, ◌∙◌, refl, ap, arith, true, false, Bool-cases, inl, inr, Bytes, Option,
  none, nat_eq, bytes_eq, length, fun_ext,
}
use durable_wasm.Types.{ok}
use durable_wasm.Store.{SnapshotStore}
use durable_wasm.Store.View.{View}
use durable_wasm.Store.Contract.{IsReliable, Swaps-won}
use durable_wasm.Linear.{LinearMemory, IsLinear, page_size}
use durable_wasm.Session.{returns, fails, panics, Machine, Run}
use durable_wasm.Engine.Checkpoint.{
  is_full_snapshot, write_snapshot, write_deltas, crash_if_asked, checkpoint,
}
use durable_wasm.Engine.Checkpoint.Steps.{
  swap, after, written, full_view, checkpoint-won, write_snapshot_lem, write_deltas_lem,
}
use durable_wasm.Engine.Recovery.{IsSynced, NoCollision}
use durable_wasm.Engine.Recovery.Saved.{IsSaved}
use durable_wasm.Engine.Recovery.Checkpointed.{IsImage-self, IsImage-merged}

-- Either the instance has never been saved, or what is stored of it stands for an earlier memory, and
-- the session has its page hashes, with which the session's page hashes agree, which was no larger, and no block of which has a new
-- content with the same hash.
pub data IsReady {W : Type 0} (S : SnapshotStore) (rel : IsReliable S) (L : LinearMemory)
    (lin : IsLinear L) (m : Machine S L W) : Type 0 where
  first :
      m.session.meta.version ≡ 0
      → ((i : ℕ) → (rel.view m.store).deltas m.session.instance_id i ≡ none)
      → IsReady S rel L lin m
  later :
      (old : Bytes)
      → 1 ≤ m.session.meta.version
      → IsSaved (rel.view m.store) m.session.instance_id old
      → m.session.hashes_made ≡ true
      → IsSynced m.session.page_hashes old
      → length old ≤ length (lin.contents m.memory)
      → NoCollision old (lin.contents m.memory)
      → IsReady S rel L lin m

first-is_full_snapshot : (v : ℕ) → v ≡ 1 → is_full_snapshot v ≡ true
unfolding is_full_snapshot nat_eq
first-is_full_snapshot v h = ground arith

module _ (S : SnapshotStore) (rel : IsReliable S) (L : LinearMemory) (lin : IsLinear L)
    {W : Type 0} where
  open rel use {view}
  open lin use {contents}

  -- The simulated crash leaves the store alone.
  pub store-crash_if_asked : (r : Run S L W (Unit {0})) → (crash_if_asked S L r).1.store ≡ r.1.store
  unfolding crash_if_asked
  store-crash_if_asked (returns _, m) = ground arith
  store-crash_if_asked (fails e, m) = refl
  store-crash_if_asked (panics reason, m) = refl

  snapshot-IsSaved :
      (m : Machine S L W) (bytes : Bytes) (p : ℕ)
      → 1 ≤ p
      → length bytes ≡ p * page_size
      → ((i : ℕ) → (full_view S rel L lin m bytes).deltas m.session.instance_id i ≡ none)
      → IsSaved (view (write_snapshot S L bytes m).1.store) m.session.instance_id bytes
  snapshot-IsSaved m bytes p some_pages paged no_deltas =
      let (store, result, seen) = write_snapshot_lem S rel L lin m bytes in
      rw (result, seen)
        (record {
          snapshot = bytes;
          stored = ground arith;
          image = IsImage-self bytes _ p some_pages paged no_deltas;
        })

  deltas-IsSaved :
      (m : Machine S L W) (bytes old : Bytes) (p : ℕ)
      → length bytes ≡ p * page_size
      → IsSaved (view m.store) m.session.instance_id old
      → m.session.hashes_made ≡ true
      → IsSynced m.session.page_hashes old
      → length old ≤ length bytes
      → NoCollision old bytes
      → IsSaved (view (write_deltas S L bytes m).1.store) m.session.instance_id bytes
  deltas-IsSaved m bytes old p paged saved made synced grows distinct =
      let (store, result, kept, new, _) = write_deltas_lem S rel L lin m bytes made in
      rw result (record {
        snapshot = saved.snapshot;
        stored = kept ∙ saved.stored;
        image = rw (fun_ext new) (
            IsImage-merged m.session.page_hashes bytes saved.snapshot old _ p saved.image synced
              paged grows distinct);
      })

  -- After a swap the version is one more, and the contents but for the metadata are as before.
  pub after_lem :
      (m : Machine S L W)
      → (swap S rel L lin m).0 ≡ ok true
      → ((after S rel L lin m).session.meta.version ≡ m.session.meta.version + 1)
        × ((view (after S rel L lin m).store).snapshot ≡ (view m.store).snapshot)
        × ((view (after S rel L lin m).store).deltas ≡ (view m.store).deltas)
  after_lem m won =
      let (next, same_id, seen) =
        Swaps-won view _ m.store (swap S rel L lin m) (rel.save_metadata_swaps _ m.store) won in
      (next, ap (λ (v : View). v.snapshot) seen, ap (λ (v : View). v.deltas) seen)

  full_deltas_later :
      (m : Machine S L W) (bytes : Bytes)
      → 2 ≤ m.session.meta.version
      → (i : ℕ) → (full_view S rel L lin m bytes).deltas m.session.instance_id i ≡ none
  full_deltas_later m bytes past i = ground arith

  full_deltas_first :
      (m : Machine S L W) (bytes : Bytes)
      → m.session.meta.version ≡ 1
      → ((i : ℕ) → (view m.store).deltas m.session.instance_id i ≡ none)
      → (i : ℕ) → (full_view S rel L lin m bytes).deltas m.session.instance_id i ≡ none
  full_deltas_first m bytes start no_deltas i = ground (arith, no_deltas i)

  written-IsSaved :
      (m : Machine S L W) (p : ℕ)
      → 1 ≤ p
      → length (contents m.memory) ≡ p * page_size
      → (is_full_snapshot m.session.meta.version ≡ true
          → (i : ℕ)
          → (full_view S rel L lin m (contents m.memory)).deltas m.session.instance_id i ≡ none)
      → (is_full_snapshot m.session.meta.version ≡ false
          → IsSaved
              (view (write_deltas S L (contents m.memory) m).1.store)
              m.session.instance_id
              (contents m.memory))
      → IsSaved (view (written S rel L lin m).1.store) m.session.instance_id (contents m.memory)
  written-IsSaved m p some_pages paged full partial =
      elim (Bool-cases (is_full_snapshot m.session.meta.version)) [
        | inl yes_full ↦
            rw yes_full (snapshot-IsSaved m (contents m.memory) p some_pages paged (full yes_full))
        | inr not_full ↦ rw not_full (partial not_full)
      ]

  -- A checkpoint that wins its swap leaves a snapshot and deltas that stand for the guest's memory,
  -- also if the simulated crash follows: if the memory is whole pages, at least one, and the
  -- instance had no deltas before its first checkpoint, or what was stored stood for a memory that
  -- was no larger, with which the page hashes, which are not a nil map, agreed, and no block got
  -- other bytes with the same hash.
  pub checkpoint-IsSaved :
      (m : Machine S L W) (p : ℕ)
      → 1 ≤ p
      → length (contents m.memory) ≡ p * page_size
      → (swap S rel L lin m).0 ≡ ok true
      → IsReady S rel L lin m
      → IsSaved (view (checkpoint S L m).1.store) m.session.instance_id (contents m.memory)
  checkpoint-IsSaved m p some_pages paged won (first start no_deltas) =
      let (next, kept_snapshot, kept) = after_lem m won in
      rw (checkpoint-won S rel L lin m won (omega arith), store-crash_if_asked)
        (written-IsSaved (after S rel L lin m) p some_pages paged
          (λ _. full_deltas_first (after S rel L lin m) _ (omega arith) (λ i.
            ap (λ (d : Bytes → ℕ → Option Bytes). d m.session.instance_id i) kept ∙ no_deltas i))
          (λ not_full. cc (first-is_full_snapshot _ (next ∙ ap (λ (v : ℕ). v + 1) start))))
  checkpoint-IsSaved m p some_pages paged won (later old past saved made synced grows distinct) =
      let (next, kept_snapshot, kept) = after_lem m won in
      rw (checkpoint-won S rel L lin m won (omega arith), store-crash_if_asked)
        (written-IsSaved (after S rel L lin m) p some_pages paged
          (λ _. full_deltas_later (after S rel L lin m) _ (omega arith))
          (λ _.
            deltas-IsSaved (after S rel L lin m) (contents m.memory) old p paged
              (record {
                snapshot = saved.snapshot;
                stored =
                    ap (λ (d : Bytes → Option Bytes). d m.session.instance_id) kept_snapshot
                    ∙ saved.stored;
                image = rw kept saved.image;
              })
              made synced grows distinct))
