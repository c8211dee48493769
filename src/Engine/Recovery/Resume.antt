-- ===== src/Engine/Recovery/Resume.antt =====
-- A crash right after a checkpoint, and a restart on a machine with the same store.
use durable_wasm.Base.{ℕ, ◌*◌, ◌^◌, ◌≤◌, ◌<◌, ◌≡◌, arith, true, Bytes, some, [], length}
use durable_wasm.Types.{ok}
use durable_wasm.Store.{SnapshotStore}
use durable_wasm.Store.Contract.{IsReliable}
use durable_wasm.Linear.{LinearMemory, IsLinear, page_size}
use durable_wasm.Session.{Machine}
use durable_wasm.Engine.Checkpoint.{checkpoint}
use durable_wasm.Engine.Checkpoint.Steps.{swap}
use durable_wasm.Engine.Checkpoint.Durable.{IsReady, checkpoint-IsSaved}
use durable_wasm.Engine.Recovery.Saved.{IsSaved}
use durable_wasm.Engine.Restore.{restore}
use durable_wasm.Engine.Restore.Correct.{Restored, IsResumable, restore_lem}

module _ (S : SnapshotStore) (rel : IsReliable S) (L : LinearMemory) (lin : IsLinear L)
    {W : Type 0} where
  open rel use {view}
  open lin use {contents, limit}

  -- A new session on a fresh module: it has no page hashes, and at most the memory of the snapshot
  -- that is stored.
  pub record IsFresh (m : Machine S L W) (pages : ℕ) : Type 0 where
    pub no_hashes : m.session.page_hashes ≡ []
    pub paged : length (contents m.memory) ≡ pages * page_size
    pub fits :
        (snapshot : Bytes)
        → (view m.store).snapshot m.session.instance_id ≡ some snapshot
        → pages * page_size ≤ length snapshot

  pub saved-IsResumable :
      (m : Machine S L W) (bytes : Bytes) (pages p : ℕ)
      → IsFresh m pages
      → length bytes ≡ p * page_size
      → p ≤ limit
      → limit < 2 ^ 32
      → IsSaved (view m.store) m.session.instance_id bytes
      → IsResumable S rel L lin m bytes
  saved-IsResumable m bytes pages p fresh paged allowed small saved = record {
    snapshot = saved.snapshot;
    stored = saved.stored;
    image = saved.image;
    start_pages = pages;
    start_paged = fresh.paged;
    start_fits = omega (arith, fresh.fits saved.snapshot saved.stored, saved.image.snapshot_paged);
    allowed = omega (arith, saved.image.paged);
    limit_small = small;
    no_hashes = fresh.no_hashes;
  }

  -- A new session of an instance on the store that a checkpoint left, on a module with at most as
  -- much memory as the stored snapshot and with no page hashes, gets exactly the guest's memory at
  -- that checkpoint and page hashes that hold the hash of each of its whole blocks and nothing else:
  -- if the checkpoint won its swap, the memory was whole pages, at least one and no more than the
  -- limit, and the instance had no deltas before its first checkpoint, or what was stored stood for
  -- a memory that was no larger, with which the page hashes, which are not a nil map, agreed, and no
  -- block got other bytes with the same hash.
  pub restore-checkpoint :
      (m m' : Machine S L W) (p pages : ℕ)
      → 1 ≤ p
      → length (contents m.memory) ≡ p * page_size
      → p ≤ limit
      → limit < 2 ^ 32
      → (swap S rel L lin m).0 ≡ ok true
      → IsReady S rel L lin m
      → m'.store ≡ (checkpoint S L m).1.store
      → m'.session.instance_id ≡ m.session.instance_id
      → IsFresh m' pages
      → Restored S L lin m' (contents m.memory) (restore S L m')
  restore-checkpoint m m' p pages some_pages paged allowed small won ready same_store same_id
        fresh =
      restore_lem S rel L lin m' (contents m.memory) (
        saved-IsResumable m' (contents m.memory) pages p fresh paged allowed small (
          rw (same_store, same_id) (checkpoint-IsSaved S rel L lin m p some_pages paged won ready)))
