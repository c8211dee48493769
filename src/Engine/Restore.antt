-- ===== src/Engine/Restore.antt =====
-- wasman.go: the restoration of a saved memory, which ExecuteWithArgs and RunBPMN both do after they
-- have instantiated a module.
pub mod Overlay
pub mod Bytewise
pub mod Correct
pub mod ReadsOnly
use Prim.Native.Nat.{max}
use Prim.Native.String.{String}
use durable_wasm.Base.{
  ℕ, zero, suc, ◌+◌, ◌*◌, ◌/◌, ◌-◌, ◌%◌, ◌^◌, Bool, true, false, Bytes, Option, none, some, List,
  [], ◌∷◌, Map, range, insert, nat_eq, length, ltb, leb, splice, if◌then◌else◌,
}
use durable_wasm.Types.{Error, text, Result, ok, err}
use durable_wasm.Store.{SnapshotStore}
use durable_wasm.Linear.{LinearMemory}
use durable_wasm.Session.{Session, Outcome, returns, fails, panics, Machine, Run}
use durable_wasm.Engine.Blocks.{block_size, fnv64a, hash_blocks}
use durable_wasm.Engine.Restore.Overlay.{overlay, overlay_until_panic, max_index, hash_deltas}

-- `(uint64(n) + 65535) / 65536`
unfoldable pub needed_pages : ℕ → ℕ
needed_pages n = (n + 65535) / 65536

-- `current, _ := memory.Grow(0)`: a failure gives 0 pages.
abbrev pages_or_zero : Option ℕ → ℕ
pages_or_zero none = 0
pages_or_zero (some n) = n

module _ (L : LinearMemory) where
  abbrev grown : Option ℕ × L.Mem → Option L.Mem
  grown (none, mem) = none
  grown (some before, mem) = some mem

  -- The memory with room for `size` bytes, or `none` if it cannot grow so far.
  unfoldable pub grow_for : ℕ → L.Mem → Option L.Mem
  unfolding needed_pages
  grow_for size mem =
      let (current, mem') = L.grow mem 0 in
      let pages = needed_pages size % 2 ^ 32 in
      if ltb (pages_or_zero current) pages
      then grown (L.grow mem' (pages - pages_or_zero current))
      else some mem'

module _ (S : SnapshotStore) (L : LinearMemory) {W : Type 0} where
  -- `copy(memoryBytes, snapshot)` through the view, and the hashes of all blocks.
  copy_snapshot : Bytes → Option Bytes → Machine S L W → Run S L W (Unit {0})
  copy_snapshot snapshot none m = (fails (text "failed to read memory for snapshot restoration"), m)
  copy_snapshot snapshot (some view) m =
      let bytes = splice 0 snapshot view in
      let hashes = hash_blocks (length bytes / block_size) 0 bytes m.session.page_hashes in
      (
        returns tt,
        record m {
          memory = (L.write m.memory 0 bytes).1;
          session = record m.session { page_hashes = hashes };
        },
      )

  put_snapshot : Bytes → Option L.Mem → Machine S L W → Run S L W (Unit {0})
  unfolding copy_snapshot
  put_snapshot snapshot none m = (fails (text "failed to grow memory for snapshot"), m)
  put_snapshot snapshot (some mem) m =
      copy_snapshot snapshot (L.read mem 0 (L.size mem)) (record m { memory = mem })

  with_snapshot : Result Bytes → Machine S L W → Run S L W (Unit {0})
  unfolding put_snapshot
  with_snapshot (err e) m = (returns tt, m)
  with_snapshot (ok []) m = (returns tt, m)
  with_snapshot (ok (b ∷ bs)) m = put_snapshot (b ∷ bs) (grow_for L (length (b ∷ bs)) m.memory) m

  -- Load a full snapshot, if there is one.
  unfoldable pub restore_snapshot : Machine S L W → Run S L W (Unit {0})
  unfolding with_snapshot
  restore_snapshot m = with_snapshot (S.load m.session.instance_id m.store) m

  -- The memory and the hashes of the deltas that were copied.
  unfoldable pub with_copied : Map ℕ Bytes → Bytes → Machine S L W → Machine S L W
  with_copied deltas bytes m = record m {
    memory = (L.write m.memory 0 bytes).1;
    session = record m.session { page_hashes = hash_deltas deltas m.session.page_hashes };
  }

  -- A panic leaves what was copied before it.
  write_back : Map ℕ Bytes → Bytes → Option Bytes → Machine S L W → Run S L W (Unit {0})
  unfolding with_copied
  write_back deltas view none m =
      let (copied, bytes) = overlay_until_panic (range deltas) view in
      (panics "slice bounds out of range", with_copied copied bytes m)
  write_back deltas view (some bytes) m = (returns tt, with_copied (range deltas) bytes m)

  overlay_view : Map ℕ Bytes → Option Bytes → Machine S L W → Run S L W (Unit {0})
  unfolding write_back
  overlay_view deltas none m = (fails (text "failed to read memory for deltas restoration"), m)
  overlay_view deltas (some view) m = write_back deltas view (overlay (range deltas) view) m

  put_deltas : Map ℕ Bytes → Option L.Mem → Machine S L W → Run S L W (Unit {0})
  unfolding overlay_view
  put_deltas deltas none m = (fails (text "failed to grow memory for deltas"), m)
  put_deltas deltas (some mem) m =
      overlay_view deltas (L.read mem 0 (L.size mem)) (record m { memory = mem })

  with_deltas : Result (Map ℕ Bytes) → Machine S L W → Run S L W (Unit {0})
  unfolding put_deltas
  with_deltas (err e) m = (returns tt, m)
  with_deltas (ok []) m = (returns tt, m)
  with_deltas (ok (d ∷ ds)) m =
      put_deltas (d ∷ ds) (grow_for L ((max_index (range (d ∷ ds)) + 1) * block_size) m.memory) m

  -- Load memory deltas, if there are any, and lay them over the memory.
  unfoldable pub restore_deltas : Machine S L W → Run S L W (Unit {0})
  unfolding with_deltas
  restore_deltas m = with_deltas (S.load_deltas m.session.instance_id m.store) m

  then_deltas : Run S L W (Unit {0}) → Run S L W (Unit {0})
  then_deltas (returns _, m) = restore_deltas m
  then_deltas (fails e, m) = (fails e, m)
  then_deltas (panics reason, m) = (panics reason, m)

  unfoldable pub restore : Machine S L W → Run S L W (Unit {0})
  unfolding then_deltas
  restore m = then_deltas (restore_snapshot m)
