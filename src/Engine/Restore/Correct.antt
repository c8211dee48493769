-- ===== src/Engine/Restore/Correct.antt =====
-- Restoring gives back the memory that the stored snapshot and deltas stand for.
use Prim.Native.Nat.{max}
use mathlib.Core.Path.{ap₂}
use durable_wasm.Base.{
  if◌then◌else◌, replicate, delete, ℕ, zero, ◌+◌, ◌*◌, ◌/◌, ◌^◌, ◌≤◌, ◌<◌, ◌≡◌, ◌∙◌, sym, refl, ap,
  arith, Bytes, Option, none, some, [], ◌∷◌, ◌++◌, Map, lookup, range, NodupKeys, range-NodupKeys,
  lookup-range, ◌-◌, nat_eq, length, splice-all,
}
use mathlib.Core.List.{append-nil}
use durable_wasm.Types.{ok}
use durable_wasm.Store.{SnapshotStore}
use durable_wasm.Store.Contract.{IsReliable, Loads-some}
use durable_wasm.Linear.{LinearMemory, IsLinear, page_size}
use durable_wasm.Linear.Whole.{read_all, write_all}
use durable_wasm.Session.{returns, Machine, Run}
use durable_wasm.Engine.Blocks.{block_size, block, fnv64a, hash_blocks}
use durable_wasm.Engine.Blocks.Scan.{in_range, lookup-hash_blocks}
use native.Mathlib.Decide.{dec_lt}
use durable_wasm.Engine.Restore.Overlay.{overlay, max_index, hash_deltas}
use durable_wasm.Engine.Restore.Bytewise.{
  byte_at, hash_or, overlay_lem, lookup-hash_deltas, le-max_index, max_index-Fits,
}
use durable_wasm.Engine.Recovery.Image.{delta_past, image_unique}
use durable_wasm.Engine.Recovery.BlocksOf.{OverlaidHashes, hashes-IsSynced, hashes-AllHashed}
use durable_wasm.Engine.Restore.{
  with_deltas, restore_deltas, then_deltas, restore, needed_pages, grow_for, with_snapshot,
  restore_snapshot,
}
use durable_wasm.Engine.Recovery.{IsImage, IsSynced, AllHashed}
use durable_wasm.Engine.Recovery.Grow.{grow_for_lem}

module _ (S : SnapshotStore) (L : LinearMemory) (lin : IsLinear L) {W : Type 0} where
  open lin use {contents, limit}

  -- The machine with a memory, and the hashes of the blocks of these bytes.
  abbrev with_memory : Machine S L W → L.Mem → Bytes → Machine S L W
  with_memory m mem bytes = record m {
    memory = mem;
    session = record m.session {
      page_hashes = hash_blocks (length bytes / block_size) 0 bytes m.session.page_hashes;
    };
  }

  with_snapshot-eq :
      (snapshot : Bytes) (m : Machine S L W) (mem : L.Mem)
      → 1 ≤ length snapshot
      → grow_for L (length snapshot) m.memory ≡ some mem
      → length (contents mem) ≡ length snapshot
      → with_snapshot S L (ok snapshot) m
        ≡ (returns tt, with_memory m (L.write mem 0 snapshot).1 snapshot)
  unfolding with_snapshot
  with_snapshot-eq [] m mem some_bytes grown same = absurd (omega arith)
  with_snapshot-eq (b ∷ bs) m mem some_bytes grown same =
      rw (grown, with_snapshot, read_all L lin mem, splice-all (b ∷ bs) (contents mem) (sym same))
        refl

  with_deltas-eq :
      (d : ℕ × Bytes) (ds : Map ℕ Bytes) (m : Machine S L W) (mem : L.Mem) (out : Bytes)
      → grow_for L ((max_index (range (d ∷ ds)) + 1) * block_size) m.memory ≡ some mem
      → overlay (range (d ∷ ds)) (contents mem) ≡ some out
      → with_deltas S L (ok (d ∷ ds)) m ≡ (
        returns tt,
        record m {
          memory = (L.write mem 0 out).1;
          session = record m.session {
            page_hashes = hash_deltas (range (d ∷ ds)) m.session.page_hashes;
          };
        },
      )
  unfolding with_deltas
  with_deltas-eq d ds m mem out grown laid = rw (grown, with_deltas, read_all L lin mem, laid) refl

-- The deltas reach to the end of the memory, if the snapshot does not.
deltas_room :
    (snapshot bytes : Bytes) (deltas : ℕ → Option Bytes) (image : IsImage snapshot deltas bytes)
    (d : ℕ × Bytes) (ds : Map ℕ Bytes)
    → ((i : ℕ) → lookup i (d ∷ ds) ≡ deltas i)
    → NodupKeys (d ∷ ds)
    → max image.snapshot_pages (needed_pages ((max_index (d ∷ ds) + 1) * block_size)) ≡ image.pages
unfolding needed_pages
deltas_room snapshot bytes deltas image (i, d) ds same u =
    elim (dec_lt image.snapshot_pages image.pages) [
      | no whole ↦ omega (
        arith,
        image.paged,
        image.snapshot_fits,
        max_index-Fits ds i d (length bytes) u (λ j e f. image.fits j e (sym (same j) ∙ f)),
      )
      | yes past ↦
          let last = length bytes - 1 in
          let (e, stored) =
            delta_past snapshot bytes deltas image last
              (omega (arith, image.paged, image.snapshot_some))
              (omega (arith, image.paged, image.snapshot_paged)) in
          omega (
            arith,
            image.paged,
            max_index-Fits ds i d (length bytes) u (λ j x f. image.fits j x (sym (same j) ∙ f)),
            le-max_index ((i, d) ∷ ds) (last / 4096) e (same (last / 4096) ∙ stored),
          )
    ]

needed_pages-paged : (n p : ℕ) → n ≡ p * page_size → needed_pages n ≡ p
unfolding needed_pages
needed_pages-paged n p h = omega arith

-- What a restart ends with, from the machine m: the memory `bytes`, with its hashes, and nothing
-- else is changed.
pub record Restored (S : SnapshotStore) (L : LinearMemory) (lin : IsLinear L) {W : Type 0}
    (m : Machine S L W) (bytes : Bytes) (r : Run S L W (Unit {0})) : Type 0 where
  pub memory : L.Mem
  pub hashes : Map ℕ ℕ
  pub result : r ≡ (
    returns tt,
    record m { memory = memory; session = record m.session { page_hashes = hashes } },
  )
  pub holds : lin.contents memory ≡ bytes
  pub synced : IsSynced hashes bytes
  pub hashed : AllHashed hashes bytes

-- A snapshot is stored, it stands with the deltas for the memory `bytes`, which the runtime allows,
-- and the module starts with at most the memory of the snapshot.
pub record IsResumable (S : SnapshotStore) (rel : IsReliable S) (L : LinearMemory)
    (lin : IsLinear L) {W : Type 0} (m : Machine S L W) (bytes : Bytes) : Type 0 where
  pub snapshot : Bytes
  pub stored : (rel.view m.store).snapshot m.session.instance_id ≡ some snapshot
  pub image : IsImage snapshot ((rel.view m.store).deltas m.session.instance_id) bytes
  pub start_pages : ℕ
  pub start_paged : length (lin.contents m.memory) ≡ start_pages * page_size
  pub start_fits : start_pages ≤ image.snapshot_pages
  pub allowed : image.pages ≤ lin.limit
  pub limit_small : lin.limit < 2 ^ 32
  pub no_hashes : m.session.page_hashes ≡ []

module _ (S : SnapshotStore) (rel : IsReliable S) (L : LinearMemory) (lin : IsLinear L) {W : Type 0}
    (m : Machine S L W) (bytes : Bytes) (r : IsResumable S rel L lin m bytes) where
  open lin use {contents, limit}
  open r use {snapshot, image}

  abbrev deltas : ℕ → Option Bytes
  deltas = (rel.view m.store).deltas m.session.instance_id

  snapshot-restored :
      (mem : L.Mem) × (restore_snapshot S L m ≡ (returns tt, with_memory S L lin m mem snapshot))
      × (contents mem ≡ snapshot)
  unfolding restore_snapshot
  snapshot-restored =
      let needs : needed_pages (length snapshot) ≡ image.snapshot_pages =
        needed_pages-paged _ _ image.snapshot_paged in
      let fits : needed_pages (length snapshot) ≤ limit =
        omega (arith, r.allowed, image.snapshot_fits) in
      let (mem, grown, room) =
        grow_for_lem L lin m.memory r.start_pages (length snapshot) r.start_paged fits
          r.limit_small in
      let same : length (contents mem) ≡ length snapshot =
        omega (arith, room.paged, image.snapshot_paged, r.start_fits) in
      (
        (L.write mem 0 snapshot).1,
        rw (Loads-some r.stored (rel.load_loads m.session.instance_id m.store)) (
            with_snapshot-eq S L lin snapshot m mem
              (omega (arith, image.snapshot_paged, image.snapshot_some)) grown same),
        write_all L lin mem snapshot (sym same),
      )

  -- With no deltas the snapshot is the whole memory.
  snapshot-eq_bytes : ((i : ℕ) → deltas i ≡ none) → snapshot ≡ bytes
  snapshot-eq_bytes no_deltas =
      image_unique snapshot bytes deltas image [] snapshot
        (elim (dec_lt (length snapshot) (length bytes)) [
          | no whole ↦ omega (arith, image.paged, image.snapshot_paged, image.snapshot_fits)
          | yes past ↦
              let (d, stored) =
                delta_past snapshot bytes deltas image (length snapshot) past (omega arith) in
              cc (no_deltas (length snapshot / 4096))
        ])
        λ k h. rw (no_deltas, append-nil)

  start_hashes :
      (j : ℕ)
      → lookup j (hash_blocks (length snapshot / block_size) 0 snapshot m.session.page_hashes) ≡ (
          if in_range (length snapshot / block_size) 0 j
          then some (fnv64a (block j snapshot))
          else none)
  unfolding lookup
  start_hashes j =
      lookup-hash_blocks (length snapshot / block_size) 0 snapshot m.session.page_hashes j
      ∙ rw r.no_hashes refl

  deltas-Restored :
      (mem : L.Mem) (d : ℕ × Bytes) (ds : Map ℕ Bytes)
      → contents mem ≡ snapshot
      → ((i : ℕ) → lookup i (d ∷ ds) ≡ deltas i)
      → Restored S L lin m bytes
          (with_deltas S L (ok (d ∷ ds)) (with_memory S L lin m mem snapshot))
  unfolding range lookup
  deltas-Restored mem (i, e) ds holds same =
      let all = range ((i, e) ∷ ds) in
      let once : NodupKeys all = range-NodupKeys ((i, e) ∷ ds) in
      let at : (j : ℕ) → lookup j all ≡ deltas j = λ j. lookup-range j ((i, e) ∷ ds) ∙ same j in
      let pages_eq = deltas_room snapshot bytes deltas image (i, e) (delete i (range ds)) at once in
      let (grown_mem, grown, room) =
        grow_for_lem L lin mem image.snapshot_pages ((max_index all + 1) * block_size)
          (ap length holds ∙ image.snapshot_paged) (omega (arith, pages_eq, r.allowed))
          r.limit_small in
      let full : length (contents grown_mem) ≡ length bytes =
        omega (arith, room.paged, pages_eq, image.paged) in
      let (out, laid, same_length, byte) = overlay_lem all (contents grown_mem) once (λ j d stored.
        let (whole, inside) = image.fits j d (sym (at j) ∙ stored) in (whole, omega arith)) in
      let zeros = replicate room.extra zero in
      let out_eq : out ≡ bytes =
        image_unique snapshot bytes deltas image zeros out (same_length ∙ full) λ k h.
          byte k (omega arith)
          ∙ ap₂ (λ (b : Bytes) (o : Option Bytes). byte_at b o k)
              (room.zeros ∙ ap (λ (b : Bytes). b ++ zeros) holds) (at (k / 4096)) in
      let overlaid : OverlaidHashes snapshot bytes deltas image (
          hash_deltas all
            (hash_blocks (length snapshot / block_size) 0 snapshot m.session.page_hashes)) =
        λ j. lookup-hash_deltas j all _ ∙ ap₂ hash_or (at j) (start_hashes j) in
      record {
        memory = (L.write grown_mem 0 out).1;
        hashes =
            hash_deltas all
              (hash_blocks (length snapshot / block_size) 0 snapshot m.session.page_hashes);
        result =
            with_deltas-eq S L lin (i, e) ds (with_memory S L lin m mem snapshot) grown_mem out
              grown laid;
        holds = write_all L lin grown_mem out same_length ∙ out_eq;
        synced = hashes-IsSynced snapshot bytes deltas image _ overlaid;
        hashed = hashes-AllHashed snapshot bytes deltas image _ overlaid;
      }

  with_deltas-Restored :
      (mem : L.Mem) (ds : Map ℕ Bytes)
      → contents mem ≡ snapshot
      → ((i : ℕ) → lookup i ds ≡ deltas i)
      → Restored S L lin m bytes (with_deltas S L (ok ds) (with_memory S L lin m mem snapshot))
  unfolding with_deltas lookup
  with_deltas-Restored mem [] holds same =
      let none_stored : (i : ℕ) → deltas i ≡ none = λ i. sym (same i) in
      let overlaid : OverlaidHashes snapshot bytes deltas image
          (hash_blocks (length snapshot / block_size) 0 snapshot m.session.page_hashes) =
        λ j. start_hashes j ∙ sym (rw (none_stored j) refl) in
      record {
        memory = mem;
        hashes = hash_blocks (length snapshot / block_size) 0 snapshot m.session.page_hashes;
        result = refl;
        holds = holds ∙ snapshot-eq_bytes none_stored;
        synced = hashes-IsSynced snapshot bytes deltas image _ overlaid;
        hashed = hashes-AllHashed snapshot bytes deltas image _ overlaid;
      }
  with_deltas-Restored mem (d ∷ ds) holds same = deltas-Restored mem d ds holds same

  -- The restoration returns, and leaves in the guest's memory exactly the bytes that the stored
  -- snapshot and deltas stand for, with page hashes that hold the hash of each of their whole blocks
  -- and nothing else: on a session with no page hashes, on a module with whole pages and no more of
  -- them than the snapshot, if the pages of those bytes are within the limit.
  pub restore_lem : Restored S L lin m bytes (restore S L m)
  unfolding restore restore_deltas
  restore_lem =
      let (mem, first, holds) = snapshot-restored in
      let (ds, loaded, same) = rel.load_deltas_loads m.session.instance_id m.store in
      rw (first, then_deltas, loaded) (with_deltas-Restored mem ds holds same)
