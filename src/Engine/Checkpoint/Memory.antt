-- ===== src/Engine/Checkpoint/Memory.antt =====
-- A checkpoint reads the guest's memory and does not change it.
use durable_wasm.Base.{
  ℕ, ◌≡◌, ◌∙◌, refl, Bool, true, false, not, ◌&&◌, Bool-cases, inl, inr, Bytes, Option, none, some,
  [], ◌∷◌, Map, nat_eq, ◌==◌, ltb, if◌then◌else◌,
}
use durable_wasm.Types.{Result, ok, err, InstanceMeta}
use durable_wasm.Store.{SnapshotStore}
use durable_wasm.Linear.{LinearMemory}
use durable_wasm.Session.{returns, fails, panics, Machine, Run}
use durable_wasm.Engine.Checkpoint.{
  is_full_snapshot, truncate_logs, after_save, write_snapshot, after_save_deltas, save_nonempty,
  is_nonempty, write_scanned, write_deltas, crash_if_asked, write_memory, after_swap, checkpoint,
}

module _ (S : SnapshotStore) (L : LinearMemory) {W : Type 0} where
  memory-after_save :
      (m : Machine S L W) (r : Result (Unit {0}) × S.State)
      → (after_save S L m r).1.memory ≡ m.memory
  unfolding after_save truncate_logs
  memory-after_save m (err e, store) = refl
  memory-after_save m (ok _, store) = elim (Bool-cases (ltb 1 m.session.meta.version)) [
    | inl later ↦ rw later refl
    | inr first ↦ rw first refl
  ]

  memory-after_save_deltas :
      (m : Machine S L W) (r : Result (Unit {0}) × S.State)
      → (after_save_deltas S L m r).1.memory ≡ m.memory
  unfolding after_save_deltas
  memory-after_save_deltas m (err e, store) = refl
  memory-after_save_deltas m (ok _, store) = refl

  memory-save_nonempty :
      (deltas : Map ℕ Bytes) (m : Machine S L W) → (save_nonempty S L deltas m).1.memory ≡ m.memory
  unfolding save_nonempty
  memory-save_nonempty [] m = refl
  memory-save_nonempty (d ∷ deltas) m =
      memory-after_save_deltas m (S.save_deltas m.session.instance_id (d ∷ deltas) m.store)

  memory-write_scanned :
      (deltas : Map ℕ Bytes) (hashes : Map ℕ ℕ) (m : Machine S L W)
      → (write_scanned S L deltas hashes m).1.memory ≡ m.memory
  unfolding write_scanned
  memory-write_scanned deltas hashes m =
      elim (Bool-cases (not m.session.hashes_made && is_nonempty deltas)) [
        | inl nil ↦ rw nil refl
        | inr made ↦ rw made (memory-save_nonempty deltas _)
      ]

  memory-crash_if_asked : (r : Run S L W (Unit {0})) → (crash_if_asked S L r).1.memory ≡ r.1.memory
  unfolding crash_if_asked
  memory-crash_if_asked (returns _, m) = elim (Bool-cases m.session.should_crash_on_checkpoint) [
    | inl asked ↦ rw asked refl
    | inr not_asked ↦ rw not_asked refl
  ]
  memory-crash_if_asked (fails e, m) = refl
  memory-crash_if_asked (panics reason, m) = refl

  memory-write_memory :
      (read : Option Bytes) (m : Machine S L W) → (write_memory S L read m).1.memory ≡ m.memory
  unfolding write_memory write_snapshot write_deltas
  memory-write_memory none m = refl
  memory-write_memory (some bytes) m =
      memory-crash_if_asked (
        if is_full_snapshot m.session.meta.version
        then write_snapshot S L bytes m
        else write_deltas S L bytes m)
      ∙ elim (Bool-cases (is_full_snapshot m.session.meta.version)) [
        | inl full ↦ rw full (memory-after_save m _)
        | inr partial ↦ rw partial (memory-write_scanned _ _ m)
      ]

  memory-after_swap :
      (m : Machine S L W) (r : Result Bool × InstanceMeta × S.State)
      → (after_swap S L m r).1.memory ≡ m.memory
  unfolding after_swap
  memory-after_swap m (err e, meta, store) = refl
  memory-after_swap m (ok false, meta, store) = refl
  memory-after_swap m (ok true, meta, store) = elim (Bool-cases (L.size m.memory == 0)) [
    | inl empty ↦ rw empty refl
    | inr some_bytes ↦ rw some_bytes (memory-write_memory _ _)
  ]

  pub memory-checkpoint : (m : Machine S L W) → (checkpoint S L m).1.memory ≡ m.memory
  unfolding checkpoint
  memory-checkpoint m = memory-after_swap m _
