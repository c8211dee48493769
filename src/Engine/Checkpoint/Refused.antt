-- ===== src/Engine/Checkpoint/Refused.antt =====
-- A checkpoint whose swap is refused, since another session has written the instance.
use durable_wasm.Base.{◌≡◌, refl, ap, Bool, true, false}
use durable_wasm.Types.{Result, ok, err, InstanceMeta}
use durable_wasm.Store.{SnapshotStore}
use durable_wasm.Store.View.{View}
use durable_wasm.Store.Contract.{IsReliable, Swaps}
use durable_wasm.Linear.{LinearMemory, IsLinear}
use durable_wasm.Session.{panics, Machine}
use durable_wasm.Engine.Checkpoint.{after_swap, checkpoint}
use durable_wasm.Engine.Checkpoint.Steps.{swap}

Swaps-refused :
    {S : Type 0} (view : S → View) (meta : InstanceMeta) (s : S)
    (r : Result Bool × InstanceMeta × S)
    → Swaps view meta s r
    → r.0 ≡ ok false
    → (r.1 ≡ meta) × (view r.2 ≡ view s)
Swaps-refused view meta s (err e, meta', s') h refused = absurd (cc refused)
Swaps-refused view meta s (ok false, meta', s') h refused = h
Swaps-refused view meta s (ok true, meta', s') h refused = absurd (cc refused)

module _ (S : SnapshotStore) (rel : IsReliable S) (L : LinearMemory) (lin : IsLinear L)
    {W : Type 0} where
  open rel use {view}

  -- A checkpoint whose swap the store refuses panics with "concurrent_execution_detected". What is
  -- stored, the guest's memory and the session are as before, but that the metadata of the session
  -- name the engine's module.
  pub checkpoint-refused :
      (m : Machine S L W)
      → (swap S rel L lin m).0 ≡ ok false
      → let r = checkpoint S L m in
        (r.0 ≡ panics "concurrent_execution_detected")
        × (view r.1.store ≡ view m.store)
        × (r.1.memory ≡ m.memory)
        × (r.1.session ≡ record m.session {
          meta = record m.session.meta { wasm_hash = m.session.engine_hash };
        })
  unfolding checkpoint
  checkpoint-refused m refused =
      let given = record m.session.meta { wasm_hash = m.session.engine_hash } in
      let (kept, seen) =
        Swaps-refused view given m.store (swap S rel L lin m)
          (rel.save_metadata_swaps given m.store) refused in
      rw (refused, after_swap)
        (refl, seen, refl, ap (λ (meta : InstanceMeta). record m.session { meta = meta }) kept)
