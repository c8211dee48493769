-- ===== src/Engine/Execute/Resumed.antt =====
-- An execution of an instance that has a snapshot: from the metadata to the call of the entrypoint.
use durable_wasm.Base.{
  ℕ, ◌≡◌, ◌∙◌, ap, true, false, Bytes, str, Option, none, some, List, [], ◌++◌, ◌==◌, bytes_eq,
  nat_eq, Map, if◌then◌else◌,
}
use durable_wasm.Types.{ok, InstanceMeta}
use durable_wasm.Store.{SnapshotStore}
use durable_wasm.Store.Contract.{IsReliable}
use durable_wasm.Linear.{LinearMemory, IsLinear}
use durable_wasm.Session.{Machine}
use durable_wasm.Engine.Restore.{restore}
use durable_wasm.Engine.Restore.Correct.{IsResumable, restore_lem}
use durable_wasm.Engine.Recovery.{IsSynced}
use durable_wasm.Engine.Execute.{
  CallEnd, stopped, Instance, Wazero, Engine, Call, Host, select_module, meta_of, new_session,
  call_entrypoint, after_restore, after_start, start, instantiated, selected, loaded,
  execute_with_args, fresh_hashes,
}

module _ (S : SnapshotStore) (rel : IsReliable S) (L : LinearMemory) (lin : IsLinear L) {W : Type 0}
    (Z : Wazero S L W) (call : Call W) where
  open lin use {contents}

  -- The machine on which `_start` is called.
  abbrev pub launched :
      Engine Z.Compiled → Option InstanceMeta → Instance S L W → S.State → W → Machine S L W
  launched e meta inst store w = record {
    session = new_session S L Z call e (meta_of S L Z call.instance_id e meta);
    store = store;
    memory = inst.memory;
    world = w;
  }

  start-exits :
      (e : Engine Z.Compiled) (inst : Instance S L W) (m m' : Machine S L W)
      (start_func : List ℕ → Machine S L W → CallEnd × Machine S L W) (reason : Bytes)
      → (call.entrypoint == str "_start") ≡ false
      → inst.exported (str "_start") ≡ some start_func
      → start_func [] m ≡ (stopped (some 0) reason, m')
      → start S L Z call e inst m
        ≡ after_restore S L Z call e inst (restore S L (fresh_hashes S L Z m'))
  unfolding start after_start nat_eq
  start-exits e inst m m' start_func reason other has exits =
      ap
        (λ b.
          if b
          then after_restore S L Z call e inst (restore S L (fresh_hashes S L Z m))
          else elim (inst.exported (str "_start")) [
            | none ↦ after_restore S L Z call e inst (restore S L (fresh_hashes S L Z m))
            | some f ↦ after_start S L Z call e inst (f [] m)
          ])
        other
      ∙ ap
          (λ (o : Option (List ℕ → Machine S L W → CallEnd × Machine S L W)). elim o [
            | none ↦ after_restore S L Z call e inst (restore S L (fresh_hashes S L Z m))
            | some f ↦ after_start S L Z call e inst (f [] m)
          ])
          has
      ∙ ap (after_start S L Z call e inst) exits

  execute-start :
      (h : Host S L Z) (meta : Option InstanceMeta) (built : Z.Compiled) (e : Engine Z.Compiled)
      (inst : Instance S L W) (w : W)
      → S.load_metadata call.instance_id h.store ≡ ok meta
      → select_module S L Z meta h.engine h.store ≡ (ok built, e)
      → Z.instantiate_module built (str "main-" ++ call.instance_id) h.world ≡ (ok inst, w)
      → execute_with_args S L Z call h ≡ start S L Z call e inst (launched e meta inst h.store w)
  unfolding execute_with_args loaded selected instantiated
  execute-start h meta built e inst w known chosen made =
      ap (λ r. loaded S L Z call r h) known
      ∙ ap (λ r. selected S L Z call meta r h.store h.world) chosen
      ∙ ap (instantiated S L Z call e (meta_of S L Z call.instance_id e meta) h.store) made

  -- An execution whose metadata, module and instance are found, and whose `_start` is not the
  -- entrypoint and exits with 0, calls the entrypoint on the machine that `_start` left, but with
  -- exactly the memory that the stored snapshot and deltas stand for, and with page hashes that
  -- agree with it: if the instance's memory after `_start` is whole pages and no more than the
  -- snapshot, and the pages of the stored memory are within the limit.
  pub execute-resumes :
      (h : Host S L Z) (meta : Option InstanceMeta) (built : Z.Compiled) (e : Engine Z.Compiled)
      (inst : Instance S L W) (w : W) (m : Machine S L W)
      (start_func : List ℕ → Machine S L W → CallEnd × Machine S L W) (reason bytes : Bytes)
      → S.load_metadata call.instance_id h.store ≡ ok meta
      → select_module S L Z meta h.engine h.store ≡ (ok built, e)
      → Z.instantiate_module built (str "main-" ++ call.instance_id) h.world ≡ (ok inst, w)
      → (call.entrypoint == str "_start") ≡ false
      → inst.exported (str "_start") ≡ some start_func
      → start_func [] (launched e meta inst h.store w) ≡ (stopped (some 0) reason, m)
      → IsResumable S rel L lin (fresh_hashes S L Z m) bytes
      → (mem : L.Mem) × (hashes : Map ℕ ℕ) × (contents mem ≡ bytes)
        × IsSynced hashes bytes
        × (execute_with_args S L Z call h
            ≡ call_entrypoint S L Z call e (inst.exported call.entrypoint) (record m {
              memory = mem;
              session = record m.session { page_hashes = hashes; hashes_made = true };
            }))
  unfolding after_restore
  execute-resumes h meta built e inst w m start_func reason bytes known chosen made other has exits
        resumable =
      let restored = restore_lem S rel L lin (fresh_hashes S L Z m) bytes resumable in
      (
        restored.memory,
        restored.hashes,
        restored.holds,
        restored.synced,
        execute-start h meta built e inst w known chosen made
            ∙ start-exits e inst (launched e meta inst h.store w) m start_func reason other has
                exits
            ∙ ap (after_restore S L Z call e inst) restored.result,
      )
