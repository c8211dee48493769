-- ===== src/Engine/Execute/Writes.antt =====
-- What an execution writes to the store: what the guest's calls write, and nothing else.
use durable_wasm.Base.{
  ℕ, ◌≡◌, ◌∙◌, refl, Bool-cases, inl, inr, Bytes, str, Option, none, some, Option-cases, List, [],
  ◌==◌, bytes_eq,
}
use durable_wasm.Types.{Result, ok, err, InstanceMeta}
use durable_wasm.Store.{SnapshotStore}
use durable_wasm.Linear.{LinearMemory}
use durable_wasm.Session.{returns, fails, panics, Machine, Run}
use durable_wasm.Engine.Restore.{restore}
use durable_wasm.Engine.Restore.ReadsOnly.{store-restore}
use durable_wasm.Engine.Execute.{
  CallEnd, returned, stopped, Instance, Wazero, Engine, Call, Host, exits_well, meta_of,
  call_entrypoint, after_restore, fresh_hashes, after_start, start, instantiated, selected, loaded,
  execute_with_args,
}

module _ (S : SnapshotStore) (L : LinearMemory) {W : Type 0} (P : S.State → Type 0) where
  -- A call of any function of the instance, its host calls included, keeps P.
  abbrev GuestKeeps : Instance S L W → Type 0
  GuestKeeps inst =
      (name : Bytes) (f : List ℕ → Machine S L W → CallEnd × Machine S L W) (params : List ℕ)
      (m : Machine S L W)
      → inst.exported name ≡ some f
      → P m.store
      → P (f params m).1.store

  module _ (Z : Wazero S L W) (call : Call W) where
    -- Every instance that the runtime makes does so.
    abbrev GuestsKeep : Type 0
    GuestsKeep =
        (built : Z.Compiled) (name : Bytes) (w w' : W) (inst : Instance S L W)
        → Z.instantiate_module built name w ≡ (ok inst, w')
        → GuestKeeps inst

    call_entrypoint-keeps :
        (e : Engine Z.Compiled) (inst : Instance S L W) (name : Bytes)
        (run : Option (List ℕ → Machine S L W → CallEnd × Machine S L W)) (m : Machine S L W)
        → GuestKeeps inst
        → inst.exported name ≡ run
        → P m.store
        → P (call_entrypoint S L Z call e run m).1.store
    unfolding call_entrypoint
    call_entrypoint-keeps e inst name none m keeps found p = p
    call_entrypoint-keeps e inst name (some f) m keeps found p = keeps name f call.params m found p

    after_restore-keeps :
        (e : Engine Z.Compiled) (inst : Instance S L W) (r : Run S L W (Unit {0}))
        → GuestKeeps inst
        → P r.1.store
        → P (after_restore S L Z call e inst r).1.store
    unfolding after_restore
    after_restore-keeps e inst (fails failure, m) keeps p = p
    after_restore-keeps e inst (panics reason, m) keeps p = p
    after_restore-keeps e inst (returns _, m) keeps p =
        call_entrypoint-keeps e inst call.entrypoint (inst.exported call.entrypoint) m keeps refl p

    restored-keeps :
        (e : Engine Z.Compiled) (inst : Instance S L W) (m : Machine S L W)
        → GuestKeeps inst
        → P m.store
        → P (after_restore S L Z call e inst (restore S L (fresh_hashes S L Z m))).1.store
    restored-keeps e inst m keeps p =
        after_restore-keeps e inst _ keeps (rw (store-restore S L (fresh_hashes S L Z m)) p)

    after_start-keeps :
        (e : Engine Z.Compiled) (inst : Instance S L W) (r : CallEnd × Machine S L W)
        → GuestKeeps inst
        → P r.1.store
        → P (after_start S L Z call e inst r).1.store
    unfolding after_start
    after_start-keeps e inst (returned results, m) keeps p = restored-keeps e inst m keeps p
    after_start-keeps e inst (stopped exit reason, m) keeps p =
        elim (Bool-cases (exits_well exit)) [
          | inl well ↦ rw well (restored-keeps e inst m keeps p)
          | inr failed ↦ rw failed p
        ]

    start-keeps :
        (e : Engine Z.Compiled) (inst : Instance S L W) (m : Machine S L W)
        → GuestKeeps inst
        → P m.store
        → P (start S L Z call e inst m).1.store
    unfolding start
    start-keeps e inst m keeps p = elim (Bool-cases (call.entrypoint == str "_start")) [
      | inl same ↦ rw same (restored-keeps e inst m keeps p)
      | inr other ↦ elim (Option-cases (inst.exported (str "_start"))) [
        | inl missing ↦ rw (other, missing) (restored-keeps e inst m keeps p)
        | inr (f, found) ↦
            rw (other, found)
              (after_start-keeps e inst (f [] m) keeps (keeps (str "_start") f [] m found p))
      ]
    ]

    instantiated-keeps :
        (e : Engine Z.Compiled) (meta : InstanceMeta) (store : S.State)
        (r : Result (Instance S L W) × W)
        → ((inst : Instance S L W) (w : W) → r ≡ (ok inst, w) → GuestKeeps inst)
        → P store
        → P (instantiated S L Z call e meta store r).1.store
    unfolding instantiated
    instantiated-keeps e meta store (err failure, w) keeps p = p
    instantiated-keeps e meta store (ok inst, w) keeps p =
        start-keeps e inst _ (keeps inst w refl) p

    selected-keeps :
        (meta : Option InstanceMeta) (r : Result Z.Compiled × Engine Z.Compiled) (store : S.State)
        (w : W)
        → GuestsKeep
        → P store
        → P (selected S L Z call meta r store w).1.store
    unfolding selected
    selected-keeps meta (err failure, e) store w keep p = p
    selected-keeps meta (ok built, e) store w keep p =
        instantiated-keeps e (meta_of S L Z call.instance_id e meta) store _
          (λ inst w' made. keep built _ w w' inst made) p

    loaded-keeps :
        (r : Result (Option InstanceMeta)) (h : Host S L Z)
        → GuestsKeep
        → P h.store
        → P (loaded S L Z call r h).1.store
    unfolding loaded
    loaded-keeps (err failure) h keep p = p
    loaded-keeps (ok meta) h keep p = selected-keeps meta _ h.store h.world keep p

    -- An execution keeps what the guest's calls keep.
    execute-keeps :
        (h : Host S L Z) → GuestsKeep → P h.store → P (execute_with_args S L Z call h).1.store
    unfolding execute_with_args
    execute-keeps h keep p = loaded-keeps (S.load_metadata call.instance_id h.store) h keep p

module _ (S : SnapshotStore) (L : LinearMemory) {W A : Type 0} (part : S.State → A) where
  -- No call of a function of any instance that the runtime makes changes this part of the store.
  abbrev pub GuestsLeave : Wazero S L W → Type 0
  GuestsLeave Z =
      (built : Z.Compiled) (instance_name name : Bytes) (w w' : W) (inst : Instance S L W)
      (f : List ℕ → Machine S L W → CallEnd × Machine S L W) (params : List ℕ) (m : Machine S L W)
      → Z.instantiate_module built instance_name w ≡ (ok inst, w')
      → inst.exported name ≡ some f
      → part (f params m).1.store ≡ part m.store

  -- An execution itself writes nothing to the store: any part of the store that no call of a guest's
  -- function changes, its host calls included, is after the execution what it was before, however
  -- the execution ends (with a module that is not found, a failed instantiation, `_start` or
  -- restoration, a panic of the engine, or the result of the entrypoint).
  pub execute-unchanged :
      (Z : Wazero S L W) (call : Call W) (h : Host S L Z)
      → GuestsLeave Z
      → part (execute_with_args S L Z call h).1.store ≡ part h.store
  execute-unchanged Z call h leave =
      execute-keeps S L (λ s. part s ≡ part h.store) Z call h
        (λ built instance_name w w' inst made name f params m found kept.
          leave built instance_name name w w' inst f params m made found ∙ kept)
        refl
