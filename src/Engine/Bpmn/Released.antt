-- ===== src/Engine/Bpmn/Released.antt =====
-- What RunBPMN leaves of an instance that is not to be kept alive.
use durable_wasm.Base.{
  ◌≡◌, ◌∙◌, refl, ap, true, false, ◌||◌, not, Bytes, Option, none, some, str, List, [], ℕ,
  Bool-cases, inl, inr, lookup, insert, delete, lookup-delete, ==-refl, bytes_eq, if◌then◌else◌,
  Map,
}
use durable_wasm.Types.{Result, ok, err, InstanceMeta}
use durable_wasm.Store.{SnapshotStore}
use durable_wasm.Linear.{LinearMemory}
use durable_wasm.Session.{Session, Machine}
use durable_wasm.Context.{is_keep_alive}
use durable_wasm.Engine.Restore.{restore}
use durable_wasm.Engine.Execute.{
  CallEnd, returned, stopped, Instance, Wazero, Engine, exits_well, select_module, meta_of,
}
use durable_wasm.Engine.Exchange.{BpmnCall, Ended, exchange, after_restore}
use durable_wasm.Engine.Bpmn.{
  module_name, Host, session_for, released, kept, cleanup, restored, after_start, start,
  instantiated, find_instance, selected, loaded, run_bpmn,
}

lookup-delete_same : {V : Type 0} (k : Bytes) (m : Map Bytes V) → lookup k (delete k m) ≡ none
lookup-delete_same k m = lookup-delete k k m ∙ ap (λ b. if b then none else lookup k m) (==-refl k)

module _ (S : SnapshotStore) (L : LinearMemory) {W : Type 0} (Z : Wazero S L W) where
  -- No session and no module instance is left.
  abbrev pub IsGone : Bytes → Host S L Z → Type 0
  IsGone instance_id h =
      (lookup instance_id h.active_sessions ≡ none)
      × (lookup (module_name instance_id) h.modules ≡ none)

  released-IsGone :
      (instance_id : Bytes) (h : Host S L Z) → IsGone instance_id (released S L Z instance_id h)
  unfolding released
  released-IsGone instance_id h = (
    lookup-delete_same instance_id h.active_sessions,
    lookup-delete_same (module_name instance_id) h.modules,
  )

  module _ (call : BpmnCall W) where
    -- A session that crashed, or a call of the guest that failed, ends the instance as well.
    cleanup-IsGone :
        (inst : Instance S L W) (end : Ended S L W) (h : Host S L Z)
        → (not (is_keep_alive call.ctx) || (end.err_set || end.machine.session.crashed)) ≡ true
        → IsGone call.instance_id (cleanup S L Z call inst end h).1
    unfolding cleanup
    cleanup-IsGone inst end h closes =
        rw closes
          (released-IsGone call.instance_id (kept S L Z call.instance_id inst end.machine h))

    module _ (short : is_keep_alive call.ctx ≡ false) where
      short-IsGone :
          (inst : Instance S L W) (end : Ended S L W) (h : Host S L Z)
          → IsGone call.instance_id (cleanup S L Z call inst end h).1
      short-IsGone inst end h =
          cleanup-IsGone inst end h
            (ap (λ b. not b || (end.err_set || end.machine.session.crashed)) short)

      restored-IsGone :
          (inst : Instance S L W) (m : Machine S L W) (h : Host S L Z)
          → IsGone call.instance_id (restored S L Z call inst m h).1
      unfolding restored
      restored-IsGone inst m h = short-IsGone inst (after_restore S L call inst (restore S L m)) h

      after_start-IsGone :
          (inst : Instance S L W) (r : CallEnd × Machine S L W) (h : Host S L Z)
          → IsGone call.instance_id (after_start S L Z call inst r h).1
      unfolding after_start
      after_start-IsGone inst (returned results, m) h = restored-IsGone inst m h
      after_start-IsGone inst (stopped exit reason, m) h = elim (Bool-cases (exits_well exit)) [
        | inl well ↦ rw well (restored-IsGone inst m h)
        | inr failed ↦
            rw failed
              (released-IsGone call.instance_id (record h { store = m.store; world = m.world }))
      ]

      start-IsGone :
          (inst : Instance S L W) (o : Option (List ℕ → Machine S L W → CallEnd × Machine S L W))
          (m : Machine S L W) (h : Host S L Z)
          → IsGone call.instance_id (start S L Z call inst o m h).1
      unfolding start
      start-IsGone inst none m h = restored-IsGone inst m h
      start-IsGone inst (some start_func) m h = after_start-IsGone inst (start_func [] m) h

      instantiated-IsGone :
          (session : Session W) (r : Result (Instance S L W) × W) (h : Host S L Z)
          → lookup (module_name call.instance_id) h.modules ≡ none
          → IsGone call.instance_id (instantiated S L Z call session r h).1
      unfolding instantiated
      instantiated-IsGone session (err failure, w) h absent =
          (lookup-delete_same call.instance_id h.active_sessions, absent)
      instantiated-IsGone session (ok inst, w) h absent =
          start-IsGone inst (inst.exported (str "_start"))
            (record { session = session; store = h.store; memory = inst.memory; world = w }) h

      find_instance-IsGone :
          (built : Z.Compiled) (session : Session W) (o : Option (Instance S L W)) (h : Host S L Z)
          → lookup (module_name call.instance_id) h.modules ≡ o
          → IsGone call.instance_id (find_instance S L Z call built session o h).1
      unfolding find_instance
      find_instance-IsGone built session none h absent =
          instantiated-IsGone session
            (Z.instantiate_module built (module_name call.instance_id) h.world) h absent
      find_instance-IsGone built session (some inst) h there =
          short-IsGone inst
            (exchange S L call inst (record {
              session = session;
              store = h.store;
              memory = inst.memory;
              world = h.world;
            }))
            h

      -- A call of RunBPMN without keep-alive leaves neither a session nor a module of its instance,
      -- however it ends (an error, a crash, a panic of the engine), once the metadata are loaded and
      -- the module is found.
      pub run_bpmn-IsGone :
          (h : Host S L Z) (meta : Option InstanceMeta) (built : Z.Compiled) (e : Engine Z.Compiled)
          → S.load_metadata call.instance_id h.store ≡ ok meta
          → select_module S L Z meta h.engine h.store ≡ (ok built, e)
          → IsGone call.instance_id (run_bpmn S L Z call h).1
      unfolding run_bpmn loaded selected
      run_bpmn-IsGone h meta built e known chosen =
          let session =
            session_for call e.wasm_hash (meta_of S L Z call.instance_id e meta)
              (lookup call.instance_id h.active_sessions) in
          rw (known, loaded, chosen)
            (find_instance-IsGone built session (lookup (module_name call.instance_id) h.modules)
              (record h {
                engine = e;
                active_sessions = insert call.instance_id session h.active_sessions;
              })
              refl)
