-- ===== src/Engine/Bpmn/KeptAlive.antt =====
-- What a call of RunBPMN does with an instance that an earlier call kept alive.
use durable_wasm.Base.{
  ◌≡◌, ◌∙◌, refl, ap, ℕ, true, false, Bytes, Option, none, some, str, List, [], lookup, insert,
  lookup-insert, ==-refl, bytes_eq, nat_eq, if◌then◌else◌, Map,
}
use durable_wasm.Types.{Error, ok, err, InstanceMeta}
use durable_wasm.Store.{SnapshotStore}
use durable_wasm.Linear.{LinearMemory}
use durable_wasm.Session.{Session, Outcome, returns, fails, Machine}
use durable_wasm.Context.{is_keep_alive}
use durable_wasm.Engine.Restore.{restore}
use durable_wasm.Engine.Execute.{CallEnd, stopped, Instance, Wazero, Engine, select_module, meta_of}
use durable_wasm.Engine.Exchange.{BpmnCall, Answer, Ended, exchange, after_restore}
use durable_wasm.Engine.Bpmn.{
  module_name, Host, session_for, reused_session, kept, cleanup, restored, after_start, start,
  instantiated, find_instance, selected, loaded, run_bpmn,
}

lookup-insert_same :
    {V : Type 0} (k : Bytes) (v : V) (m : Map Bytes V) → lookup k (insert k v m) ≡ some v
lookup-insert_same k v m =
    lookup-insert k k v m ∙ ap (λ b. if b then some v else lookup k m) (==-refl k)

module _ (S : SnapshotStore) (L : LinearMemory) {W : Type 0} (Z : Wazero S L W) where
  -- An instance that is alive: its session and its module.
  pub record IsAlive (instance_id : Bytes) (session : Session W) (inst : Instance S L W)
      (h : Host S L Z) : Type 0 where
    pub has_session : lookup instance_id h.active_sessions ≡ some session
    pub has_module : lookup (module_name instance_id) h.modules ≡ some inst

  -- The machine on which the exchange with an instance that is alive begins.
  abbrev pub continued : BpmnCall W → InstanceMeta → Session W → L.Mem → S.State → W → Machine S L W
  continued call meta session memory store world = record {
    session = reused_session call meta session;
    store = store;
    memory = memory;
    world = world;
  }

  -- The call on an instance that is alive, without a start and a restoration.
  abbrev pub resumes_alive :
      BpmnCall W
      → Engine Z.Compiled
      → InstanceMeta
      → Session W
      → Instance S L W
      → Host S L Z
      → Outcome Answer × Host S L Z
  resumes_alive call e meta session inst h =
      cleanup S L Z call inst
        (exchange S L call inst (continued call meta session inst.memory h.store h.world))
        (record h {
          engine = e;
          active_sessions =
              insert call.instance_id (reused_session call meta session) h.active_sessions;
        })

  run_bpmn-alive :
      (call : BpmnCall W) (h : Host S L Z) (meta : Option InstanceMeta) (built : Z.Compiled)
      (e : Engine Z.Compiled) (session : Session W) (inst : Instance S L W)
      → S.load_metadata call.instance_id h.store ≡ ok meta
      → select_module S L Z meta h.engine h.store ≡ (ok built, e)
      → IsAlive call.instance_id session inst h
      → run_bpmn S L Z call h
        ≡ resumes_alive call e (meta_of S L Z call.instance_id e meta) session inst h
  unfolding run_bpmn loaded selected find_instance session_for
  run_bpmn-alive call h meta built e session inst known chosen alive =
      rw (known, loaded, chosen, alive.has_session, alive.has_module) refl

  cleanup-kept :
      (call : BpmnCall W) (inst : Instance S L W) (end : Ended S L W) (h : Host S L Z)
      → is_keep_alive call.ctx ≡ true
      → end.err_set ≡ false
      → end.machine.session.crashed ≡ false
      → cleanup S L Z call inst end h
        ≡ (end.outcome, kept S L Z call.instance_id inst end.machine h)
  unfolding cleanup
  cleanup-kept call inst end h keep no_err alive = rw (keep, no_err, alive) refl

  kept-IsAlive :
      (instance_id : Bytes) (inst : Instance S L W) (m : Machine S L W) (h : Host S L Z)
      → IsAlive instance_id m.session
          (record inst { memory = m.memory })
          (kept S L Z instance_id inst m h)
  unfolding kept
  kept-IsAlive instance_id inst m h = record {
    has_session = lookup-insert_same instance_id m.session h.active_sessions;
    has_module =
        lookup-insert_same (module_name instance_id) (record inst { memory = m.memory }) h.modules;
  }

  -- Two calls, of which the first keeps what it has come to.
  next-call :
      (first second : BpmnCall W) (inst : Instance S L W) (end : Ended S L W) (h : Host S L Z)
      (meta : Option InstanceMeta) (built : Z.Compiled) (e : Engine Z.Compiled)
      → first.instance_id ≡ second.instance_id
      → is_keep_alive first.ctx ≡ true
      → end.err_set ≡ false
      → end.machine.session.crashed ≡ false
      → S.load_metadata second.instance_id end.machine.store ≡ ok meta
      → select_module S L Z meta h.engine end.machine.store ≡ (ok built, e)
      → run_bpmn S L Z second (cleanup S L Z first inst end h).1
        ≡ resumes_alive second e
            (meta_of S L Z second.instance_id e meta)
            end.machine.session
            (record inst { memory = end.machine.memory })
            (kept S L Z second.instance_id inst end.machine h)
  unfolding kept
  next-call first second inst end h meta built e same keep no_err alive known chosen =
      ap (λ r. run_bpmn S L Z second r.1) (cleanup-kept first inst end h keep no_err alive)
      ∙ ap (λ (id : Bytes). run_bpmn S L Z second (kept S L Z id inst end.machine h)) same
      ∙ run_bpmn-alive second (kept S L Z second.instance_id inst end.machine h) meta built e
          end.machine.session (record inst { memory = end.machine.memory }) known chosen
          (kept-IsAlive second.instance_id inst end.machine h)

  -- After a call of RunBPMN with keep-alive on an instance that is alive, which ends with no error
  -- from the guest and without a crash, the next call takes the session and the memory that the
  -- first one left, and neither starts nor restores the module.
  pub run_bpmn-continues :
      (first second : BpmnCall W) (h : Host S L Z) (meta meta' : Option InstanceMeta)
      (built built' : Z.Compiled) (e e' : Engine Z.Compiled) (session : Session W)
      (inst : Instance S L W)
      → first.instance_id ≡ second.instance_id
      → is_keep_alive first.ctx ≡ true
      → S.load_metadata first.instance_id h.store ≡ ok meta
      → select_module S L Z meta h.engine h.store ≡ (ok built, e)
      → IsAlive first.instance_id session inst h
      → let end = exchange S L first inst (
          continued first
            (meta_of S L Z first.instance_id e meta)
            session
            inst.memory
            h.store
            h.world) in
        let m = end.machine in
        end.err_set ≡ false
        → m.session.crashed ≡ false
        → S.load_metadata second.instance_id m.store ≡ ok meta'
        → select_module S L Z meta' e m.store ≡ (ok built', e')
        → ((run_bpmn S L Z first h).0 ≡ end.outcome)
          × ((run_bpmn S L Z second (run_bpmn S L Z first h).1).0
              ≡ (exchange S L second
                  (record inst { memory = m.memory })
                  (continued second
                    (meta_of S L Z second.instance_id e' meta')
                    m.session
                    m.memory
                    m.store
                    m.world)).outcome)
  unfolding cleanup kept
  run_bpmn-continues first second h meta meta' built built' e e' session inst same keep known chosen
        alive no_err uncrashed known' chosen' =
      let ran = run_bpmn-alive first h meta built e session inst known chosen alive in
      let end = exchange S L first inst (
        continued first (meta_of S L Z first.instance_id e meta) session inst.memory h.store
          h.world) in
      let h' = record h {
        engine = e;
        active_sessions =
            insert first.instance_id
              (reused_session first (meta_of S L Z first.instance_id e meta) session)
              h.active_sessions;
      } in
      (
        ap (λ r. r.0) ran,
        ap (λ r. (run_bpmn S L Z second r.1).0) ran
            ∙ ap (λ r. r.0)
                (next-call first second inst end h' meta' built' e' same keep no_err uncrashed
                  known' chosen'),
      )

  -- A new instance whose start exits with 0.
  run_bpmn-starts :
      (call : BpmnCall W) (h : Host S L Z) (meta : Option InstanceMeta) (built : Z.Compiled)
      (e : Engine Z.Compiled) (inst : Instance S L W) (w : W) (m : Machine S L W)
      (start_func : List ℕ → Machine S L W → CallEnd × Machine S L W) (reason : Bytes)
      → let session =
          session_for call e.wasm_hash
            (meta_of S L Z call.instance_id e meta)
            (lookup call.instance_id h.active_sessions) in
        S.load_metadata call.instance_id h.store ≡ ok meta
        → select_module S L Z meta h.engine h.store ≡ (ok built, e)
        → lookup (module_name call.instance_id) h.modules ≡ none
        → Z.instantiate_module built (module_name call.instance_id) h.world ≡ (ok inst, w)
        → inst.exported (str "_start") ≡ some start_func
        → start_func []
            (record { session = session; store = h.store; memory = inst.memory; world = w })
          ≡ (stopped (some 0) reason, m)
        → run_bpmn S L Z call h
          ≡ cleanup S L Z call inst (after_restore S L call inst (restore S L m)) (record h {
            engine = e;
            active_sessions = insert call.instance_id session h.active_sessions;
          })
  unfolding run_bpmn loaded selected find_instance instantiated start after_start restored nat_eq
  run_bpmn-starts call h meta built e inst w m start_func reason known chosen absent made has
        exits =
      rw (known, loaded, chosen, absent, made, instantiated, has, exits) refl

  -- A call of RunBPMN with keep-alive whose restoration fails gives the error, but leaves the module
  -- alive: the next call gives what the guest answers on the memory that the failed restoration
  -- left, without another restoration. The start of the module exits with 0, and the session has not
  -- crashed.
  pub unrestored-reused :
      (first second : BpmnCall W) (h : Host S L Z) (meta meta' : Option InstanceMeta)
      (built built' : Z.Compiled) (e e' : Engine Z.Compiled) (inst : Instance S L W) (w : W)
      (started m : Machine S L W) (start_func : List ℕ → Machine S L W → CallEnd × Machine S L W)
      (reason : Bytes) (failure : Error)
      → let session =
          session_for first e.wasm_hash
            (meta_of S L Z first.instance_id e meta)
            (lookup first.instance_id h.active_sessions) in
        first.instance_id ≡ second.instance_id
        → is_keep_alive first.ctx ≡ true
        → S.load_metadata first.instance_id h.store ≡ ok meta
        → select_module S L Z meta h.engine h.store ≡ (ok built, e)
        → lookup (module_name first.instance_id) h.modules ≡ none
        → Z.instantiate_module built (module_name first.instance_id) h.world ≡ (ok inst, w)
        → inst.exported (str "_start") ≡ some start_func
        → start_func []
            (record { session = session; store = h.store; memory = inst.memory; world = w })
          ≡ (stopped (some 0) reason, started)
        → restore S L started ≡ (fails failure, m)
        → m.session.crashed ≡ false
        → S.load_metadata second.instance_id m.store ≡ ok meta'
        → select_module S L Z meta' e m.store ≡ (ok built', e')
        → ((run_bpmn S L Z first h).0 ≡ returns (false, err failure))
          × ((run_bpmn S L Z second (run_bpmn S L Z first h).1).0
              ≡ (exchange S L second
                  (record inst { memory = m.memory })
                  (continued second
                    (meta_of S L Z second.instance_id e' meta')
                    m.session
                    m.memory
                    m.store
                    m.world)).outcome)
  unfolding cleanup kept after_restore
  unrestored-reused first second h meta meta' built built' e e' inst w started m start_func reason
        failure same keep known chosen absent made has exits fallen uncrashed known' chosen' =
      let session =
        session_for first e.wasm_hash (meta_of S L Z first.instance_id e meta)
          (lookup first.instance_id h.active_sessions) in
      let h' = record h {
        engine = e;
        active_sessions = insert first.instance_id session h.active_sessions;
      } in
      let end : Ended S L W = record {
        outcome = returns (false, err failure);
        err_set = false;
        machine = m;
      } in
      let ran : run_bpmn S L Z first h ≡ cleanup S L Z first inst end h' =
        run_bpmn-starts first h meta built e inst w started start_func reason known chosen absent
          made has exits
        ∙ ap (λ r. cleanup S L Z first inst (after_restore S L first inst r) h') fallen in
      (
        ap (λ r. r.0) ran,
        ap (λ r. (run_bpmn S L Z second r.1).0) ran
            ∙ ap (λ r. r.0)
                (next-call first second inst end h' meta' built' e' same keep refl uncrashed known'
                  chosen'),
      )
