-- ===== src/Tests/ExecuteTests.antt =====
-- An engine for the module "new", and an instance of the module "old".
use durable_wasm.Base.{
  ◌++◌, ℕ, ◌==◌, ==-eq, lookup-cons, Bool-cases, inl, inr, if◌then◌else◌, ◌∙◌, sym, ◌≡◌, refl, ap,
  arith, Bytes, none, some, str, [], ◌∷◌, nat_eq, bytes_eq, list_dec, lookup,
}
use durable_wasm.Types.{ok, InstanceMeta}
use durable_wasm.Store.Memory.{
  MemorySnapshotStore, new_memory_snapshot_store, save_metadata, may_write, load_wasm, save_wasm,
}
use durable_wasm.Store.Memory.Refines.{reliable_memory}
use durable_wasm.Engine.Checkpoint.{checkpoint}
use durable_wasm.Engine.Execute.{Wazero, Engine, select_module}
use durable_wasm.Engine.Execute.Versions.{IsSound, Pinned, select_module-Pinned}
use durable_wasm.Engine.Execute.Migrated.{checkpoint-migrates}
use durable_wasm.Engine.Construct.{new_engine_with_bytes, new_engine_with_bytes-IsSound}
use durable_wasm.Tests.ByteMemory.{byte_memory, linear_bytes}
use durable_wasm.Tests.Setup.{plain_json, store, id, meta_at, small}

-- A module is its bytes, and exports nothing.
abbrev runtime : Wazero store byte_memory ℕ
runtime = record {
  Compiled = Bytes;
  compile_module = λ bytes. ok bytes;
  instantiate_module = λ compiled name w. (ok (record { memory = []; exported = λ name. none }), w);
}

abbrev engine : Engine Bytes
engine = record {
  compiled = str "new";
  wasm_hash = str "h2";
  compiled_cache = (str "h2", str "new") ∷ [];
}

abbrev registry : MemorySnapshotStore
registry = record new_memory_snapshot_store {
  wasm = (str "h1", str "old") ∷ ((str "h2", str "new") ∷ []);
}

engine-IsSound : IsSound store byte_memory runtime engine registry
unfolding load_wasm new_memory_snapshot_store lookup bytes_eq list_dec nat_eq
engine-IsSound = record {
  own = (str "new", refl, refl);
  cached = λ hash built at.
      let there = sym (lookup-cons hash (str "h2") (str "new") []) ∙ at in
      elim (Bool-cases (hash == str "h2")) [
        | inl same ↦
            let at_hash : hash ≡ str "h2" = ==-eq hash (str "h2") same in
            let is_built : built ≡ str "new" =
              cc (there, ap (λ b. if b then some (str "new") else none) same) in
            rw (at_hash, is_built) (str "new", refl, refl)
        | inr other ↦ absurd (cc (there, ap (λ b. if b then some (str "new") else none) other))
      ];
}

select_module-Pinned_example :
    Pinned store byte_memory runtime registry
      (str "h1")
      (select_module store byte_memory runtime (some (meta_at 0)) engine registry)
select_module-Pinned_example =
    select_module-Pinned store byte_memory runtime (meta_at 0) engine registry engine-IsSound

checkpoint-migrates_example :
    let s = (checkpoint store byte_memory small).1.store in
    (meta : InstanceMeta) × (store.load_metadata id s ≡ ok (some meta))
    × (select_module store byte_memory runtime (some meta) engine s ≡ (ok (str "new"), engine))
unfolding linear_bytes save_metadata may_write new_memory_snapshot_store lookup nat_eq
checkpoint-migrates_example =
    checkpoint-migrates store (reliable_memory plain_json) byte_memory linear_bytes runtime engine
      small refl refl refl (omega arith)

-- The hash of a module is its bytes after a mark.
abbrev mark : Bytes → Bytes
mark bytes = str "h:" ++ bytes

abbrev made_engine : Engine Bytes
made_engine = record {
  compiled = str "wasm";
  wasm_hash = str "h:wasm";
  compiled_cache = (str "h:wasm", str "wasm") ∷ [];
}

new_engine_with_bytes-IsSound_example :
    IsSound store byte_memory runtime made_engine
      (new_engine_with_bytes store byte_memory runtime mark none none
        (str "wasm")
        new_memory_snapshot_store).1
unfolding new_engine_with_bytes save_wasm
new_engine_with_bytes-IsSound_example =
    new_engine_with_bytes-IsSound store byte_memory runtime mark none none
      (reliable_memory plain_json) (str "wasm") new_memory_snapshot_store made_engine refl
