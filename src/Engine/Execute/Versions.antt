-- ===== src/Engine/Execute/Versions.antt =====
-- Which module an execution runs.
use durable_wasm.Base.{
  ◌≡◌, ◌∙◌, sym, refl, ap, Bool-cases, Option-cases, inl, inr, Bytes, none, some, ◌==◌, ==-eq,
  bytes_eq, lookup, lookup-insert, if◌then◌else◌,
}
use durable_wasm.Types.{Result, ok, err, InstanceMeta}
use durable_wasm.Store.{SnapshotStore}
use durable_wasm.Linear.{LinearMemory}
use durable_wasm.Engine.Execute.{
  Wazero, Engine, select_module, find_module, load_module, compile_loaded, add_compiled,
}

module _ (S : SnapshotStore) (L : LinearMemory) {W : Type 0} (Z : Wazero S L W) where
  -- The module that the bytes registered under the hash compile to.
  abbrev pub IsBuild : S.State → Bytes → Z.Compiled → Type 0
  IsBuild store hash built =
      (bytes : Bytes) × (S.load_wasm hash store ≡ ok bytes) × (Z.compile_module bytes ≡ ok built)

  -- The engine's own module and every module of its cache are those that the registry has under their
  -- hashes.
  pub record IsSound (e : Engine Z.Compiled) (store : S.State) : Type 0 where
    pub own : IsBuild store e.wasm_hash e.compiled
    pub cached :
        (hash : Bytes) (built : Z.Compiled)
        → lookup hash e.compiled_cache ≡ some built
        → IsBuild store hash built

  -- A result is the module of the hash, or an error, and the engine is sound after it.
  abbrev pub Pinned : S.State → Bytes → Result Z.Compiled × Engine Z.Compiled → Type 0
  Pinned store hash (err failure, e) = IsSound e store
  Pinned store hash (ok built, e) = IsBuild store hash built × IsSound e store

  add_compiled-Pinned :
      (store : S.State) (hash bytes : Bytes) (e : Engine Z.Compiled) (r : Result Z.Compiled)
      → IsSound e store
      → S.load_wasm hash store ≡ ok bytes
      → Z.compile_module bytes ≡ r
      → Pinned store hash (add_compiled S L Z hash e r)
  unfolding add_compiled
  add_compiled-Pinned store hash bytes e (err failure) sound registered compiled = sound
  add_compiled-Pinned store hash bytes e (ok built) sound registered compiled =
      let build : IsBuild store hash built = (bytes, registered, compiled) in
      (
        build,
        record {
          own = sound.own;
          cached = λ key found at.
              let there = sym (lookup-insert key hash built e.compiled_cache) ∙ at in
              elim (Bool-cases (key == hash)) [
                | inl same ↦
                    let at_hash : key ≡ hash = ==-eq key hash same in
                    let is_built : found ≡ built = cc (
                      there,
                      ap (λ b. if b then some built else lookup key e.compiled_cache) same,
                    ) in
                    rw (at_hash, is_built) build
                | inr other ↦ sound.cached key found (
                    sym (ap (λ b. if b then some built else lookup key e.compiled_cache) other)
                    ∙ there)
              ];
        },
      )

  load_module-Pinned :
      (store : S.State) (hash : Bytes) (e : Engine Z.Compiled) (r : Result Bytes)
      → IsSound e store
      → S.load_wasm hash store ≡ r
      → lookup hash e.compiled_cache ≡ none
      → Pinned store hash (load_module S L Z hash e r)
  unfolding load_module compile_loaded
  load_module-Pinned store hash e (err failure) sound registered absent = sound
  load_module-Pinned store hash e (ok bytes) sound registered absent =
      rw (Pinned, load_module, compile_loaded, absent)
        (add_compiled-Pinned store hash bytes e (Z.compile_module bytes) sound registered refl)

  find_module-Pinned :
      (store : S.State) (hash : Bytes) (e : Engine Z.Compiled)
      → IsSound e store
      → Pinned store hash (find_module S L Z hash e store)
  unfolding find_module
  find_module-Pinned store hash e sound = elim (Option-cases (lookup hash e.compiled_cache)) [
    | inl absent ↦
        rw (Pinned, find_module, absent)
          (load_module-Pinned store hash e (S.load_wasm hash store) sound refl absent)
    | inr (built, present) ↦
        rw (Pinned, find_module, present) (sound.cached hash built present, sound)
  ]

  -- With a cache in which every module is the one of the registry under its hash, an instance runs
  -- the module that the registry has under the hash of its metadata, whatever the engine was made
  -- for, or no module is selected; and the cache stays right.
  pub select_module-Pinned :
      (meta : InstanceMeta) (e : Engine Z.Compiled) (store : S.State)
      → IsSound e store
      → Pinned store meta.wasm_hash (select_module S L Z (some meta) e store)
  unfolding select_module
  select_module-Pinned meta e store sound = elim (Bool-cases (meta.wasm_hash == e.wasm_hash)) [
    | inl same ↦ rw (same, ==-eq meta.wasm_hash e.wasm_hash same) (sound.own, sound)
    | inr other ↦ rw other (find_module-Pinned store meta.wasm_hash e sound)
  ]
