-- ===== src/Engine/Construct.antt =====
-- wasman.go: NewEngine and NewEngineWithBytes. `sha256` is the hexadecimal hash of the bytes, and
-- `wasi` and `env` the registration of the host modules with the runtime, which gives an error or none.
-- No option of NewEngine is declared, so none is applied.
use durable_wasm.Base.{
  ◌≡◌, ◌∙◌, sym, refl, ap, Bool-cases, inl, inr, Bytes, Option, none, some, [], ◌∷◌, lookup,
  lookup-cons, ◌==◌, ==-eq, ==-refl, bytes_eq, if◌then◌else◌,
}
use durable_wasm.Types.{Error, wrapped, Result, ok, err}
use durable_wasm.Store.{SnapshotStore}
use durable_wasm.Store.View.{View}
use durable_wasm.Store.Contract.{IsReliable, Loads-some}
use durable_wasm.Linear.{LinearMemory}
use durable_wasm.Engine.Execute.{Wazero, Engine}
use durable_wasm.Engine.Execute.Versions.{IsSound}

empty-lookup : {A : Type 0} (key : Bytes) (a : A) → lookup key [] ≡ some a → ⊥
unfolding lookup
empty-lookup key a h = cc h

module _ (S : SnapshotStore) (L : LinearMemory) {W : Type 0} (Z : Wazero S L W)
    (sha256 : Bytes → Bytes) (wasi env : Option Error) where
  abbrev fresh_engine : Bytes → Z.Compiled → Engine Z.Compiled
  fresh_engine hash built = record {
    compiled = built;
    wasm_hash = hash;
    compiled_cache = (hash, built) ∷ [];
  }

  -- The host modules, and the engine with its module in the cache.
  with_hosts : Option Error → Option Error → Bytes → Z.Compiled → Result (Engine Z.Compiled)
  with_hosts (some e) _ hash built = err (wrapped "failed to instantiate WASI module" e)
  with_hosts none (some e) hash built = err (wrapped "failed to instantiate host module 'env'" e)
  with_hosts none none hash built = ok (fresh_engine hash built)

  with_compiled : Bytes → Result Z.Compiled → Result (Engine Z.Compiled)
  unfolding with_hosts
  with_compiled hash (err e) = err (wrapped "failed to compile WASM module" e)
  with_compiled hash (ok built) = with_hosts wasi env hash built

  after_save_wasm :
      Bytes → Bytes → Result (Unit {0}) × S.State → Result (Engine Z.Compiled) × S.State
  unfolding with_compiled
  after_save_wasm hash wasm_bytes (err e, s) =
      (err (wrapped "failed to save WASM module in registry" e), s)
  after_save_wasm hash wasm_bytes (ok _, s) = (with_compiled hash (Z.compile_module wasm_bytes), s)

  unfoldable pub new_engine_with_bytes : Bytes → S.State → Result (Engine Z.Compiled) × S.State
  unfolding after_save_wasm
  new_engine_with_bytes wasm_bytes s =
      let hash = sha256 wasm_bytes in
      after_save_wasm hash wasm_bytes (S.save_wasm hash wasm_bytes s)

  -- The file is read first.
  unfoldable pub new_engine : Result Bytes → S.State → Result (Engine Z.Compiled) × S.State
  unfolding new_engine_with_bytes
  new_engine (err e) s = (err (wrapped "failed to read WASM module file" e), s)
  new_engine (ok wasm_bytes) s = new_engine_with_bytes wasm_bytes s

  fresh_engine-IsSound :
      (hash bytes : Bytes) (s : S.State) (built : Z.Compiled)
      → S.load_wasm hash s ≡ ok bytes
      → Z.compile_module bytes ≡ ok built
      → IsSound S L Z (fresh_engine hash built) s
  fresh_engine-IsSound hash bytes s built registered compiled = record {
    own = (bytes, registered, compiled);
    cached = λ key entry at.
        let there = sym (lookup-cons key hash built []) ∙ at in
        elim (Bool-cases (key == hash)) [
          | inl same ↦
              let at_hash : key ≡ hash = ==-eq key hash same in
              let is_built : entry ≡ built =
                cc (there, ap (λ b. if b then some built else lookup key []) same) in
              rw (at_hash, is_built) (bytes, registered, compiled)
          | inr other ↦ absurd (
              empty-lookup key entry
                (sym (ap (λ b. if b then some built else lookup key []) other) ∙ there))
        ];
  }

  with_hosts-IsSound :
      (h k : Option Error) (hash bytes : Bytes) (s : S.State) (built : Z.Compiled)
      (e : Engine Z.Compiled)
      → S.load_wasm hash s ≡ ok bytes
      → Z.compile_module bytes ≡ ok built
      → with_hosts h k hash built ≡ ok e
      → IsSound S L Z e s
  unfolding with_hosts
  with_hosts-IsSound (some failure) k hash bytes s built e registered compiled made =
      absurd (cc made)
  with_hosts-IsSound none (some failure) hash bytes s built e registered compiled made =
      absurd (cc made)
  with_hosts-IsSound none none hash bytes s built e registered compiled made =
      let same : e ≡ fresh_engine hash built = cc made in
      rw same (fresh_engine-IsSound hash bytes s built registered compiled)

  with_compiled-IsSound :
      (hash bytes : Bytes) (s : S.State) (r : Result Z.Compiled) (e : Engine Z.Compiled)
      → S.load_wasm hash s ≡ ok bytes
      → Z.compile_module bytes ≡ r
      → with_compiled hash r ≡ ok e
      → IsSound S L Z e s
  unfolding with_compiled
  with_compiled-IsSound hash bytes s (err failure) e registered compiled made = absurd (cc made)
  with_compiled-IsSound hash bytes s (ok built) e registered compiled made =
      with_hosts-IsSound wasi env hash bytes s built e registered compiled made

  -- Over a store that meets its contract, an engine that is constructed is sound: its module, and
  -- every module in its cache, is the one that the store's registry then has under its hash.
  pub new_engine_with_bytes-IsSound :
      (rel : IsReliable S) (wasm_bytes : Bytes) (s : S.State) (e : Engine Z.Compiled)
      → (new_engine_with_bytes wasm_bytes s).0 ≡ ok e
      → IsSound S L Z e (new_engine_with_bytes wasm_bytes s).1
  unfolding new_engine_with_bytes after_save_wasm
  new_engine_with_bytes-IsSound rel wasm_bytes s e made =
      let hash = sha256 wasm_bytes in
      let saved = S.save_wasm hash wasm_bytes s in
      let (done, seen) = rel.save_wasm_writes hash wasm_bytes s in
      let there : (rel.view saved.1).wasm hash ≡ some wasm_bytes =
        ap (λ (v : View). v.wasm hash) seen ∙ rw (==-refl hash) refl in
      let registered : S.load_wasm hash saved.1 ≡ ok wasm_bytes =
        Loads-some there (rel.load_wasm_loads hash saved.1) in
      let whole : new_engine_with_bytes wasm_bytes s
          ≡ (with_compiled hash (Z.compile_module wasm_bytes), saved.1) =
        rw (done, after_save_wasm) refl in
      rw whole (
        with_compiled-IsSound hash wasm_bytes saved.1 (Z.compile_module wasm_bytes) e registered
          refl (sym (ap (λ x. x.0) whole) ∙ made))
