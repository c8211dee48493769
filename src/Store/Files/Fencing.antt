-- ===== src/Store/Files/Fencing.antt =====
-- SaveMetadata of fs_store.go against a session with metadata of the same version.
use durable_wasm.Base.{
  ℕ, ◌+◌, ◌≡◌, ◌∙◌, sym, ap, arith, Bool, true, false, ◌&&◌, not, Bytes, ◌==◌, nat_eq,
  if◌then◌else◌,
}
use durable_wasm.Types.{Result, ok, InstanceMeta}
use durable_wasm.Store.Codec.{Formats, IsLossless, and_then-ok}
use durable_wasm.Store.Files.{
  FileRead, found, not_exist, unreadable, FileSystem, meta_path, make_dir, write_meta,
  stored_version, swap_meta, save_metadata,
}
use durable_wasm.Store.Files.RoundTrip.{KeepsFiles, read-write_encoded, read-make_dir}

module _ (F : FileSystem) (keeps : KeepsFiles F) (J : Formats) (dir : Bytes)
    (lossless : IsLossless J.meta) where
  -- A swap that wins leaves a file with the next version.
  abbrev Leaves : InstanceMeta → Result Bool × InstanceMeta × F.Files → Type 0
  Leaves meta r =
      r.0 ≡ ok true
      → (bytes : Bytes) × (F.read_file (meta_path dir meta.instance_id) r.2 ≡ found bytes)
        × (stored_version F J dir (J.meta.decode bytes) ≡ meta.version + 1)

  write_meta-Leaves : (meta : InstanceMeta) (s : F.Files) → Leaves meta (write_meta F J dir meta s)
  unfolding write_meta stored_version
  write_meta-Leaves meta s won =
      let next = record meta { version = meta.version + 1 } in
      let (u, done, _) = and_then-ok _ _ true won in
      let (bytes, encoded, there) =
        read-write_encoded F keeps (meta_path dir meta.instance_id) (J.meta.encode next) s done in
      (bytes, there, ap (stored_version F J dir) (lossless next bytes encoded))

  if-Leaves :
      (allowed : Bool) (meta : InstanceMeta) (s : F.Files)
      → Leaves meta (if allowed then write_meta F J dir meta s else (ok false, meta, s))
  if-Leaves true meta s won = write_meta-Leaves meta s won
  if-Leaves false meta s won = absurd (cc won)

  swap_meta-Leaves :
      (meta : InstanceMeta) (r : FileRead) (s : F.Files) → Leaves meta (swap_meta F J dir meta r s)
  unfolding swap_meta
  swap_meta-Leaves meta (found bytes) s won =
      if-Leaves
        (not (meta.version == 0) && stored_version F J dir (J.meta.decode bytes) == meta.version)
        meta s won
  swap_meta-Leaves meta not_exist s won = if-Leaves (meta.version == 0) meta s won
  swap_meta-Leaves meta (unreadable e) s won = absurd (cc won)

  refused-swap :
      (meta : InstanceMeta) (r : FileRead) (bytes : Bytes) (s : F.Files)
      → r ≡ found bytes
      → stored_version F J dir (J.meta.decode bytes) ≡ meta.version + 1
      → swap_meta F J dir meta r s ≡ (ok false, meta, s)
  unfolding swap_meta nat_eq
  refused-swap meta r bytes s there next = rw there (ground (arith, next))

  -- Of two sessions on the file store that hold metadata of one instance in one version, once the
  -- first has won its swap, the second is refused, and its metadata stay as they are: over a file
  -- system that keeps what is written to it, and a lossless encoding of metadata.
  pub save_metadata_refused :
      (first second : InstanceMeta) (s : F.Files)
      → first.instance_id ≡ second.instance_id
      → first.version ≡ second.version
      → (save_metadata F J dir first s).0 ≡ ok true
      → let r = save_metadata F J dir second (save_metadata F J dir first s).2 in
        (r.0 ≡ ok false) × (r.1 ≡ second)
  unfolding save_metadata
  save_metadata_refused first second s same_id same_version won =
      let path = meta_path dir second.instance_id in
      let t = (save_metadata F J dir first s).2 in
      let (bytes, there, next) =
        swap_meta-Leaves first (F.read_file (meta_path dir first.instance_id) (make_dir F dir s))
          (make_dir F dir s) won in
      let there' : F.read_file path (make_dir F dir t) ≡ found bytes =
        read-make_dir F keeps dir path t
        ∙ ap (λ (id : Bytes). F.read_file (meta_path dir id) t) (sym same_id)
        ∙ there in
      let refused =
        refused-swap second (F.read_file path (make_dir F dir t)) bytes (make_dir F dir t) there'
          (next ∙ ap (λ (v : ℕ). v + 1) same_version) in
      (ap (λ x. x.0) refused, ap (λ x. x.1) refused)
