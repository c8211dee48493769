-- ===== src/Guest/Upload.antt =====
-- A guest that writes the upload stream, a buffer at a time, and closes it.
use durable_wasm.Base.{
  ℕ, zero, suc, ◌+◌, ◌^◌, ◌<◌, ◌≤◌, ◌≡◌, ◌∙◌, sym, refl, ap, arith, false, Bytes, Option, none,
  some, List, [], ◌∷◌, ◌++◌, map, nat_eq, length, take, drop, pos, ==-refl, to_int32-eq,
}
use mathlib.Core.List.{append-nil, append_assoc}
use durable_wasm.Types.{Error}
use durable_wasm.Store.{SnapshotStore}
use durable_wasm.Linear.{LinearMemory, IsLinear}
use durable_wasm.Session.{Session, returns, Machine}
use durable_wasm.Stream.{is_end, stream_data}
use durable_wasm.Stream.Upload.{handle_upload-chunk, handle_upload-flush}
use durable_wasm.Guest.{Writing, written, same_int, upload_writing, stream_write, stream_close}

-- A buffer that the guest writes: its address, its length, and the memory it stands in.
pub record Buffer (L : LinearMemory) : Type 0 where
  pub mem : L.Mem
  pub ptr : ℕ
  pub size : ℕ

module _ (S : SnapshotStore) (L : LinearMemory) {W : Type 0} where
  -- The guest fills its memory and writes the buffer, once for each; the results are kept.
  unfoldable pub write_stream : List (Buffer L) → Machine S L W → List Writing × Machine S L W
  write_stream [] m = ([], m)
  write_stream (buffer ∷ buffers) m =
      let r = stream_write S L buffer.ptr buffer.size (record m { memory = buffer.mem }) in
      let rest = write_stream buffers r.1 in (r.0 ∷ rest.0, rest.1)

module _ (L : LinearMemory) (lin : IsLinear L) where
  open lin use {contents}

  abbrev bytes_of : Buffer L → Bytes
  bytes_of buffer = take buffer.size (drop buffer.ptr (contents buffer.mem))

  unfoldable pub payload : List (Buffer L) → Bytes
  payload [] = []
  payload (buffer ∷ buffers) = bytes_of buffer ++ payload buffers

  -- The buffer lies in the memory, below 2 GiB.
  abbrev IsInside : Buffer L → Type 0
  IsInside buffer =
      (buffer.ptr + buffer.size ≤ length (contents buffer.mem))
      × (buffer.ptr + buffer.size < 2 ^ 31)

  abbrev pub AllInside : List (Buffer L) → Type 0
  AllInside [] = Unit
  AllInside (buffer ∷ buffers) = IsInside buffer × AllInside buffers

-- The bytes are appended to what the session keeps for the upload handler.
abbrev with_upload :
    {S : SnapshotStore} {L : LinearMemory} {W : Type 0} → Machine S L W → Bytes → Machine S L W
with_upload m bytes = record m {
  session = record m.session { upload_buffer = m.session.upload_buffer ++ bytes };
}

-- A host that says it took all bytes is believed.
upload_writing-all : (n : ℕ) → n < 2 ^ 31 → upload_writing n (returns (pos n)) ≡ written n
upload_writing-all n small = rw (to_int32-eq n small, same_int, ==-refl n) refl

module _ (S : SnapshotStore) (L : LinearMemory) (lin : IsLinear L) {W : Type 0} where
  open lin use {contents}

  pub write-appends :
      (ptr size : ℕ) (m : Machine S L W)
      → ptr + size ≤ length (contents m.memory)
      → ptr + size < 2 ^ 31
      → stream_write S L ptr size m
        ≡ (written size, with_upload m (take size (drop ptr (contents m.memory))))
  unfolding stream_write stream_data nat_eq
  write-appends ptr zero m inside low =
      ap
        (λ (bytes : Bytes).
          (written 0, record m { session = record m.session { upload_buffer = bytes } }))
        (sym (append-nil m.session.upload_buffer))
  write-appends ptr (suc n) m inside low =
      rw
        (
          to_int32-eq ptr (omega arith),
          to_int32-eq (suc n) (omega arith),
          handle_upload-chunk S L lin ptr n m inside low,
          upload_writing-all (suc n) (omega arith),
        )
        (ground arith)

  -- What the host has collected after the writes, and the guest's results.
  write_stream-collects :
      (buffers : List (Buffer L)) (m : Machine S L W)
      → AllInside L lin buffers
      → ((write_stream S L buffers m).0 ≡ map (λ buffer. written buffer.size) buffers)
        × ((write_stream S L buffers m).1.session ≡ (with_upload m (payload L lin buffers)).session)
        × ((write_stream S L buffers m).1.world ≡ m.world)
  unfolding write_stream payload
  write_stream-collects [] m all = (
    refl,
    ap (λ (bytes : Bytes). record m.session { upload_buffer = bytes })
        (sym (append-nil m.session.upload_buffer)),
    refl,
  )
  write_stream-collects (buffer ∷ buffers) m ((inside, low), all) =
      let bytes = bytes_of L lin buffer in
      let m' : Machine S L W = record m { memory = buffer.mem } in
      let (results, session, world) = write_stream-collects buffers (with_upload m' bytes) all in
      rw (write-appends buffer.ptr buffer.size m' inside low) (
        ap (λ rest. written buffer.size ∷ rest) results,
        session
            ∙ ap (λ (all : Bytes). record m.session { upload_buffer = all })
                (append_assoc m.session.upload_buffer bytes (payload L lin buffers)),
        world,
      )

  -- A guest that writes buffers that lie in its memory, below 2 GiB, one by one and closes the
  -- stream has the upload handler run on the bytes of all buffers in order, and every write is
  -- complete, if the session held no upload before and the buffers are not all empty. After it the
  -- session can upload and download anew, also where the handler failed.
  pub upload-payload :
      (buffers : List (Buffer L)) (m : Machine S L W) (handler : Bytes → W → Option Error × W)
      → AllInside L lin buffers
      → m.session.upload_buffer ≡ []
      → m.session.upload_handler ≡ some handler
      → is_end (payload L lin buffers) ≡ false
      → let r = write_stream S L buffers m in
        (r.0 ≡ map (λ buffer. written buffer.size) buffers)
        × ((stream_close S L r.1).world ≡ (handler (payload L lin buffers) m.world).1)
        × ((stream_close S L r.1).session
            ≡ record m.session { upload_buffer = []; download_reader = none; download_eof = false })
  unfolding stream_close stream_data
  upload-payload buffers m handler all empty has more =
      let (results, session, world) = write_stream-collects buffers m all in
      let m' = (write_stream S L buffers m).1 in
      let collected : m'.session.upload_buffer ≡ payload L lin buffers =
        ap (λ (s : Session W). s.upload_buffer) session
        ∙ ap (λ (bytes : Bytes). bytes ++ payload L lin buffers) empty in
      let flushed =
        handle_upload-flush S L lin m' handler
          (ap (λ (s : Session W). s.upload_handler) session ∙ has) (ap is_end collected ∙ more) in
      (
        results,
        ap (λ (x : Machine S L W). x.world) flushed
            ∙ ap (λ bytes. (handler bytes m'.world).1) collected
            ∙ ap (λ w. (handler (payload L lin buffers) w).1) world,
        ap (λ (x : Machine S L W). x.session) flushed
            ∙ ap
                (λ (s : Session W). record s {
                  upload_buffer = [];
                  download_reader = none;
                  download_eof = false;
                })
                session,
      )
