-- ===== src/Guest/Task/Answered.antt =====
-- RunTask from the download of the variables to the upload of what the handler made of them.
use durable_wasm.Base.{
  ℕ, ◌+◌, ◌^◌, ◌<◌, ◌≤◌, ◌≡◌, ◌∙◌, refl, ap, false, Bytes, Option, none, some, [], ◌∷◌, length,
  take, drop, pos,
}
use mathlib.Core.List.{append-nil}
use durable_wasm.Types.{Error, Result, ok}
use durable_wasm.Store.{SnapshotStore}
use durable_wasm.Linear.{LinearMemory, IsLinear}
use durable_wasm.Session.{returns, Machine}
use durable_wasm.Stream.{is_end}
use durable_wasm.Guest.{written, stream_write}
use durable_wasm.Guest.Upload.{Buffer, write_stream, payload, upload-payload}
use durable_wasm.Guest.Task.{
  TaskRuntime, decode_from, after_write, write_vars, after_handler, after_decode, run_task,
}
use durable_wasm.Guest.Task.Decoded.{IsWhole, HasRoom, decode_from-content}

module _ (L : LinearMemory) (lin : IsLinear L) (T : TaskRuntime L) where
  open lin use {contents}

  -- An allocated text stands in the memory, below 2 GiB.
  abbrev pub IsPlaced : Bytes → L.Mem → Type 0
  IsPlaced bytes mem =
      let (mem', ptr) = T.place bytes mem in
      (ptr + length bytes ≤ length (contents mem'))
      × (ptr + length bytes < 2 ^ 31)
      × (take (length bytes) (drop ptr (contents mem')) ≡ bytes)

module _ (S : SnapshotStore) (L : LinearMemory) (lin : IsLinear L) {W : Type 0}
    (T : TaskRuntime L) where
  open lin use {contents}

  -- The variables are written and the stream is closed.
  write_vars-uploads :
      (bytes : Bytes) (m : Machine S L W) (upload : Bytes → W → Option Error × W)
      → IsPlaced L lin T bytes m.memory
      → m.session.upload_buffer ≡ []
      → m.session.upload_handler ≡ some upload
      → is_end bytes ≡ false
      → let r = write_vars S L T (ok bytes) m in
        (r.0 ≡ returns (pos 0))
        × (r.1.world ≡ (upload bytes m.world).1)
        × (r.1.session
            ≡ record m.session { upload_buffer = []; download_reader = none; download_eof = false })
  unfolding write_vars write_stream payload after_write
  write_vars-uploads bytes m upload (inside, low, placed) empty has more =
      let (mem, ptr) = T.place bytes m.memory in
      let buffer : Buffer L = record { mem = mem; ptr = ptr; size = length bytes } in
      let whole : payload L lin (buffer ∷ []) ≡ bytes = append-nil _ ∙ placed in
      let (results, world, session) =
        upload-payload S L lin (buffer ∷ []) m upload ((inside, low), tt) empty has
          (ap is_end whole ∙ more) in
      let wrote : (stream_write S L ptr (length bytes) (record m { memory = mem })).0
          ≡ written (length bytes) =
        cc results in
      rw (after_write, wrote) (refl, world ∙ ap (λ bs. (upload bs m.world).1) whole, session)

  -- RunTask on a stream that was not read yet: the variables that it decodes are those whose text
  -- the download handler gives, whatever the sizes of the reads, it calls the task's handler on them
  -- with the world as the download left it, and if that call gives no error, it returns 0 after the
  -- upload handler has run on the encoding of the variables that the call left, also where the
  -- upload handler fails. After it the session can upload and download anew. The conditions: the
  -- decoder takes the text for one value, the buffers lie in the memory, below 2 GiB, the fuel is
  -- more than the length of the text, and the call of the task's handler leaves a session with an
  -- upload handler and nothing yet to upload.
  pub run_task-answers :
      (task : T.Vars → Machine S L W → Option Error × T.Vars × Machine S L W)
      (content bytes : Bytes) (vars : T.Vars) (fuel : ℕ) (m : Machine S L W)
      (download : W → Result Bytes × W) (upload : Bytes → W → Option Error × W) (world : W)
      → let n = (decode_from S L T fuel [] m).1 in
        let (failure, result, m') = task vars n in
        IsWhole T content vars
        → HasRoom T (length (contents m.memory))
        → length content < fuel
        → m.session.download_eof ≡ false
        → m.session.download_reader ≡ none
        → m.session.download_handler ≡ some download
        → download m.world ≡ (ok content, world)
        → failure ≡ none
        → m'.session.upload_buffer ≡ []
        → m'.session.upload_handler ≡ some upload
        → T.encode result ≡ ok bytes
        → IsPlaced L lin T bytes m'.memory
        → is_end bytes ≡ false
        → let r = run_task S L T fuel task m in
          (n.world ≡ world)
          × (r.0 ≡ some (returns (pos 0)))
          × (r.1.world ≡ (upload bytes m'.world).1)
          × (r.1.session ≡ record m'.session {
            upload_buffer = [];
            download_reader = none;
            download_eof = false;
          })
  unfolding run_task after_decode after_handler
  run_task-answers task content bytes vars fuel m download upload world whole inside fits unread
        closed has answer no_error empty has_upload encoded placed more =
      let (decoded, world', _, _) =
        decode_from-content S L lin T content vars fuel m download world whole inside fits unread
          closed has answer in
      let m' = (task vars (decode_from S L T fuel [] m).1).2 in
      let (status, uploaded, session) =
        write_vars-uploads bytes m' upload placed empty has_upload more in
      rw (after_decode, decoded, after_handler, no_error, encoded)
        (world', ap some status, uploaded, session)
