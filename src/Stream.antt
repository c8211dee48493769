-- ===== src/Stream.antt =====
-- session.go: handleDownload and handleUpload, and the host function `stream_data` of wasman.go that
-- calls them.
pub mod Download
pub mod Upload
use Prim.Native.Nat.{min}
use durable_wasm.Base.{
  ℕ, zero, suc, Bool, true, false, Bytes, Option, none, some, List, [], ◌∷◌, ◌++◌, length, take,
  drop, if◌then◌else◌, ℤ, pos, negsuc, pos_part, to_int32, to_uint32,
}
use durable_wasm.Types.{Error, Result, ok, err}
use durable_wasm.Store.{SnapshotStore}
use durable_wasm.Linear.{LinearMemory}
use durable_wasm.Session.{Session, returns, panics, Machine, Run}
use durable_wasm.Engine.HostCalls.{out_of_bounds, wraps, slice}

-- `length == 0`
abbrev is_zero : ℤ → Bool
is_zero (pos zero) = true
is_zero _ = false

-- Whether `bytes.Reader.Read` is at the end: it says so before it looks at the buffer.
abbrev pub is_end : Bytes → Bool
is_end [] = true
is_end (b ∷ bs) = false

module _ (L : LinearMemory) where
  -- `if n > 0 { s.memory.Write(…) }`; the result of the write is not looked at.
  write_some : ℤ → Bytes → L.Mem → L.Mem
  write_some ptr [] mem = mem
  write_some ptr (b ∷ bs) mem = (L.write mem (to_uint32 ptr) (b ∷ bs)).1

module _ (S : SnapshotStore) (L : LinearMemory) {W : Type 0} where
  abbrev with_session : Machine S L W → Session W → Machine S L W
  with_session m session = record m { session = session }

  -- The read of up to n bytes from what the reader has left, and the write to the guest's memory.
  unfoldable pub read_chunk : ℤ → ℕ → Bytes → Machine S L W → ℤ × Machine S L W
  unfolding write_some
  read_chunk ptr n rest m =
      if is_end rest
      then (
        pos 0,
        with_session m (record m.session { download_reader = none; download_eof = true }),
      )
      else let chunk = take n rest in
        (
          to_int32 (length chunk),
          record m {
            session = record m.session { download_reader = some (drop n rest) };
            memory = write_some L ptr chunk m.memory;
          },
        )

  -- The answer of the download handler becomes the reader.
  opened : ℤ → ℕ → Machine S L W → Result Bytes × W → ℤ × Machine S L W
  opened ptr n m (err e, world) = (negsuc 0, record m { world = world })
  opened ptr n m (ok content, world) = read_chunk ptr n content (record m { world = world })

  open_reader : ℤ → ℕ → Option (W → Result Bytes × W) → Machine S L W → ℤ × Machine S L W
  unfolding opened
  open_reader ptr n none m = (negsuc 0, m)
  open_reader ptr n (some handler) m = opened ptr n m (handler m.world)

  from_reader : ℤ → ℕ → Option Bytes → Machine S L W → ℤ × Machine S L W
  unfolding open_reader
  from_reader ptr n none m = open_reader ptr n m.session.download_handler m
  from_reader ptr n (some rest) m = read_chunk ptr n rest m

  download : ℤ → ℤ → Option Bytes → Machine S L W → ℤ × Machine S L W
  unfolding from_reader
  download ptr len none m = (negsuc 0, m)
  download ptr len (some bytes) m =
      if out_of_bounds ptr len (length bytes)
      then (negsuc 0, m)
      else from_reader ptr (pos_part len) m.session.download_reader m

  unfoldable pub handle_download : ℤ → ℤ → Machine S L W → ℤ × Machine S L W
  unfolding download
  handle_download ptr len m =
      if m.session.download_eof
      then (pos 0, m)
      else download ptr len (L.read m.memory 0 (L.size m.memory)) m

  -- After the upload handler has run: the buffer is gone and a download may start over, also if it
  -- failed.
  uploaded : Machine S L W → Option Error × W → Run S L W ℤ
  uploaded m (failed, world) =
      let session = record m.session {
        upload_buffer = [];
        download_reader = none;
        download_eof = false;
      } in
      let m' = record m { session = session; world = world } in
      elim failed [ none ↦ (returns (pos 0), m') | some e ↦ (returns (negsuc 0), m') ]

  -- A flush: a chunk of length 0.
  flush : Option (Bytes → W → Option Error × W) → Machine S L W → Run S L W ℤ
  unfolding uploaded
  flush none m = (returns (negsuc 0), m)
  flush (some handler) m = uploaded m (handler m.session.upload_buffer m.world)

  unfoldable pub upload_chunk : ℤ → ℤ → Bytes → Machine S L W → Run S L W ℤ
  unfolding flush
  upload_chunk ptr len bytes m =
      if is_zero len
      then if is_end m.session.upload_buffer
        then (returns (pos 0), m)
        else flush m.session.upload_handler m
      else if wraps ptr len
      then (panics "slice bounds out of range", m)
      else (
        returns len,
        with_session m
            (record m.session { upload_buffer = m.session.upload_buffer ++ slice ptr len bytes }),
      )

  upload : ℤ → ℤ → Option Bytes → Machine S L W → Run S L W ℤ
  unfolding upload_chunk
  upload ptr len none m = (returns (negsuc 0), m)
  upload ptr len (some bytes) m =
      if out_of_bounds ptr len (length bytes)
      then (returns (negsuc 0), m)
      else upload_chunk ptr len bytes m

  unfoldable pub handle_upload : ℤ → ℤ → Machine S L W → Run S L W ℤ
  unfolding upload
  handle_upload ptr len m = upload ptr len (L.read m.memory 0 (L.size m.memory)) m

  unfoldable pub stream_data : ℤ → ℤ → ℤ → Machine S L W → Run S L W ℤ
  stream_data (pos zero) ptr len m = let (n, m') = handle_download ptr len m in (returns n, m')
  stream_data (pos (suc zero)) ptr len m = handle_upload ptr len m
  stream_data _ ptr len m = (returns (negsuc 0), m)
