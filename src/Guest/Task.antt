-- ===== src/Guest/Task.antt =====
-- runner/runner.go: RunTask. `encoding/json` on the variables of a task, and where the guest's runtime
-- places what it reads and writes, are parameters.
pub mod Decoded
pub mod Answered
pub mod Ends
use durable_wasm.Base.{
  ℕ, zero, suc, Bytes, Option, none, some, [], ◌++◌, nat_eq, length, ℤ, pos, negsuc,
}
use durable_wasm.Types.{Error, text, Result, ok, err}
use durable_wasm.Store.{SnapshotStore}
use durable_wasm.Linear.{LinearMemory}
use durable_wasm.Session.{Outcome, returns, panics, Machine, Run}
use durable_wasm.Guest.{
  Writing, written, write_failed, write_aborted, bytes_read, end_of_file, read_failed, own_bytes,
  stream_read, stream_write, stream_close,
}

pub record TaskRuntime (L : LinearMemory) : Type 1 where
  -- map[string]interface{}
  pub Vars : Type 0
  -- json.Decoder: what it makes of the bytes that it has, or none where it reads on.
  pub decode : Bytes → Option (Result Vars)
  -- What it makes of them where there are no more.
  pub decode_end : Bytes → Result Vars
  -- The address and the length of the buffer that the decoder passes to Read, when it has as many bytes.
  pub room : ℕ → ℕ × ℕ
  -- json.Encoder: the text that it writes in one piece.
  pub encode : Vars → Result Bytes
  -- The memory after an allocation of a text, and its address.
  pub place : Bytes → L.Mem → L.Mem × ℕ

module _ (S : SnapshotStore) (L : LinearMemory) {W : Type 0} (T : TaskRuntime L) where
  -- `json.NewDecoder(Reader).Decode(&vars)`; none where the fuel is too small for the stream.
  unfoldable pub decode_from : ℕ → Bytes → Machine S L W → Option (Result T.Vars) × Machine S L W
  decode_from zero so_far m = (none, m)
  decode_from (suc fuel) so_far m =
      let (ptr, n) = T.room (length so_far) in
      let r = stream_read S L ptr n m in
      elim (T.decode so_far) [
        | some result ↦ (some result, m)
        | none ↦ elim r.0 [
          | bytes_read k ↦ decode_from fuel (so_far ++ own_bytes (L.read r.1.memory ptr k)) r.1
          | end_of_file ↦ (some (T.decode_end so_far), r.1)
          | read_failed ↦ (some (err (text "stream read error")), r.1)
        ]
      ]

  -- Close never gives an error. A panic of the host function ends RunTask.
  unfoldable pub after_write : Writing × Machine S L W → Run S L W ℤ
  after_write (written n, m) = (returns (pos 0), stream_close S L m)
  after_write (write_failed n, m) = (returns (negsuc 0), m)
  after_write (write_aborted, m) = (panics "stream_data", m)

  unfoldable pub write_vars : Result Bytes → Machine S L W → Run S L W ℤ
  write_vars (err e) m = (returns (negsuc 0), m)
  write_vars (ok bytes) m =
      let (mem, ptr) = T.place bytes m.memory in
      after_write (stream_write S L ptr (length bytes) (record m { memory = mem }))

  unfoldable pub after_handler : Option Error × T.Vars × Machine S L W → Run S L W ℤ
  after_handler (some e, vars, m) = (returns (negsuc 0), m)
  after_handler (none, vars, m) = write_vars (T.encode vars) m

  unfoldable pub after_decode :
      (T.Vars → Machine S L W → Option Error × T.Vars × Machine S L W)
      → Option (Result T.Vars) × Machine S L W
      → Option (Outcome ℤ) × Machine S L W
  after_decode handler (none, m) = (none, m)
  after_decode handler (some (err e), m) = (some (returns (negsuc 0)), m)
  after_decode handler (some (ok vars), m) =
      let (status, m') = after_handler (handler vars m) in (some status, m')

  -- The handler changes the variables in place.
  unfoldable pub run_task :
      ℕ
      → (T.Vars → Machine S L W → Option Error × T.Vars × Machine S L W)
      → Machine S L W
      → Option (Outcome ℤ) × Machine S L W
  run_task fuel handler m = after_decode handler (decode_from fuel [] m)
