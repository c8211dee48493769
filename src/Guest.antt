-- ===== src/Guest.antt =====
-- runner/runner.go: what a guest calls. `ptr` is the address of the buffer that a call passes, and a
-- host function gets it as an int32.
pub mod Download
pub mod Upload
pub mod Steps
pub mod Calls
pub mod Builder
pub mod Task
use durable_wasm.Base.{
  ℕ, zero, suc, ◌+◌, ◌^◌, ◌<◌, ◌≤◌, ◌≡◌, Bool, true, false, Bytes, Option, none, some, List, [],
  ◌∷◌, ◌++◌, ◌==◌, nat_eq, length, take, drop, if◌then◌else◌, ℤ, pos, negsuc, is_neg, to_int32,
}
use durable_wasm.Types.{Error, text, Result, ok, err}
use durable_wasm.Store.{SnapshotStore}
use durable_wasm.Linear.{LinearMemory}
use durable_wasm.Session.{Session, Outcome, returns, fails, panics, Machine, Run}
use durable_wasm.Stream.{stream_data}
use durable_wasm.Engine.HostCalls.{ApiCall, host_call_api}

-- What `Read` of an io.Reader returns: a number of bytes, io.EOF, or another error.
pub data Reading : Type 0 where
  bytes_read : ℕ → Reading
  end_of_file : Reading
  read_failed : Reading

-- What `Write` returns: the number of bytes with or without an error.
pub data Writing : Type 0 where
  written : ℕ → Writing
  write_failed : ℤ → Writing
  -- The host function panicked, which ends the guest's call.
  write_aborted : Writing

abbrev pub reading : ℤ → Reading
reading (negsuc n) = read_failed
reading (pos zero) = end_of_file
reading (pos (suc n)) = bytes_read (suc n)

-- What the result of a download is; a download does not panic.
abbrev pub download_reading : Outcome ℤ → Reading
download_reading (returns n) = reading n
download_reading (fails e) = read_failed
download_reading (panics reason) = read_failed

abbrev same_int : ℤ → ℤ → Bool
same_int (pos a) (pos b) = a == b
same_int (negsuc a) (negsuc b) = a == b
same_int _ _ = false

-- What the result of an upload of n bytes is.
abbrev upload_writing : ℕ → Outcome ℤ → Writing
upload_writing n (returns k) = if same_int k (to_int32 n) then written n else write_failed k
upload_writing n (fails e) = write_aborted
upload_writing n (panics reason) = write_aborted

-- CallAPI: the addresses of the name and of the request with their lengths, and the address of a new
-- buffer of 64 KiB for the response. A panic of the host function ends the guest's call.
abbrev pub api_call : ℕ → ℕ → ℕ → ℕ → ℕ → ApiCall
api_call api_ptr api_len req_ptr req_len resp_ptr = record {
  api_name_ptr = to_int32 api_ptr;
  api_name_len = to_int32 api_len;
  req_ptr = to_int32 req_ptr;
  req_len = to_int32 req_len;
  resp_ptr = to_int32 resp_ptr;
  resp_max_len = pos 65536;
}

-- A read of the guest's own memory.
abbrev own_bytes : Option Bytes → Bytes
own_bytes none = []
own_bytes (some bytes) = bytes

module _ (S : SnapshotStore) (L : LinearMemory) {W : Type 0} where
  -- StreamReader.Read with a buffer of n bytes at ptr.
  unfoldable pub stream_read : ℕ → ℕ → Machine S L W → Reading × Machine S L W
  stream_read ptr n m =
      let r = stream_data S L (pos 0) (to_int32 ptr) (to_int32 n) m in
      if n == 0 then (bytes_read 0, m) else (download_reading r.0, r.1)

  -- StreamWriter.Write with the n bytes at ptr.
  unfoldable pub stream_write : ℕ → ℕ → Machine S L W → Writing × Machine S L W
  stream_write ptr n m =
      let r = stream_data S L (pos 1) (to_int32 ptr) (to_int32 n) m in
      if n == 0 then (written 0, m) else (upload_writing n r.0, r.1)

  -- StreamWriter.Close: what the host answers is dropped.
  unfoldable pub stream_close : Machine S L W → Machine S L W
  stream_close m = (stream_data S L (pos 1) (pos 0) (pos 0) m).1

  call_result : ℕ → Run S L W ℤ → Run S L W Bytes
  call_result resp_ptr (returns (pos n), m) = (returns (own_bytes (L.read m.memory resp_ptr n)), m)
  call_result resp_ptr (returns (negsuc n), m) =
      (fails (if n == 1 then text "response buffer too small" else text "host api call failed"), m)
  call_result resp_ptr (fails e, m) = (fails e, m)
  call_result resp_ptr (panics reason, m) = (panics reason, m)

  unfoldable pub call_api : ApiCall → ℕ → Machine S L W → Run S L W Bytes
  unfolding call_result
  call_api call resp_ptr m = call_result resp_ptr (host_call_api S L call m)
