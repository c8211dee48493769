-- ===== src/Guest/Builder.antt =====
-- runner/runner.go: the builder of an API call, and GetTime.
use durable_wasm.Base.{
  ℕ, ◌+◌, ◌^◌, ◌<◌, ◌≤◌, ◌≡◌, ◌∙◌, ap, refl, arith, false, Bytes, some, [], ◌∷◌, length, take, drop,
  ℤ, to_int32, to_int32-eq,
}
use durable_wasm.Store.{SnapshotStore}
use durable_wasm.Store.Contract.{IsReliable}
use durable_wasm.Linear.{LinearMemory, IsLinear}
use durable_wasm.Session.{returns, Machine, Run}
use durable_wasm.Engine.HostCalls.{host_get_time, out_of_bounds, wraps, slice}
use durable_wasm.Engine.HostCalls.Replay.{recorded}
use durable_wasm.Guest.{api_call, call_api}
use durable_wasm.Guest.Calls.{call_api-recorded}

-- APICall
pub record ApiRequest : Type 0 where
  pub name : Bytes
  pub payload : Bytes

unfoldable pub call : Bytes → ApiRequest
call api_name = record { name = api_name; payload = [] }

unfoldable pub with_payload : Bytes → ApiRequest → ApiRequest
with_payload payload c = record c { payload = payload }

-- The address that CallAPI passes for bytes that stand at `ptr`: 0 if there are none.
unfoldable pub address_of : Bytes → ℕ → ℕ
address_of [] ptr = 0
address_of (b ∷ bs) ptr = ptr

module _ (S : SnapshotStore) (L : LinearMemory) {W : Type 0} where
  -- Send, with the addresses of the name, of the payload and of the buffer for the response.
  unfoldable pub send : ApiRequest → ℕ → ℕ → ℕ → Machine S L W → Run S L W Bytes
  send c name_ptr req_ptr resp_ptr m =
      call_api S L
        (api_call (address_of c.name name_ptr) (length c.name) (address_of c.payload req_ptr)
          (length c.payload) resp_ptr)
        resp_ptr m

  -- The nanoseconds of the time.
  unfoldable pub get_time : ℤ → Machine S L W → Run S L W ℤ
  get_time now m = host_get_time S L now m

-- The bytes stand at an address, below 2 GiB.
pub record IsAt (memory : Bytes) (ptr : ℕ) (bytes : Bytes) : Type 0 where
  pub inside : ptr + length bytes ≤ length memory
  pub low : ptr + length bytes < 2 ^ 31
  pub stands : take (length bytes) (drop ptr memory) ≡ bytes

address_of-IsAt :
    (memory : Bytes) (ptr : ℕ) (bytes : Bytes)
    → IsAt memory ptr bytes
    → IsAt memory (address_of bytes ptr) bytes
unfolding address_of
address_of-IsAt memory ptr [] at = record { inside = omega arith; low = omega arith; stands = refl }
address_of-IsAt memory ptr (b ∷ bs) at = at

in_bounds :
    (memory : Bytes) (ptr : ℕ) (bytes : Bytes)
    → IsAt memory ptr bytes
    → out_of_bounds (to_int32 ptr) (to_int32 (length bytes)) (length memory) ≡ false
in_bounds memory ptr bytes at =
    let inside = at.inside in
    let low = at.low in
    rw (to_int32-eq ptr (omega arith), to_int32-eq (length bytes) (omega arith)) (ground arith)

no_wrap :
    (memory : Bytes) (ptr : ℕ) (bytes : Bytes)
    → IsAt memory ptr bytes
    → wraps (to_int32 ptr) (to_int32 (length bytes)) ≡ false
no_wrap memory ptr bytes at =
    let low = at.low in
    rw (to_int32-eq ptr (omega arith), to_int32-eq (length bytes) (omega arith)) (ground arith)

slice-IsAt :
    (memory : Bytes) (ptr : ℕ) (bytes : Bytes)
    → IsAt memory ptr bytes
    → slice (to_int32 ptr) (to_int32 (length bytes)) memory ≡ bytes
slice-IsAt memory ptr bytes at =
    let low = at.low in
    rw (to_int32-eq ptr (omega arith), to_int32-eq (length bytes) (omega arith)) at.stands

module _ (S : SnapshotStore) (rel : IsReliable S) (L : LinearMemory) (lin : IsLinear L)
    {W : Type 0} where
  open lin use {contents}

  -- A guest that builds an API call from a name and a payload and sends it gets exactly the answer
  -- of at most 64 KiB that the log of the session holds for the next call of that name, whatever the
  -- payload, an empty one included, if the name and the payload stand in its memory and the response
  -- has room there, all below 2 GiB.
  pub send-recorded :
      (name payload response : Bytes) (name_ptr req_ptr ptr : ℕ) (m : Machine S L W)
      → IsAt (contents m.memory) name_ptr name
      → IsAt (contents m.memory) req_ptr payload
      → recorded S rel L lin m name ≡ some response
      → ptr < 2 ^ 31
      → length response ≤ 65536
      → ptr + length response ≤ length (contents m.memory)
      → (send S L (with_payload payload (call name)) name_ptr req_ptr ptr m).0 ≡ returns response
  unfolding send with_payload call
  send-recorded name payload response name_ptr req_ptr ptr m name_at payload_at found low fits
        room =
      let name_at' = address_of-IsAt (contents m.memory) name_ptr name name_at in
      let payload_at' = address_of-IsAt (contents m.memory) req_ptr payload payload_at in
      call_api-recorded S L lin rel (address_of name name_ptr) (length name)
        (address_of payload req_ptr) (length payload) ptr response m
        (record {
          name = in_bounds (contents m.memory) _ name name_at';
          request = in_bounds (contents m.memory) _ payload payload_at';
          name_low = no_wrap (contents m.memory) _ name name_at';
          request_low = no_wrap (contents m.memory) _ payload payload_at';
        })
        (ap (recorded S rel L lin m) (slice-IsAt (contents m.memory) _ name name_at') ∙ found) low
        fits room
