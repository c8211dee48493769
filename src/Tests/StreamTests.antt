-- ===== src/Tests/StreamTests.antt =====
-- A guest that uploads, over a memory of 16 bytes.
use durable_wasm.Base.{◌≡◌, refl, arith, false, none, List, [], ◌∷◌, map, nat_eq}
use durable_wasm.Guest.{written, stream_close}
use durable_wasm.Guest.Upload.{Buffer, write_stream, payload, upload-payload}
use durable_wasm.Tests.ByteMemory.{byte_memory, linear_bytes}
use durable_wasm.Tests.Setup.{store, small, small_memory, accept}

abbrev two_buffers : List (Buffer byte_memory)
two_buffers =
    record { mem = small_memory; ptr = 0; size = 3 }
    ∷ (record { mem = small_memory; ptr = 3; size = 5 } ∷ [])

upload-payload_example :
    let r = write_stream store byte_memory two_buffers small in
    (r.0 ≡ map (λ (buffer : Buffer byte_memory). written buffer.size) two_buffers)
    × ((stream_close store byte_memory r.1).world
        ≡ (accept (payload byte_memory linear_bytes two_buffers) small.world).1)
    × ((stream_close store byte_memory r.1).session
        ≡ record small.session { upload_buffer = []; download_reader = none; download_eof = false })
unfolding linear_bytes payload
upload-payload_example =
    upload-payload store byte_memory linear_bytes two_buffers small accept
      ((omega arith, omega arith), ((omega arith, omega arith), tt)) refl refl refl
