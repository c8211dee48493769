-- ===== src/Compress/Calls.antt =====
-- compress.go: any sequence of calls of compressData and decompressData that share the pools.
use durable_wasm.Base.{ℕ, ◌≡◌, refl, Bytes, List, [], ◌∷◌, map}
use durable_wasm.Types.{Result}
use durable_wasm.Compress.{Gzip, Pools, compress_data, decompress_data}
use durable_wasm.Compress.Pooled.{
  IsGzip, gzip_once, gunzip_once, compress_data-once, decompress_data-once,
}

-- A call, with the item that its Get is given.
pub data PooledCall : Type 0 where
  compressing : ℕ → Bytes → PooledCall
  decompressing : ℕ → Bytes → PooledCall

module _ (G : Gzip) where
  abbrev pub run_call : PooledCall → Pools G → Result Bytes × Pools G
  run_call (compressing choice bytes) p = compress_data G choice bytes p
  run_call (decompressing choice bytes) p = decompress_data G choice bytes p

  -- The results of the calls, in their order.
  abbrev pub results : List PooledCall → Pools G → List (Result Bytes)
  results [] p = []
  results (call ∷ calls) p = (run_call call p).0 ∷ results calls (run_call call p).1

  abbrev pub result_once : PooledCall → Result Bytes
  result_once (compressing choice bytes) = gzip_once G bytes
  result_once (decompressing choice bytes) = gunzip_once G bytes

  module _ (lawful : IsGzip G) where
    run_call-once : (call : PooledCall) (p : Pools G) → (run_call call p).0 ≡ result_once call
    run_call-once (compressing choice bytes) p = compress_data-once G lawful choice bytes p
    run_call-once (decompressing choice bytes) p = decompress_data-once G lawful choice bytes p

    -- Any sequence of calls of compressData and decompressData on shared pools, failed calls among
    -- them, gives the results that new writers and readers for each call give.
    pub results-once :
        (calls : List PooledCall) (p : Pools G) → results calls p ≡ map result_once calls
    results-once [] p = refl
    results-once (call ∷ calls) p =
        rw (run_call-once call p, results-once calls (run_call call p).1) refl
