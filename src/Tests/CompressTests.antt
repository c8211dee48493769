-- ===== src/Tests/CompressTests.antt =====
-- A gzip of a header and the text, with pools that hold a writer in use and a reader that failed.
use native.Mathlib.Decide.{ℕ_discrete}
use durable_wasm.Base.{ℕ, ◌≡◌, refl, true, Bytes, [], ◌∷◌, nat_eq}
use durable_wasm.Types.{Result, ok, err, text}
use durable_wasm.Compress.{
  Gzip, Destination, buffer, discard, Pools, is_gzipped, compress_data, decompress_data,
}
use durable_wasm.Compress.Pooled.{IsGzip, ResetsTo, decompress_data-compress_data}
use durable_wasm.Compress.Calls.{compressing, decompressing, results, results-once}

-- What a writer has written, and where to.
record HeaderWriter : Type 0 where
  destination : Destination
  written : Bytes

-- A writer's first output is the header.
abbrev write_header : Bytes → HeaderWriter → Result (Unit {0}) × HeaderWriter
write_header bytes zw = (ok tt, record zw { written = 0x1f ∷ (0x8b ∷ bytes) })

abbrev after_header : {a b : ℕ} → Dec (a ≡ 0x1f) → Dec (b ≡ 0x8b) → Bytes → Result Bytes
after_header (yes _) (yes _) bytes = ok bytes
after_header (yes _) (no _) bytes = err (text "gzip: invalid header")
after_header (no _) _ bytes = err (text "gzip: invalid header")

abbrev read_header : Bytes → Result Bytes
read_header (a ∷ (b ∷ bytes)) = after_header (ℕ_discrete a 0x1f) (ℕ_discrete b 0x8b) bytes
read_header (a ∷ []) = err (text "gzip: invalid header")
read_header [] = err (text "EOF")

after_header-magic :
    (a b : ℕ) (da : Dec (a ≡ 0x1f)) (db : Dec (b ≡ 0x8b)) (bytes zr : Bytes)
    → after_header da db bytes ≡ ok zr
    → (rest : Bytes) × ((a ∷ (b ∷ bytes)) ≡ 0x1f ∷ (0x8b ∷ rest))
after_header-magic a b (yes ea) (yes eb) bytes zr h = (bytes, rw (ea, eb) refl)
after_header-magic a b (yes _) (no _) bytes zr h = absurd (cc h)
after_header-magic a b (no _) db bytes zr h = absurd (cc h)

read_header-magic :
    (bytes zr : Bytes) → read_header bytes ≡ ok zr → (rest : Bytes) × (bytes ≡ 0x1f ∷ (0x8b ∷ rest))
read_header-magic (a ∷ (b ∷ bytes)) zr h =
    after_header-magic a b (ℕ_discrete a 0x1f) (ℕ_discrete b 0x8b) bytes zr h
read_header-magic (a ∷ []) zr h = absurd (cc h)
read_header-magic [] zr h = absurd (cc h)

abbrev reset_to : Result Bytes → Bytes → Result (Unit {0}) × Bytes
reset_to (ok zr) old = (ok tt, zr)
reset_to (err e) old = (err e, old)

abbrev header_gzip : Gzip
header_gzip = record {
  Writer = HeaderWriter;
  new_writer = λ d. record { destination = d; written = [] };
  reset_writer = λ d zw. record { destination = d; written = [] };
  write = write_header;
  close_writer = λ zw. (ok tt, zw);
  output = λ zw. zw.written;
  Reader = Bytes;
  new_reader = read_header;
  reset_reader = λ bytes zr. reset_to (read_header bytes) zr;
  read_all = λ zr. (ok zr, []);
  close_reader = λ zr. [];
}

reset_to-ResetsTo : (new : Result Bytes) (old : Bytes) → ResetsTo new (reset_to new old)
reset_to-ResetsTo (ok zr) old = refl
reset_to-ResetsTo (err e) old = refl

header_gzip-IsGzip : IsGzip header_gzip
unfolding ℕ_discrete
header_gzip-IsGzip = record {
  reset_writer_new = λ d zw. refl;
  reset_reader_new = λ bytes zr. reset_to-ResetsTo (read_header bytes) zr;
  member = λ bytes.
      let zw : HeaderWriter = record { destination = buffer; written = 0x1f ∷ (0x8b ∷ bytes) } in
      (zw, zw, bytes, refl, refl, refl, refl);
  magic = read_header-magic;
}

abbrev pools : Pools header_gzip
pools = record {
  writers = record { destination = discard; written = 5 ∷ [] } ∷ [];
  readers = [] ∷ ((7 ∷ []) ∷ []);
}

decompress_data-compress_data_example :
    (packed : Bytes) × ((compress_data header_gzip 0 (1 ∷ (2 ∷ [])) pools).0 ≡ ok packed)
    × (is_gzipped packed ≡ true)
    × ((decompress_data header_gzip 1 packed pools).0 ≡ ok (1 ∷ (2 ∷ [])))
decompress_data-compress_data_example =
    decompress_data-compress_data header_gzip header_gzip-IsGzip (1 ∷ (2 ∷ [])) 0 1 pools pools

results-once_example :
    results header_gzip
      (compressing 0 (1 ∷ [])
        ∷ (decompressing 1 (3 ∷ (4 ∷ [])) ∷ (decompressing 0 (0x1f ∷ (0x8b ∷ (9 ∷ []))) ∷ [])))
      pools
    ≡ ok (0x1f ∷ (0x8b ∷ (1 ∷ []))) ∷ (err (text "gzip: invalid header") ∷ (ok (9 ∷ []) ∷ []))
unfolding ℕ_discrete
results-once_example =
    results-once header_gzip header_gzip-IsGzip
      (compressing 0 (1 ∷ [])
        ∷ (decompressing 1 (3 ∷ (4 ∷ [])) ∷ (decompressing 0 (0x1f ∷ (0x8b ∷ (9 ∷ []))) ∷ [])))
      pools
