-- ===== src/Compress.antt =====
-- compress.go: gzip with pools of writers and readers. The writers and readers of `compress/gzip` are a
-- parameter; a `sync.Pool` is the list of what was put back, and which item a Get gives, or that it gives
-- none, is an argument.
pub mod Pooled
pub mod Calls
use durable_wasm.Base.{
  ℕ, zero, suc, Bool, true, false, ◌&&◌, Bytes, Option, none, some, List, [], ◌∷◌, ◌==◌, nat_eq,
}
use durable_wasm.Types.{Result, ok, err}

-- Where the output of a writer goes: a new bytes.Buffer, or io.Discard.
pub data Destination : Type 0 where
  buffer : Destination
  discard : Destination

-- *gzip.Writer, with what is in the buffer it writes to, and *gzip.Reader, with what it reads from.
pub record Gzip : Type 1 where
  pub Writer : Type 0
  pub new_writer : Destination → Writer
  pub reset_writer : Destination → Writer → Writer
  pub write : Bytes → Writer → Result (Unit {0}) × Writer
  pub close_writer : Writer → Result (Unit {0}) × Writer
  -- The bytes in the buffer.
  pub output : Writer → Bytes
  pub Reader : Type 0
  pub new_reader : Bytes → Result Reader
  pub reset_reader : Bytes → Reader → Result (Unit {0}) × Reader
  -- io.ReadAll
  pub read_all : Reader → Result Bytes × Reader
  pub close_reader : Reader → Reader

-- Get takes an item out of the pool, any one, or none.
unfoldable pub get : {A : Type 0} → ℕ → List A → Option A × List A
get n [] = (none, [])
get zero (a ∷ pool) = (some a, pool)
get (suc n) (a ∷ pool) = let (item, rest) = get n pool in (item, a ∷ rest)

unfoldable pub is_gzipped : Bytes → Bool
is_gzipped (a ∷ (b ∷ data_bytes)) = a == 0x1f && b == 0x8b
is_gzipped (a ∷ []) = false
is_gzipped [] = false

module _ (G : Gzip) where
  -- gzipWriterPool and gzipReaderPool.
  pub record Pools : Type 0 where
    pub writers : List G.Writer
    pub readers : List G.Reader

  -- The pool of writers makes one where it has none to give, so that Get never gives nil.
  abbrev pub or_new : Option G.Writer → G.Writer
  or_new none = G.new_writer discard
  or_new (some zw) = zw

  -- A writer that failed is not put back.
  unfoldable pub after_close : Result (Unit {0}) × G.Writer → Pools → Result Bytes × Pools
  after_close (err e, zw) p = (err e, p)
  after_close (ok _, zw) p =
      (ok (G.output zw), record p { writers = G.reset_writer discard zw ∷ p.writers })

  unfoldable pub after_write : Result (Unit {0}) × G.Writer → Pools → Result Bytes × Pools
  after_write (err e, zw) p = (err e, p)
  after_write (ok _, zw) p = after_close (G.close_writer zw) p

  unfoldable pub compress_data : ℕ → Bytes → Pools → Result Bytes × Pools
  compress_data choice bytes p =
      let (item, rest) = get choice p.writers in
      after_write (G.write bytes (G.reset_writer buffer (or_new item)))
        (record p { writers = rest })

  -- The read, and the deferred function, which drops the errors of Close and Reset.
  unfoldable pub read_and_put : G.Reader → Pools → Result Bytes × Pools
  read_and_put zr p =
      let (result, zr') = G.read_all zr in
      let (_, detached) = G.reset_reader [] (G.close_reader zr') in
      (result, record p { readers = detached ∷ p.readers })

  unfoldable pub with_new_reader : Result G.Reader → Pools → Result Bytes × Pools
  with_new_reader (err e) p = (err e, p)
  with_new_reader (ok zr) p = read_and_put zr p

  -- A pooled reader that does not accept the data is not put back.
  unfoldable pub with_reset_reader : Result (Unit {0}) × G.Reader → Pools → Result Bytes × Pools
  with_reset_reader (err e, zr) p = (err e, p)
  with_reset_reader (ok _, zr) p = read_and_put zr p

  unfoldable pub with_item : Option G.Reader → Bytes → Pools → Result Bytes × Pools
  with_item none bytes p = with_new_reader (G.new_reader bytes) p
  with_item (some zr) bytes p = with_reset_reader (G.reset_reader bytes zr) p

  unfoldable pub decompress_data : ℕ → Bytes → Pools → Result Bytes × Pools
  decompress_data choice bytes p =
      let (item, rest) = get choice p.readers in with_item item bytes (record p { readers = rest })
