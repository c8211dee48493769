-- ===== src/Compress/Pooled.antt =====
-- compress.go over a gzip that works as its documentation says: the pools change nothing.
use durable_wasm.Base.{
  ℕ, ◌≡◌, ◌∙◌, sym, refl, ap, true, false, Bytes, Option, none, some, ◌∷◌, nat_eq,
}
use durable_wasm.Types.{Error, Result, ok, err}
use durable_wasm.Store.Codec.{Codec}
use durable_wasm.Store.Objects.Lawful.{Encodes}
use durable_wasm.Compress.{
  Gzip, buffer, Destination, is_gzipped, Pools, get, or_new, after_close, after_write,
  compress_data, read_and_put, with_new_reader, with_reset_reader, with_item, decompress_data,
}

-- Reset of a reader does what NewReader does.
abbrev pub ResetsTo : {A : Type 0} → Result A → Result (Unit {0}) × A → Type 0
ResetsTo (ok zr) r = r ≡ (ok tt, zr)
ResetsTo (err e) r = r.0 ≡ err e

-- The documentation of compress/gzip, and RFC 1952 on the first two bytes of a member.
pub record IsGzip (G : Gzip) : Type 0 where
  pub reset_writer_new : (d : Destination) (zw : G.Writer) → G.reset_writer d zw ≡ G.new_writer d
  pub reset_reader_new :
      (bytes : Bytes) (zr : G.Reader) → ResetsTo (G.new_reader bytes) (G.reset_reader bytes zr)
  pub member :
      (bytes : Bytes)
      → (zw : G.Writer) × (closed : G.Writer) × (zr : G.Reader) × (G.write bytes
            (G.new_writer buffer)
          ≡ (ok tt, zw))
        × (G.close_writer zw ≡ (ok tt, closed))
        × (G.new_reader (G.output closed) ≡ ok zr)
        × ((G.read_all zr).0 ≡ ok bytes)
  pub magic :
      (bytes : Bytes) (zr : G.Reader)
      → G.new_reader bytes ≡ ok zr
      → (rest : Bytes) × (bytes ≡ 0x1f ∷ (0x8b ∷ rest))

module _ (G : Gzip) where
  abbrev closed_once : Result (Unit {0}) × G.Writer → Result Bytes
  closed_once (err e, zw) = err e
  closed_once (ok _, zw) = ok (G.output zw)

  abbrev written_once : Result (Unit {0}) × G.Writer → Result Bytes
  written_once (err e, zw) = err e
  written_once (ok _, zw) = closed_once (G.close_writer zw)

  -- gzip without a pool: a new writer for each text.
  abbrev pub gzip_once : Bytes → Result Bytes
  gzip_once bytes = written_once (G.write bytes (G.new_writer buffer))

  abbrev read_once : Result G.Reader → Result Bytes
  read_once (err e) = err e
  read_once (ok zr) = (G.read_all zr).0

  -- And a new reader.
  abbrev pub gunzip_once : Bytes → Result Bytes
  gunzip_once bytes = read_once (G.new_reader bytes)

  abbrev pub gzip_codec : Codec Bytes
  gzip_codec = record { encode = gzip_once; decode = gunzip_once }

  after_close-once :
      (r : Result (Unit {0}) × G.Writer) (p : Pools G) → (after_close G r p).0 ≡ closed_once r
  unfolding after_close
  after_close-once (err e, zw) p = refl
  after_close-once (ok _, zw) p = refl

  after_write-once :
      (r : Result (Unit {0}) × G.Writer) (p : Pools G) → (after_write G r p).0 ≡ written_once r
  unfolding after_write
  after_write-once (err e, zw) p = refl
  after_write-once (ok _, zw) p = after_close-once (G.close_writer zw) p

  with_new_reader-once :
      (r : Result G.Reader) (p : Pools G) → (with_new_reader G r p).0 ≡ read_once r
  unfolding with_new_reader read_and_put
  with_new_reader-once (err e) p = refl
  with_new_reader-once (ok zr) p = refl

  with_reset_reader-once :
      (new : Result G.Reader) (r : Result (Unit {0}) × G.Reader) (p : Pools G)
      → ResetsTo new r
      → (with_reset_reader G r p).0 ≡ read_once new
  unfolding with_reset_reader read_and_put
  with_reset_reader-once (ok zr) r p same = rw same refl
  with_reset_reader-once (err e) (ok _, zr) p same = absurd (cc same)
  with_reset_reader-once (err e) (err f, zr) p same = let errors : f ≡ e = cc same in rw errors refl

  module _ (lawful : IsGzip G) where
    pub compress_data-once :
        (choice : ℕ) (bytes : Bytes) (p : Pools G)
        → (compress_data G choice bytes p).0 ≡ gzip_once bytes
    unfolding compress_data
    compress_data-once choice bytes p =
        rw (lawful.reset_writer_new buffer (or_new G (get choice p.writers).0))
          (after_write-once (G.write bytes (G.new_writer buffer)) _)

    with_item-once :
        (item : Option G.Reader) (bytes : Bytes) (p : Pools G)
        → (with_item G item bytes p).0 ≡ gunzip_once bytes
    unfolding with_item
    with_item-once none bytes p = with_new_reader-once (G.new_reader bytes) p
    with_item-once (some zr) bytes p =
        with_reset_reader-once (G.new_reader bytes) (G.reset_reader bytes zr) p
          (lawful.reset_reader_new bytes zr)

    pub decompress_data-once :
        (choice : ℕ) (bytes : Bytes) (p : Pools G)
        → (decompress_data G choice bytes p).0 ≡ gunzip_once bytes
    unfolding decompress_data
    decompress_data-once choice bytes p = with_item-once (get choice p.readers).0 bytes _

    -- What the stores expect of gzip.
    pub gzip_codec-Encodes : (bytes : Bytes) → Encodes gzip_codec bytes
    gzip_codec-Encodes bytes =
        let (zw, closed, zr, wrote, did_close, opened, read) = lawful.member bytes in
        (G.output closed, rw (wrote, did_close) refl, rw opened read)

    -- Data that compressData has compressed start with the two bytes of gzip, and decompressData
    -- gives the data back, whatever the two pools hold at either call, and whichever item of a pool
    -- the calls are given.
    pub decompress_data-compress_data :
        (bytes : Bytes) (choice choice' : ℕ) (p p' : Pools G)
        → (packed : Bytes) × ((compress_data G choice bytes p).0 ≡ ok packed)
          × (is_gzipped packed ≡ true)
          × ((decompress_data G choice' packed p').0 ≡ ok bytes)
    unfolding is_gzipped nat_eq
    decompress_data-compress_data bytes choice choice' p p' =
        let (zw, closed, zr, wrote, did_close, opened, read) = lawful.member bytes in
        let (rest, starts) = lawful.magic (G.output closed) zr opened in
        (
          G.output closed,
          compress_data-once choice bytes p ∙ rw (wrote, did_close) refl,
          rw starts refl,
          decompress_data-once choice' (G.output closed) p' ∙ rw opened read,
        )

    read_once-strict :
        (bytes : Bytes) (new : Result G.Reader)
        → G.new_reader bytes ≡ new
        → is_gzipped bytes ≡ false
        → (e : Error) × (read_once new ≡ err e)
    unfolding is_gzipped nat_eq
    read_once-strict bytes (err e) opened raw = (e, refl)
    read_once-strict bytes (ok zr) opened raw =
        let (rest, starts) = lawful.magic bytes zr opened in
        absurd (cc (sym raw ∙ ap is_gzipped starts))

    -- A text that does not start as gzip does is refused.
    pub decompress_data-strict :
        (bytes : Bytes) (choice : ℕ) (p : Pools G)
        → is_gzipped bytes ≡ false
        → (e : Error) × ((decompress_data G choice bytes p).0 ≡ err e)
    decompress_data-strict bytes choice p raw =
        let (e, refused) = read_once-strict bytes (G.new_reader bytes) refl raw in
        (e, decompress_data-once choice bytes p ∙ refused)
