-- ===== src/Guest/Download.antt =====
-- A guest that reads the download stream from its beginning to its end, a buffer at a time.
use durable_wasm.Base.{
  ℕ, zero, suc, ◌+◌, ◌^◌, ◌<◌, ◌≤◌, ◌≡◌, ◌∙◌, sym, refl, ap, arith, true, false, Bytes, Option,
  none, some, [], ◌∷◌, ◌++◌, nat_eq, length, length-take, length-drop, length-splice,
  take-append-drop, take-splice, take, drop, pos, to_int32-eq,
}
use durable_wasm.Types.{Error, Result, ok, err}
use durable_wasm.Store.{SnapshotStore}
use durable_wasm.Linear.{LinearMemory, IsLinear}
use durable_wasm.Session.{Session, Machine}
use durable_wasm.Stream.{stream_data, handle_download}
use durable_wasm.Stream.Download.{
  handle_download-eof, handle_download-none, handle_download-refused, handle_download-end,
  handle_download-some, handle_download-open, with_reader,
}
use durable_wasm.Guest.{Reading, bytes_read, end_of_file, read_failed, reading, stream_read}

reading-pos : (k : ℕ) → 0 < k → reading (pos k) ≡ bytes_read k
reading-pos zero h = elim h [ ]
reading-pos (suc k) h = refl

module _ (S : SnapshotStore) (L : LinearMemory) {W : Type 0} where
  abbrev collect : Option Bytes → Option Bytes × Machine S L W → Option Bytes × Machine S L W
  collect (some chunk) (some bytes, m) = (some (chunk ++ bytes), m)
  collect _ (_, m) = (none, m)

  -- Reads with the buffer of n bytes at p until the end of the file, and keeps what it read, as
  -- io.ReadAll does; none on an error, or where the fuel is too small for the stream.
  unfoldable pub read_stream : ℕ → ℕ → ℕ → Machine S L W → Option Bytes × Machine S L W
  read_stream zero p n m = (none, m)
  read_stream (suc fuel) p n m =
      let r = stream_read S L p n m in
      let rest = read_stream fuel p n r.1 in
      elim r.0 [
        | bytes_read k ↦ collect (L.read r.1.memory p k) rest
        | end_of_file ↦ (some [], r.1)
        | read_failed ↦ (none, r.1)
      ]

module _ (S : SnapshotStore) (L : LinearMemory) (lin : IsLinear L) {W : Type 0} (p n : ℕ)
    (some_room : 0 < n) (low : p < 2 ^ 31) (small : n < 2 ^ 31) where
  open lin use {contents}

  stream_read-eq :
      (m : Machine S L W)
      → stream_read S L p n m ≡ (
        reading (handle_download S L (pos p) (pos n) m).0,
        (handle_download S L (pos p) (pos n) m).1,
      )
  unfolding stream_read stream_data
  stream_read-eq m = rw (to_int32-eq p low, to_int32-eq n small) (ground arith)

  -- Where the reader has bytes left, a read gets some, and the buffer holds them.
  pub stream_read-some :
      (b : ℕ) (rest : Bytes) (m : Machine S L W)
      → p + n ≤ length (contents m.memory)
      → m.session.download_eof ≡ false
      → m.session.download_reader ≡ some (b ∷ rest)
      → let r = stream_read S L p n m in
        let chunk = take n (b ∷ rest) in
        (r.0 ≡ bytes_read (length chunk))
        × (L.read r.1.memory p (length chunk) ≡ some chunk)
        × (length (contents r.1.memory) ≡ length (contents m.memory))
        × (r.1.session ≡ record m.session { download_reader = some (drop n (b ∷ rest)) })
        × (r.1.world ≡ m.world)
  stream_read-some b rest m inside unread has =
      let chunk = take n (b ∷ rest) in
      let bound = length-take n (b ∷ rest) in
      let (answer, wrote, session, world) =
        handle_download-some S L lin p n b rest m inside small (omega arith) unread has in
      let mem = (handle_download S L (pos p) (pos n) m).1.memory in
      let same : length (contents mem) ≡ length (contents m.memory) =
        ap length wrote ∙ length-splice p chunk (contents m.memory) in
      rw (stream_read-eq m) (
        ap reading answer
            ∙ ap (λ k. reading (pos k)) (sym bound)
            ∙ reading-pos (length chunk) (omega arith),
        lin.read_in mem p (length chunk) (omega arith)
            ∙ ap (λ xs. some (take (length chunk) (drop p xs))) wrote
            ∙ ap some (take-splice p chunk (contents m.memory) (omega arith)),
        same,
        session,
        world,
      )

  pub stream_read-end :
      (m : Machine S L W)
      → p + n ≤ length (contents m.memory)
      → m.session.download_eof ≡ false
      → m.session.download_reader ≡ some []
      → stream_read S L p n m ≡ (
        end_of_file,
        record m { session = record m.session { download_reader = none; download_eof = true } },
      )
  stream_read-end m inside unread has =
      stream_read-eq m
      ∙ ap (λ r. (reading r.0, r.1)) (handle_download-end S L lin p n m inside unread has)

  -- A read after the end.
  pub stream_read-eof :
      (m : Machine S L W) → m.session.download_eof ≡ true → stream_read S L p n m ≡ (end_of_file, m)
  stream_read-eof m ended =
      stream_read-eq m ∙ ap (λ r. (reading r.0, r.1)) (handle_download-eof S L lin p n m ended)

  -- A first read without a download handler.
  pub stream_read-none :
      (m : Machine S L W)
      → p + n ≤ length (contents m.memory)
      → m.session.download_eof ≡ false
      → m.session.download_reader ≡ none
      → m.session.download_handler ≡ none
      → stream_read S L p n m ≡ (read_failed, m)
  stream_read-none m inside unread closed missing =
      stream_read-eq m
      ∙ ap (λ r. (reading r.0, r.1))
          (handle_download-none S L lin p n m inside unread closed missing)

  -- A first read whose download handler fails.
  pub stream_read-refused :
      (m : Machine S L W) (handler : W → Result Bytes × W) (e : Error) (world : W)
      → p + n ≤ length (contents m.memory)
      → m.session.download_eof ≡ false
      → m.session.download_reader ≡ none
      → m.session.download_handler ≡ some handler
      → handler m.world ≡ (err e, world)
      → stream_read S L p n m ≡ (read_failed, record m { world = world })
  stream_read-refused m handler e world inside unread closed has refused =
      stream_read-eq m
      ∙ ap (λ r. (reading r.0, r.1))
          (handle_download-refused S L lin p n m handler e world inside unread closed has refused)

  -- The first read has the download handler run.
  pub stream_read-open :
      (m : Machine S L W) (handler : W → Result Bytes × W) (content : Bytes) (world : W)
      → p + n ≤ length (contents m.memory)
      → m.session.download_eof ≡ false
      → m.session.download_reader ≡ none
      → m.session.download_handler ≡ some handler
      → handler m.world ≡ (ok content, world)
      → stream_read S L p n m ≡ stream_read S L p n (with_reader S L lin m content world)
  stream_read-open m handler content world inside unread closed has answer =
      stream_read-eq m
      ∙ ap (λ r. (reading r.0, r.1))
          (handle_download-open S L lin p n m handler content world inside unread closed has answer)
      ∙ sym (stream_read-eq (with_reader S L lin m content world))

  -- The guest reads on from what its first read leaves.
  read_stream-first :
      (fuel : ℕ) (m m' : Machine S L W)
      → stream_read S L p n m ≡ stream_read S L p n m'
      → read_stream S L (suc fuel) p n m ≡ read_stream S L (suc fuel) p n m'
  unfolding read_stream
  read_stream-first fuel m m' e =
      ap
        (λ (r : Reading × Machine S L W).
          let rest = read_stream S L fuel p n r.1 in
          elim r.0 [
            | bytes_read k ↦ collect S L (L.read r.1.memory p k) rest
            | end_of_file ↦ (some [], r.1)
            | read_failed ↦ (none, r.1)
          ])
        e

  -- From a reader that has `rest` left, the guest gets `rest`.
  read_stream-rest :
      (fuel : ℕ) (rest : Bytes) (m : Machine S L W)
      → p + n ≤ length (contents m.memory)
      → length rest < fuel
      → m.session.download_eof ≡ false
      → m.session.download_reader ≡ some rest
      → ((read_stream S L fuel p n m).0 ≡ some rest)
        × ((read_stream S L fuel p n m).1.session.download_eof ≡ true)
  unfolding read_stream
  read_stream-rest zero rest m inside fits unread has = elim fits [ ]
  read_stream-rest (suc fuel) [] m inside fits unread has =
      let ended = stream_read-end m inside unread has in
      rw (read_stream, ap (λ r. r.0) ended)
        (refl, ap (λ (r : Reading × Machine S L W). r.1.session.download_eof) ended)
  read_stream-rest (suc fuel) (b ∷ rest) m inside fits unread has =
      let chunk = take n (b ∷ rest) in
      let (answer, holds, same, session, _) = stream_read-some b rest m inside unread has in
      let bound = length-drop n (b ∷ rest) in
      let (later, ended) =
        read_stream-rest fuel (drop n (b ∷ rest)) (stream_read S L p n m).1 (omega arith)
          (omega arith) (ap (λ (s : Session W). s.download_eof) session ∙ unread)
          (ap (λ (s : Session W). s.download_reader) session) in
      rw (read_stream, answer, holds, later) (ap some (take-append-drop n (b ∷ rest)), ended)

  -- A guest that reads the download stream with a buffer of n > 0 bytes, until it is told the end,
  -- gets exactly the bytes that the download handler gives, and the session remembers the end: if
  -- nothing was read yet, the handler does not fail, the buffer lies in the memory, below 2 GiB, and
  -- the number of reads may exceed the number of bytes.
  pub read_stream-content :
      (fuel : ℕ) (m : Machine S L W) (handler : W → Result Bytes × W) (content : Bytes) (world : W)
      → p + n ≤ length (contents m.memory)
      → length content < fuel
      → m.session.download_eof ≡ false
      → m.session.download_reader ≡ none
      → m.session.download_handler ≡ some handler
      → handler m.world ≡ (ok content, world)
      → ((read_stream S L fuel p n m).0 ≡ some content)
        × ((read_stream S L fuel p n m).1.session.download_eof ≡ true)
  unfolding read_stream
  read_stream-content zero m handler content world inside fits unread closed has answer =
      elim fits [ ]
  read_stream-content (suc fuel) m handler content world inside fits unread closed has answer =
      let reader = with_reader S L lin m content world in
      let same = stream_read-open m handler content world inside unread closed has answer in
      rw (read_stream-first fuel m reader same)
        (read_stream-rest (suc fuel) content reader inside fits unread refl)
