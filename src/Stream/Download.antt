-- ===== src/Stream/Download.antt =====
-- A guest that reads the download stream to its end gets exactly the handler's bytes.
use Prim.Native.Nat.{min}
use durable_wasm.Base.{
  ℕ, ◌+◌, ◌^◌, ◌≤◌, ◌<◌, ◌≡◌, ◌∙◌, sym, ap, refl, arith, true, false, Bytes, Option, none, some, [],
  ◌∷◌, length, length-take, take, drop, pos, negsuc, to_int32-eq, to_uint32-eq, splice, splice-nil,
}
use durable_wasm.Types.{Error, Result, ok, err}
use durable_wasm.Store.{SnapshotStore}
use durable_wasm.Linear.{LinearMemory, IsLinear}
use durable_wasm.Linear.Whole.{read_all}
use durable_wasm.Session.{Machine}
use durable_wasm.Stream.{
  write_some, read_chunk, from_reader, open_reader, opened, download, handle_download,
}

module _ (L : LinearMemory) (lin : IsLinear L) where
  open lin use {contents}

  contents-write_some :
      (p : ℕ) (bs : Bytes) (mem : L.Mem)
      → p + length bs ≤ length (contents mem)
      → p < 2 ^ 32
      → contents (write_some L (pos p) bs mem) ≡ splice p bs (contents mem)
  unfolding write_some
  contents-write_some p [] mem inside low = sym (splice-nil p (contents mem))
  contents-write_some p (b ∷ bs) mem inside low =
      rw (write_some, to_uint32-eq p low) (lin.write_in mem p (b ∷ bs) inside).1

module _ (S : SnapshotStore) (L : LinearMemory) (lin : IsLinear L) {W : Type 0} where
  open lin use {contents}

  handle_download-eq :
      (p n : ℕ) (m : Machine S L W)
      → p + n ≤ length (contents m.memory)
      → m.session.download_eof ≡ false
      → handle_download S L (pos p) (pos n) m
        ≡ from_reader S L (pos p) n m.session.download_reader m
  unfolding handle_download
  handle_download-eq p n m inside unread =
      rw (unread, read_all L lin m.memory, download) (ground arith)

  handle_download-at :
      (p n : ℕ) (m : Machine S L W) {reader : Option Bytes}
      → p + n ≤ length (contents m.memory)
      → m.session.download_eof ≡ false
      → m.session.download_reader ≡ reader
      → handle_download S L (pos p) (pos n) m ≡ from_reader S L (pos p) n reader m
  handle_download-at p n m inside unread has =
      handle_download-eq p n m inside unread ∙ ap (λ r. from_reader S L (pos p) n r m) has

  -- A read of up to n bytes at p hands out the next bytes of the stream: it writes them to the
  -- memory, returns their number and keeps the rest.
  pub read_chunk-some :
      (p n : ℕ) (b : ℕ) (rest : Bytes) (m : Machine S L W)
      → p + n ≤ length (contents m.memory)
      → n < 2 ^ 31
      → p < 2 ^ 32
      → let r = read_chunk S L (pos p) n (b ∷ rest) m in
        (r.0 ≡ pos (min n (length (b ∷ rest))))
        × (contents r.1.memory ≡ splice p (take n (b ∷ rest)) (contents m.memory))
        × (r.1.session ≡ record m.session { download_reader = some (drop n (b ∷ rest)) })
        × (r.1.world ≡ m.world)
  unfolding read_chunk
  read_chunk-some p n b rest m inside small low =
      let bound = length-take n (b ∷ rest) in
      (
        to_int32-eq (length (take n (b ∷ rest))) (omega arith) ∙ ap pos bound,
        contents-write_some L lin p (take n (b ∷ rest)) m.memory (omega arith) low,
        refl,
        refl,
      )

  -- The machine whose reader holds the handler's answer.
  abbrev pub with_reader : Machine S L W → Bytes → W → Machine S L W
  with_reader m content world = record m {
    session = record m.session { download_reader = some content };
    world = world;
  }

  pub handle_download-open :
      (p n : ℕ) (m : Machine S L W) (handler : W → Result Bytes × W) (content : Bytes) (world : W)
      → p + n ≤ length (contents m.memory)
      → m.session.download_eof ≡ false
      → m.session.download_reader ≡ none
      → m.session.download_handler ≡ some handler
      → handler m.world ≡ (ok content, world)
      → handle_download S L (pos p) (pos n) m
        ≡ handle_download S L (pos p) (pos n) (with_reader m content world)
  unfolding from_reader open_reader opened read_chunk
  handle_download-open p n m handler content world inside unread closed has answer =
      handle_download-at p n m inside unread closed
      ∙ ap (λ h. open_reader S L (pos p) n h m) has
      ∙ ap (λ r. opened S L (pos p) n m r) answer
      ∙ sym (handle_download-eq p n (with_reader m content world) inside unread)

  -- The session remembers the end.
  pub handle_download-eof :
      (p n : ℕ) (m : Machine S L W)
      → m.session.download_eof ≡ true
      → handle_download S L (pos p) (pos n) m ≡ (pos 0, m)
  unfolding handle_download
  handle_download-eof p n m ended = rw ended refl

  -- There is no download handler.
  pub handle_download-none :
      (p n : ℕ) (m : Machine S L W)
      → p + n ≤ length (contents m.memory)
      → m.session.download_eof ≡ false
      → m.session.download_reader ≡ none
      → m.session.download_handler ≡ none
      → handle_download S L (pos p) (pos n) m ≡ (negsuc 0, m)
  unfolding from_reader open_reader
  handle_download-none p n m inside unread closed missing =
      handle_download-at p n m inside unread closed
      ∙ ap (λ h. open_reader S L (pos p) n h m) missing

  -- The download handler fails.
  pub handle_download-refused :
      (p n : ℕ) (m : Machine S L W) (handler : W → Result Bytes × W) (e : Error) (world : W)
      → p + n ≤ length (contents m.memory)
      → m.session.download_eof ≡ false
      → m.session.download_reader ≡ none
      → m.session.download_handler ≡ some handler
      → handler m.world ≡ (err e, world)
      → handle_download S L (pos p) (pos n) m ≡ (negsuc 0, record m { world = world })
  unfolding from_reader open_reader opened
  handle_download-refused p n m handler e world inside unread closed has refused =
      handle_download-at p n m inside unread closed
      ∙ ap (λ h. open_reader S L (pos p) n h m) has
      ∙ ap (λ r. opened S L (pos p) n m r) refused

  pub handle_download-end :
      (p n : ℕ) (m : Machine S L W)
      → p + n ≤ length (contents m.memory)
      → m.session.download_eof ≡ false
      → m.session.download_reader ≡ some []
      → handle_download S L (pos p) (pos n) m ≡ (
        pos 0,
        record m { session = record m.session { download_reader = none; download_eof = true } },
      )
  unfolding from_reader read_chunk
  handle_download-end p n m inside unread at_end = handle_download-at p n m inside unread at_end

  -- A read of up to n bytes at p hands out the next bytes of the stream: it writes them to the
  -- memory, returns their number and keeps the rest.
  pub handle_download-some :
      (p n : ℕ) (b : ℕ) (rest : Bytes) (m : Machine S L W)
      → p + n ≤ length (contents m.memory)
      → n < 2 ^ 31
      → p < 2 ^ 32
      → m.session.download_eof ≡ false
      → m.session.download_reader ≡ some (b ∷ rest)
      → let r = handle_download S L (pos p) (pos n) m in
        (r.0 ≡ pos (min n (length (b ∷ rest))))
        × (contents r.1.memory ≡ splice p (take n (b ∷ rest)) (contents m.memory))
        × (r.1.session ≡ record m.session { download_reader = some (drop n (b ∷ rest)) })
        × (r.1.world ≡ m.world)
  unfolding from_reader
  handle_download-some p n b rest m inside small low unread has =
      rw (handle_download-at p n m inside unread has)
        (read_chunk-some p n b rest m inside small low)
