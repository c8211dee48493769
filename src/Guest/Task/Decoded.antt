-- ===== src/Guest/Task/Decoded.antt =====
-- RunTask decodes the variables that the download handler gives.
use durable_wasm.Base.{
  ℕ, zero, suc, ◌+◌, ◌^◌, ◌<◌, ◌≤◌, ◌≡◌, ◌⊎◌, inl, inr, ◌∙◌, sym, refl, ap, arith, false, Bytes,
  none, some, [], ◌∷◌, ◌++◌, nat_eq, length, length-drop, take-append-drop, take, drop,
}
use mathlib.Core.List.{append-nil, append_assoc}
use durable_wasm.Types.{Result, ok, err, text}
use durable_wasm.Store.{SnapshotStore}
use durable_wasm.Linear.{LinearMemory, IsLinear}
use durable_wasm.Session.{Session, Machine}
use durable_wasm.Stream.Download.{with_reader}
use durable_wasm.Guest.{Reading, bytes_read, end_of_file, read_failed, own_bytes, stream_read}
use durable_wasm.Guest.Download.{stream_read-open, stream_read-some, stream_read-end}
use durable_wasm.Guest.Task.{TaskRuntime, decode_from}

-- What a JSON decoder makes of a text that holds one value: nothing before it has read it, and the value
-- from there on.
pub record IsWhole {L : LinearMemory} (T : TaskRuntime L) (content : Bytes) (vars : T.Vars)
    : Type 0 where
  pub nothing : T.decode [] ≡ none
  pub part :
      (read rest : Bytes)
      → content ≡ read ++ rest
      → (T.decode read ≡ none) ⊎ (T.decode read ≡ some (ok vars))
  pub end : T.decode_end content ≡ ok vars

-- The decoder's buffers are not empty, and lie in a memory of `size` bytes, below 2 GiB.
abbrev pub HasRoom : {L : LinearMemory} → TaskRuntime L → ℕ → Type 0
HasRoom T size =
    (k : ℕ)
    → (0 < (T.room k).1)
      × ((T.room k).0 + (T.room k).1 ≤ size)
      × ((T.room k).0 < 2 ^ 31)
      × ((T.room k).1 < 2 ^ 31)

module _ (S : SnapshotStore) (L : LinearMemory) (lin : IsLinear L) {W : Type 0}
    (T : TaskRuntime L) where
  open lin use {contents}

  -- A read leaves the uploads and the world.
  abbrev pub KeepsUploads : Machine S L W → Machine S L W → Type 0
  KeepsUploads m m' =
      (m'.world ≡ m.world)
      × (m'.session.upload_buffer ≡ m.session.upload_buffer)
      × (m'.session.upload_handler ≡ m.session.upload_handler)

  decode_from-rest :
      (content : Bytes) (vars : T.Vars) (fuel : ℕ) (read rest : Bytes) (m : Machine S L W)
      → IsWhole T content vars
      → HasRoom T (length (contents m.memory))
      → content ≡ read ++ rest
      → length rest < fuel
      → m.session.download_eof ≡ false
      → m.session.download_reader ≡ some rest
      → let r = decode_from S L T fuel read m in (r.0 ≡ some (ok vars)) × KeepsUploads m r.1
  unfolding decode_from
  decode_from-rest content vars zero read rest m whole inside split fits unread has = elim fits [ ]
  decode_from-rest content vars (suc fuel) read [] m whole inside split fits unread has =
      let (some_room, room, low, small) = inside (length read) in
      let ended =
        stream_read-end S L lin (T.room (length read)).0 (T.room (length read)).1 some_room low
          small m room unread has in
      elim (whole.part read [] split) [
        | inr decided ↦ rw (decode_from, decided) (refl, (refl, refl, refl))
        | inl undecided ↦
            rw (decode_from, undecided, ap (λ r. r.0) ended)
              (
                ap (λ bytes. some (T.decode_end bytes)) (sym (split ∙ append-nil read))
                    ∙ ap some whole.end,
                (
                  ap (λ (r : Reading × Machine S L W). r.1.world) ended,
                  ap (λ (r : Reading × Machine S L W). r.1.session.upload_buffer) ended,
                  ap (λ (r : Reading × Machine S L W). r.1.session.upload_handler) ended,
                ),
              )
      ]
  decode_from-rest content vars (suc fuel) read (b ∷ rest) m whole inside split fits unread has =
      let (some_room, room, low, small) = inside (length read) in
      let ptr = (T.room (length read)).0 in
      let n = (T.room (length read)).1 in
      let (answer, holds, same, session, world) =
        stream_read-some S L lin ptr n some_room low small b rest m room unread has in
      elim (whole.part read (b ∷ rest) split) [
        | inr decided ↦ rw (decode_from, decided) (refl, (refl, refl, refl))
        | inl undecided ↦
            let chunk = take n (b ∷ rest) in
            let (decoded, (world', buffer, handler)) =
              decode_from-rest content vars fuel (read ++ chunk) (drop n (b ∷ rest))
                (stream_read S L ptr n m).1 whole (rw same inside)
                (split
                  ∙ ap (λ bytes. read ++ bytes) (sym (take-append-drop n (b ∷ rest)))
                  ∙ sym (append_assoc read chunk (drop n (b ∷ rest))))
                (omega (arith, length-drop n (b ∷ rest)))
                (ap (λ (s : Session W). s.download_eof) session ∙ unread)
                (ap (λ (s : Session W). s.download_reader) session) in
            rw (decode_from, undecided, answer, holds)
              (
                decoded,
                (
                  world' ∙ world,
                  buffer ∙ ap (λ (s : Session W). s.upload_buffer) session,
                  handler ∙ ap (λ (s : Session W). s.upload_handler) session,
                ),
              )
      ]

  -- The decoder reads on from what its first read leaves.
  pub decode_from-first :
      (fuel : ℕ) (m m' : Machine S L W)
      → T.decode [] ≡ none
      → stream_read S L (T.room 0).0 (T.room 0).1 m ≡ stream_read S L (T.room 0).0 (T.room 0).1 m'
      → decode_from S L T (suc fuel) [] m ≡ decode_from S L T (suc fuel) [] m'
  unfolding decode_from
  decode_from-first fuel m m' nothing e =
      rw (decode_from, nothing)
        (ap
          (λ (r : Reading × Machine S L W). elim r.0 [
            | bytes_read k ↦
                decode_from S L T fuel (own_bytes (L.read r.1.memory (T.room 0).0 k)) r.1
            | end_of_file ↦ (some (T.decode_end []), r.1)
            | read_failed ↦ (some (err (text "stream read error")), r.1)
          ])
          e)

  -- From an unread stream.
  pub decode_from-content :
      (content : Bytes) (vars : T.Vars) (fuel : ℕ) (m : Machine S L W)
      (handler : W → Result Bytes × W) (world : W)
      → IsWhole T content vars
      → HasRoom T (length (contents m.memory))
      → length content < fuel
      → m.session.download_eof ≡ false
      → m.session.download_reader ≡ none
      → m.session.download_handler ≡ some handler
      → handler m.world ≡ (ok content, world)
      → let r = decode_from S L T fuel [] m in
        (r.0 ≡ some (ok vars))
        × (r.1.world ≡ world)
        × (r.1.session.upload_buffer ≡ m.session.upload_buffer)
        × (r.1.session.upload_handler ≡ m.session.upload_handler)
  decode_from-content content vars zero m handler world whole inside fits unread closed has answer =
      elim fits [ ]
  decode_from-content content vars (suc fuel) m handler world whole inside fits unread closed has
        answer =
      let reader = with_reader S L lin m content world in
      let (some_room, room, low, small) = inside 0 in
      let same =
        stream_read-open S L lin (T.room 0).0 (T.room 0).1 some_room low small m handler content
          world room unread closed has answer in
      let (decoded, (world', buffer, uploads)) =
        decode_from-rest content vars (suc fuel) [] content reader whole inside refl fits unread
          refl in
      rw (decode_from-first fuel m reader whole.nothing same) (decoded, world', buffer, uploads)
