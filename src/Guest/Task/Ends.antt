-- ===== src/Guest/Task/Ends.antt =====
-- RunTask comes to an end: the decoder reads on, but no longer than there are bytes.
use durable_wasm.Base.{
  ℕ, zero, suc, ◌<◌, ◌≡◌, inl, inr, ◌∙◌, refl, ap, arith, Bool-cases, false, Bytes, Option, none,
  some, Option-cases, [], ◌∷◌, ◌++◌, nat_eq, length, length-drop, take, drop, ℤ, negsuc,
}
use durable_wasm.Types.{Error, text, Result, ok, err}
use durable_wasm.Store.{SnapshotStore}
use durable_wasm.Linear.{LinearMemory, IsLinear}
use durable_wasm.Session.{Session, Outcome, returns, Machine}
use durable_wasm.Stream.Download.{with_reader}
use durable_wasm.Guest.{Reading, end_of_file, read_failed, stream_read}
use durable_wasm.Guest.Download.{
  stream_read-eof, stream_read-none, stream_read-refused, stream_read-open, stream_read-some,
  stream_read-end,
}
use durable_wasm.Guest.Task.{TaskRuntime, decode_from, after_handler, after_decode, run_task}
use durable_wasm.Guest.Task.Decoded.{HasRoom, decode_from-first}

-- The bytes that a download handler gives.
abbrev answered : {W : Type 0} → Result Bytes × W → ℕ
answered (ok content, world) = length content
answered (err e, world) = 0

abbrev from_handler : {W : Type 0} → Option (W → Result Bytes × W) → W → ℕ
from_handler none world = 0
from_handler (some handler) world = answered (handler world)

abbrev unread : {W : Type 0} → Option Bytes → Option (W → Result Bytes × W) → W → ℕ
unread none handler world = from_handler handler world
unread (some rest) handler world = length rest

module _ (S : SnapshotStore) (L : LinearMemory) (lin : IsLinear L) {W : Type 0}
    (T : TaskRuntime L) where
  open lin use {contents}

  -- How many bytes the stream has for the guest.
  abbrev pub available : Machine S L W → ℕ
  available m = unread m.session.download_reader m.session.download_handler m.world

  abbrev Ends : ℕ → Bytes → Machine S L W → Type 0
  Ends fuel read m = (result : Result T.Vars) × ((decode_from S L T fuel read m).0 ≡ some result)

  -- A read that gives no bytes is the last one.
  Ends-eof :
      (fuel : ℕ) (read : Bytes) (m m' : Machine S L W)
      → stream_read S L (T.room (length read)).0 (T.room (length read)).1 m ≡ (end_of_file, m')
      → Ends (suc fuel) read m
  unfolding decode_from
  Ends-eof fuel read m m' e = elim (Option-cases (T.decode read)) [
    | inl undecided ↦ (
      T.decode_end read,
      rw (decode_from, undecided, ap (λ (r : Reading × Machine S L W). r.0) e) refl,
    )
    | inr (result, decided) ↦ (result, rw (decode_from, decided) refl)
  ]

  Ends-failed :
      (fuel : ℕ) (read : Bytes) (m m' : Machine S L W)
      → stream_read S L (T.room (length read)).0 (T.room (length read)).1 m ≡ (read_failed, m')
      → Ends (suc fuel) read m
  unfolding decode_from
  Ends-failed fuel read m m' e = elim (Option-cases (T.decode read)) [
    | inl undecided ↦ (
      err (text "stream read error"),
      rw (decode_from, undecided, ap (λ (r : Reading × Machine S L W). r.0) e) refl,
    )
    | inr (result, decided) ↦ (result, rw (decode_from, decided) refl)
  ]

  Ends-rest :
      (fuel : ℕ) (read rest : Bytes) (m : Machine S L W)
      → HasRoom T (length (contents m.memory))
      → length rest < fuel
      → m.session.download_eof ≡ false
      → m.session.download_reader ≡ some rest
      → Ends fuel read m
  unfolding decode_from
  Ends-rest zero read rest m inside fits active has = elim fits [ ]
  Ends-rest (suc fuel) read [] m inside fits active has =
      let (some_room, room, low, small) = inside (length read) in
      Ends-eof fuel read m _ (
        stream_read-end S L lin (T.room (length read)).0 (T.room (length read)).1 some_room low
          small m room active has)
  Ends-rest (suc fuel) read (b ∷ rest) m inside fits active has =
      let (some_room, room, low, small) = inside (length read) in
      let ptr = (T.room (length read)).0 in
      let n = (T.room (length read)).1 in
      let (answer, holds, same, session, world) =
        stream_read-some S L lin ptr n some_room low small b rest m room active has in
      let (result, ended) =
        Ends-rest fuel (read ++ take n (b ∷ rest)) (drop n (b ∷ rest)) (stream_read S L ptr n m).1
          (rw same inside) (omega (arith, length-drop n (b ∷ rest)))
          (ap (λ (s : Session W). s.download_eof) session ∙ active)
          (ap (λ (s : Session W). s.download_reader) session) in
      elim (Option-cases (T.decode read)) [
        | inl undecided ↦ (result, rw (decode_from, undecided, answer, holds) ended)
        | inr (result', decided) ↦ (result', rw (decode_from, decided) refl)
      ]

  -- The first read runs the download handler.
  Ends-handler :
      (fuel : ℕ) (m : Machine S L W) (handler : W → Result Bytes × W) (r : Result Bytes × W)
      → HasRoom T (length (contents m.memory))
      → answered r < suc fuel
      → m.session.download_eof ≡ false
      → m.session.download_reader ≡ none
      → m.session.download_handler ≡ some handler
      → handler m.world ≡ r
      → Ends (suc fuel) [] m
  unfolding decode_from
  Ends-handler fuel m handler (err e, world) inside fits active closed has refused =
      let (some_room, room, low, small) = inside 0 in
      Ends-failed fuel [] m _ (
        stream_read-refused S L lin (T.room 0).0 (T.room 0).1 some_room low small m handler e world
          room active closed has refused)
  Ends-handler fuel m handler (ok content, world) inside fits active closed has answer =
      let (some_room, room, low, small) = inside 0 in
      let reader = with_reader S L lin m content world in
      let same =
        stream_read-open S L lin (T.room 0).0 (T.room 0).1 some_room low small m handler content
          world room active closed has answer in
      elim (Option-cases (T.decode [])) [
        | inl undecided ↦
            let (result, ended) = Ends-rest (suc fuel) [] content reader inside fits active refl in
            (
              result,
              ap (λ r. r.0) (decode_from-first S L lin T fuel m reader undecided same) ∙ ended,
            )
        | inr (result, decided) ↦ (result, rw (decode_from, decided) refl)
      ]

  Ends-available :
      (fuel : ℕ) (m : Machine S L W)
      → HasRoom T (length (contents m.memory))
      → available m < fuel
      → Ends fuel [] m
  Ends-available zero m inside fits = absurd (omega arith)
  Ends-available (suc fuel) m inside fits =
      let (some_room, room, low, small) = inside 0 in
      let reads = stream_read S L (T.room 0).0 (T.room 0).1 m in
      elim (Bool-cases m.session.download_eof) [
        | inl ended ↦
            Ends-eof fuel [] m m
              (stream_read-eof S L lin (T.room 0).0 (T.room 0).1 some_room low small m ended)
        | inr active ↦ elim (Option-cases m.session.download_reader) [
          | inr (rest, has) ↦
              let left = ap (λ r. unread r m.session.download_handler m.world) has in
              Ends-rest (suc fuel) [] rest m inside (omega (arith, left)) active has
          | inl closed ↦
              let left = ap (λ r. unread r m.session.download_handler m.world) closed in
              elim (Option-cases m.session.download_handler) [
                | inl missing ↦ Ends-failed fuel [] m m (
                    stream_read-none S L lin (T.room 0).0 (T.room 0).1 some_room low small m room
                      active closed missing)
                | inr (handler, has) ↦
                    let bytes = ap (λ h. from_handler h m.world) has in
                    Ends-handler fuel m handler (handler m.world) inside
                      (omega (arith, left, bytes)) active closed has refl
              ]
        ]
      ]

  Ends-decoded :
      (task : T.Vars → Machine S L W → Option Error × T.Vars × Machine S L W)
      (result : Result T.Vars) (r : Option (Result T.Vars) × Machine S L W)
      → r.0 ≡ some result
      → (status : Outcome ℤ) × ((after_decode S L T task r).0 ≡ some status)
  unfolding after_decode
  Ends-decoded task (err e) r decoded = (returns (negsuc 0), rw decoded refl)
  Ends-decoded task (ok vars) r decoded = ((after_handler S L T (task vars r.1)).0, rw decoded refl)

  -- RunTask comes to an end on every machine, with any decoder and any handler of the task, also
  -- where the download handler is missing or fails: with more fuel than there are bytes in the
  -- reader or in the download handler's answer it gives a status, if the decoder's buffers are not
  -- empty and lie in the memory, below 2 GiB.
  pub run_task-ends :
      (task : T.Vars → Machine S L W → Option Error × T.Vars × Machine S L W) (fuel : ℕ)
      (m : Machine S L W)
      → HasRoom T (length (contents m.memory))
      → available m < fuel
      → (status : Outcome ℤ) × ((run_task S L T fuel task m).0 ≡ some status)
  unfolding run_task
  run_task-ends task fuel m inside fits =
      let (result, ended) = Ends-available fuel m inside fits in
      Ends-decoded task result (decode_from S L T fuel [] m) ended
