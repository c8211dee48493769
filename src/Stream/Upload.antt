-- ===== src/Stream/Upload.antt =====
-- What a chunk and a flush of the upload stream do to the session.
use durable_wasm.Base.{
  ℕ, suc, ◌+◌, ◌^◌, ◌≤◌, ◌<◌, ◌≡◌, ◌∙◌, ap, refl, arith, false, Bytes, Option, none, some, [], ◌++◌,
  length, take, drop, if◌then◌else◌, ℤ, pos,
}
use durable_wasm.Types.{Error}
use durable_wasm.Store.{SnapshotStore}
use durable_wasm.Linear.{LinearMemory, IsLinear}
use durable_wasm.Linear.Whole.{read_all}
use durable_wasm.Session.{returns, Machine, Run}
use durable_wasm.Stream.{is_end, uploaded, flush, upload, upload_chunk, handle_upload}

module _ (S : SnapshotStore) (L : LinearMemory) (lin : IsLinear L) {W : Type 0} where
  open lin use {contents}

  handle_upload-eq :
      (p n : ℕ) (m : Machine S L W)
      → p + n ≤ length (contents m.memory)
      → handle_upload S L (pos p) (pos n) m ≡ upload_chunk S L (pos p) (pos n) (contents m.memory) m
  unfolding handle_upload
  handle_upload-eq p n m inside = rw (read_all L lin m.memory, upload) (ground arith)

  -- A chunk that is not empty is appended to the buffer.
  pub handle_upload-chunk :
      (p n : ℕ) (m : Machine S L W)
      → p + suc n ≤ length (contents m.memory)
      → p + suc n < 2 ^ 31
      → handle_upload S L (pos p) (pos (suc n)) m ≡ (
        returns (pos (suc n)),
        record m {
          session = record m.session {
            upload_buffer = m.session.upload_buffer ++ take (suc n) (drop p (contents m.memory));
          };
        },
      )
  unfolding upload_chunk
  handle_upload-chunk p n m inside low = handle_upload-eq p (suc n) m inside ∙ ground arith

  uploaded-machine :
      (m : Machine S L W) (r : Option Error × W)
      → (uploaded S L m r).1 ≡ record m {
        session = record m.session {
          upload_buffer = [];
          download_reader = none;
          download_eof = false;
        };
        world = r.1;
      }
  unfolding uploaded
  uploaded-machine m (none, world) = refl
  uploaded-machine m (some e, world) = refl

  -- A flush hands the handler the buffer, and clears the streams of the session whatever it answers.
  pub handle_upload-flush :
      (m : Machine S L W) (handler : Bytes → W → Option Error × W)
      → m.session.upload_handler ≡ some handler
      → is_end m.session.upload_buffer ≡ false
      → (handle_upload S L (pos 0) (pos 0) m).1 ≡ record m {
        session = record m.session {
          upload_buffer = [];
          download_reader = none;
          download_eof = false;
        };
        world = (handler m.session.upload_buffer m.world).1;
      }
  unfolding upload_chunk flush
  handle_upload-flush m handler has more =
      ap (λ (r : Run S L W ℤ). r.1)
        (handle_upload-eq 0 0 m (omega arith)
          ∙ ap (λ b. if b then (returns (pos 0), m) else flush S L m.session.upload_handler m) more
          ∙ ap (λ h. flush S L h m) has)
      ∙ uploaded-machine m (handler m.session.upload_buffer m.world)
