-- ===== src/Context.antt =====
-- types.go and wasman.go: what a context.Context carries for the engine, by the keys that the package
-- declares. Each key is a type of its own, so a value stands under no other key.
use durable_wasm.Base.{Bool, true, false, Bytes, Option, none, some}
use durable_wasm.Types.{Error, Result}

-- The handlers act on `W`. `err` is the context's `Err`, which the world decides (a cancellation, a
-- deadline).
pub record Context (W : Type 0) : Type 0 where
  pub api_handler : Option (Bytes → Bytes → W → Result (Option Bytes) × W)
  pub download_handler : Option (W → Result Bytes × W)
  pub upload_handler : Option (Bytes → W → Option Error × W)
  pub keep_alive : Option Bool
  pub err : W → Option Error

-- `context.Background()`
abbrev pub background : {W : Type 0} → Context W
background = record {
  api_handler = none;
  download_handler = none;
  upload_handler = none;
  keep_alive = none;
  err = λ w. none;
}

module _ {W : Type 0} where
  abbrev pub with_api_handler :
      Context W → (Bytes → Bytes → W → Result (Option Bytes) × W) → Context W
  with_api_handler ctx h = record ctx { api_handler = some h }

  abbrev pub with_download_handler : Context W → (W → Result Bytes × W) → Context W
  with_download_handler ctx h = record ctx { download_handler = some h }

  abbrev pub with_upload_handler : Context W → (Bytes → W → Option Error × W) → Context W
  with_upload_handler ctx h = record ctx { upload_handler = some h }

  abbrev pub get_api_handler : Context W → Option (Bytes → Bytes → W → Result (Option Bytes) × W)
  get_api_handler ctx = ctx.api_handler

  abbrev pub get_download_handler : Context W → Option (W → Result Bytes × W)
  get_download_handler ctx = ctx.download_handler

  abbrev pub get_upload_handler : Context W → Option (Bytes → W → Option Error × W)
  get_upload_handler ctx = ctx.upload_handler

  abbrev pub with_keep_alive : Context W → Context W
  with_keep_alive ctx = record ctx { keep_alive = some true }

  abbrev pub is_keep_alive : Context W → Bool
  is_keep_alive ctx = elim ctx.keep_alive [ none ↦ false | some b ↦ b ]
