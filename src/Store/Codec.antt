-- ===== src/Store/Codec.antt =====
-- The encodings that the stores on files and on objects share: gzip, which Compress makes of
-- compress.go, and `encoding/json` at the types that are stored. An encoding is a parameter.
use durable_wasm.Base.{ℕ, ◌≡◌, refl, Bytes, Option, none, some, List, Map}
use durable_wasm.Types.{Result, ok, err, InstanceMeta, OplogEntry}
use durable_wasm.Store.Memory.{IndexJson}

-- compressData and decompressData, or `json.Marshal` and `json.Unmarshal` at a type.
pub record Codec (A : Type 0) : Type 0 where
  pub encode : A → Result Bytes
  pub decode : Bytes → Result A

pub record Formats : Type 1 where
  pub gzip : Codec Bytes
  pub deltas : Codec (Map ℕ Bytes)
  pub oplog : Codec (List OplogEntry)
  pub meta : Codec InstanceMeta
  pub index : IndexJson

-- A result and what is done with its value.
abbrev pub and_then : {A B : Type 0} → Result A → (A → Result B) → Result B
and_then (ok a) f = f a
and_then (err e) f = err e

-- `_ = json.Unmarshal(data, &v)`: the zero value stays where there is an error.
abbrev pub or_zero : {A : Type 0} → A → Result (Option A) → A
or_zero zero_value (ok (some a)) = a
or_zero zero_value (ok none) = zero_value
or_zero zero_value (err e) = zero_value

-- The value that a load gives where there is no file.
abbrev pub or_missing : {A : Type 0} → A → Result (Option A) → Result A
or_missing missing (ok (some a)) = ok a
or_missing missing (ok none) = ok missing
or_missing missing (err e) = err e

-- What was encoded is decoded to what it was.
abbrev pub IsLossless : {A : Type 0} → Codec A → Type 0
IsLossless {A} C = (a : A) (bytes : Bytes) → C.encode a ≡ ok bytes → C.decode bytes ≡ ok a

pub and_then-ok :
    {A B : Type 0} (r : Result A) (f : A → Result B) (b : B)
    → and_then r f ≡ ok b
    → (a : A) × (r ≡ ok a) × (f a ≡ ok b)
and_then-ok (ok a) f b h = (a, refl, h)
and_then-ok (err e) f b h = absurd (cc h)
