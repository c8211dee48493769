-- ===== src/Store/Objects/Contents.antt =====
-- The contents of an object store as a snapshot store has them, and what a change of one object does to
-- them.
use durable_wasm.Base.{
  ℕ, ◌≡◌, ◌≢◌, ◌∙◌, sym, refl, ap, Bytes, Option, none, some, lookup, ◌==◌, nat_eq, bytes_eq,
  if◌then◌else◌, Bool, true, false,
}
use durable_wasm.Types.{Result, ok, err, InstanceMeta}
use durable_wasm.Store.View.{View, View-ext, update}
use durable_wasm.Store.Memory.{or_nil}
use durable_wasm.Store.Codec.{Codec, Formats, and_then}
use durable_wasm.Store.Objects.{
  ObjectStore, Kind, snapshot, deltas, oplog, meta, active, wasm, object_key,
}
use durable_wasm.Store.Objects.Keys.{object_key-ne, object_key-eq, Kind-discrete}
use durable_wasm.Store.Objects.Lawful.{Stored, KeepsObjects}

-- What is stored in an object, if it can be decoded.
abbrev pub value : {A : Type 0} → Result A → Option A
value (ok a) = some a
value (err e) = none

abbrev pub part : {A : Type 0} → (Bytes → Result A) → Option Stored → Option A
part f none = none
part f (some o) = value (f o.body)

abbrev pub HasPart : {A : Type 0} → (Bytes → Result A) → Option Stored → Type 0
HasPart f none = Unit
HasPart {A} f (some o) = (a : A) × (f o.body ≡ ok a)

abbrev pub tagged : Bytes → Result InstanceMeta → Option InstanceMeta
tagged etag (ok m) = some (record m { etag = etag })
tagged etag (err e) = none

-- Metadata have the ETag of their object.
abbrev pub meta_part : (Bytes → Result InstanceMeta) → Option Stored → Option InstanceMeta
meta_part f none = none
meta_part f (some o) = tagged o.etag (f o.body)

pub if-ap :
    {A B : Type 0} (f : A → B) (b : Bool) (x y : A)
    → f (if b then x else y) ≡ (if b then f x else f y)
if-ap f true x y = refl
if-ap f false x y = refl

module _ (O : ObjectStore) (keeps : KeepsObjects O) (J : Formats) where
  abbrev pub object_at : Kind → Bytes → O.State → Option Stored
  object_at k id s = keeps.objects s (object_key k id)

  abbrev pub from_json : {A : Type 0} → Codec A → Bytes → Result A
  from_json C bytes = and_then (J.gzip.decode bytes) C.decode

  unfoldable pub contents : O.State → View
  contents s = record {
    snapshot = λ id. part J.gzip.decode (object_at snapshot id s);
    deltas = λ id i. lookup i (or_nil (part (from_json J.deltas) (object_at deltas id s)));
    oplog = λ id. or_nil (part (from_json J.oplog) (object_at oplog id s));
    meta = λ id. meta_part J.meta.decode (object_at meta id s);
    wasm = λ hash. part J.gzip.decode (object_at wasm hash s);
  }

  -- One object is put or deleted, and nothing else changes.
  abbrev pub Puts : Kind → Bytes → Option Stored → O.State → O.State → Type 0
  Puts k id new s s' =
      ((j : Bytes) → object_at k j s' ≡ (if j == id then new else object_at k j s))
      × ((l : Kind) (j : Bytes) → l ≢ k → object_at l j s' ≡ object_at l j s)

  pub Puts_lem :
      (k : Kind) (id : Bytes) (new : Option Stored) (s s' : O.State)
      → ((j : Bytes)
          → keeps.objects s' j ≡ (if j == object_key k id then new else keeps.objects s j))
      → Puts k id new s s'
  Puts_lem k id new s s' changed = (
    λ j.
        changed (object_key k j)
        ∙ ap (λ b. if b then new else keeps.objects s (object_key k j)) (object_key-eq k j id),
    λ l j other.
        changed (object_key l j)
        ∙ ap (λ b. if b then new else keeps.objects s (object_key l j))
            (object_key-ne l k j id other),
  )

  -- What the object of each kind holds, if there is one, can be decoded.
  abbrev pub Fine : Kind → Option Stored → Type 0
  Fine snapshot o = HasPart J.gzip.decode o
  Fine deltas o = HasPart (from_json J.deltas) o
  Fine oplog o = HasPart (from_json J.oplog) o
  Fine meta o = HasPart J.meta.decode o
  Fine active o = Unit
  Fine wasm o = HasPart J.gzip.decode o

  abbrev pub Readable : O.State → Type 0
  Readable s = (k : Kind) (id : Bytes) → Fine k (object_at k id s)

  Fine-if :
      (k : Kind) (b : Bool) (new old : Option Stored)
      → Fine k new
      → Fine k old
      → Fine k (if b then new else old)
  Fine-if k true new old f g = f
  Fine-if k false new old f g = g

  pub Puts-Readable :
      (k : Kind) (id : Bytes) (new : Option Stored) (s s' : O.State)
      → Puts k id new s s'
      → Fine k new
      → Readable s
      → Readable s'
  Puts-Readable k id new s s' puts fine readable l j = elim (Kind-discrete l k) [
    | yes same ↦ rw (same, puts.0 j) (Fine-if k (j == id) new (object_at k j s) fine (readable k j))
    | no other ↦ rw (puts.1 l j other) (readable l j)
  ]

  module _ (id : Bytes) (new : Option Stored) (s s' : O.State) where
    pub contents-snapshot :
        Puts snapshot id new s s'
        → contents s' ≡ record (contents s) {
          snapshot = update id (part J.gzip.decode new) (contents s).snapshot;
        }
    unfolding contents
    contents-snapshot (same, other) =
        View-ext _ _
          (λ j. ap (part J.gzip.decode) (same j) ∙ if-ap (part J.gzip.decode) (j == id) new _)
          (λ j i. rw (other deltas j (λ p. cc)) refl) (λ j. rw (other oplog j (λ p. cc)) refl)
          (λ j. rw (other meta j (λ p. cc)) refl) (λ j. rw (other wasm j (λ p. cc)) refl)

    pub contents-deltas :
        Puts deltas id new s s'
        → contents s' ≡ record (contents s) {
          deltas =
              update id
                (λ i. lookup i (or_nil (part (from_json J.deltas) new)))
                (contents s).deltas;
        }
    unfolding contents
    contents-deltas (same, other) =
        View-ext _ _ (λ j. rw (other snapshot j (λ p. cc)) refl)
          (λ j i.
            let f = λ (o : Option Stored). lookup i (or_nil (part (from_json J.deltas) o)) in
            ap f (same j)
            ∙ if-ap f (j == id) new _
            ∙ sym (if-ap (λ (g : ℕ → Option Bytes). g i) (j == id) _ _))
          (λ j. rw (other oplog j (λ p. cc)) refl) (λ j. rw (other meta j (λ p. cc)) refl)
          (λ j. rw (other wasm j (λ p. cc)) refl)

    pub contents-oplog :
        Puts oplog id new s s'
        → contents s' ≡ record (contents s) {
          oplog = update id (or_nil (part (from_json J.oplog) new)) (contents s).oplog;
        }
    unfolding contents
    contents-oplog (same, other) =
        View-ext _ _ (λ j. rw (other snapshot j (λ p. cc)) refl)
          (λ j i. rw (other deltas j (λ p. cc)) refl)
          (λ j.
            let f = λ (o : Option Stored). or_nil (part (from_json J.oplog) o) in
            ap f (same j) ∙ if-ap f (j == id) new _)
          (λ j. rw (other meta j (λ p. cc)) refl) (λ j. rw (other wasm j (λ p. cc)) refl)

    pub contents-meta :
        Puts meta id new s s'
        → contents s'
          ≡ record (contents s) { meta = update id (meta_part J.meta.decode new) (contents s).meta }
    unfolding contents
    contents-meta (same, other) =
        View-ext _ _ (λ j. rw (other snapshot j (λ p. cc)) refl)
          (λ j i. rw (other deltas j (λ p. cc)) refl) (λ j. rw (other oplog j (λ p. cc)) refl)
          (λ j.
            ap (meta_part J.meta.decode) (same j) ∙ if-ap (meta_part J.meta.decode) (j == id) new _)
          (λ j. rw (other wasm j (λ p. cc)) refl)

    pub contents-wasm :
        Puts wasm id new s s'
        → contents s'
          ≡ record (contents s) { wasm = update id (part J.gzip.decode new) (contents s).wasm }
    unfolding contents
    contents-wasm (same, other) =
        View-ext _ _ (λ j. rw (other snapshot j (λ p. cc)) refl)
          (λ j i. rw (other deltas j (λ p. cc)) refl) (λ j. rw (other oplog j (λ p. cc)) refl)
          (λ j. rw (other meta j (λ p. cc)) refl)
          (λ j. ap (part J.gzip.decode) (same j) ∙ if-ap (part J.gzip.decode) (j == id) new _)

    -- The entry of the active index is no part of the contents.
    pub contents-active : Puts active id new s s' → contents s' ≡ contents s
    unfolding contents
    contents-active (same, other) =
        View-ext _ _ (λ j. rw (other snapshot j (λ p. cc)) refl)
          (λ j i. rw (other deltas j (λ p. cc)) refl) (λ j. rw (other oplog j (λ p. cc)) refl)
          (λ j. rw (other meta j (λ p. cc)) refl) (λ j. rw (other wasm j (λ p. cc)) refl)
