-- ===== src/Store/Objects/Keys.antt =====
-- The keys of s3_store.go: two objects have one key only if they are of one kind, and of one instance
-- or module.
use durable_wasm.Base.{
  ◌≡◌, ◌≢◌, ◌∙◌, sym, ap, Bytes, str, Option, none, some, ◌∷◌, ◌++◌, ◌==◌, nat_eq, bytes_eq,
  if◌then◌else◌, false, Bool-cases, inl, inr, ==-eq, ==-refl,
}
use mathlib.Core.List.{
  reverse, reverse-append, append_assoc, append_cancel_left, append_cancel_right,
}
use durable_wasm.Store.Objects.{Kind, snapshot, deltas, oplog, meta, active, wasm, object_key}

pub Kind-discrete : Discrete Kind
Kind-discrete = hlevel

-- The kind of an object by the last bytes of its key, read from the end.
before_json : Bytes → Option Kind
before_json (_ ∷ (_ ∷ (_ ∷ (c ∷ name)))) =
    if c == b's'
    then some deltas
    else if c == b'g'
    then some oplog
    else if c == b'a'
    then some meta
    else if c == b'e'
    then some active
    else none
before_json _ = none

kind_by_end : Bytes → Option Kind
unfolding before_json
kind_by_end (_ ∷ (c ∷ name)) =
    if c == b'i' then some snapshot else if c == b's' then some wasm else before_json name
kind_by_end _ = none

kind_of : Bytes → Option Kind
unfolding kind_by_end
kind_of key = kind_by_end (reverse key)

reverse_end :
    (start id ending : Bytes)
    → reverse (start ++ (id ++ ending)) ≡ reverse ending ++ reverse (start ++ id)
reverse_end start id ending =
    ap reverse (sym (append_assoc start id ending)) ∙ reverse-append (start ++ id) ending

kind_of-object_key : (k : Kind) (id : Bytes) → kind_of (object_key k id) ≡ some k
unfolding kind_of object_key nat_eq
kind_of-object_key snapshot id =
    ap kind_by_end (reverse_end (str "instances/") id (str "/snapshot.bin"))
kind_of-object_key deltas id =
    ap kind_by_end (reverse_end (str "instances/") id (str "/deltas.json"))
kind_of-object_key oplog id = ap kind_by_end (reverse_end (str "instances/") id (str "/oplog.json"))
kind_of-object_key meta id = ap kind_by_end (reverse_end (str "instances/") id (str "/meta.json"))
kind_of-object_key active id =
    ap kind_by_end (reverse_end (str "instances/") id (str "/active.json"))
kind_of-object_key wasm id = ap kind_by_end (reverse_end (str "wasm/") id (str ".wasm"))

between : (start a b ending : Bytes) → start ++ (a ++ ending) ≡ start ++ (b ++ ending) → a ≡ b
between start a b ending h = append_cancel_right a b ending (append_cancel_left start _ _ h)

object_key-injective : (k : Kind) (a b : Bytes) → object_key k a ≡ object_key k b → a ≡ b
unfolding object_key
object_key-injective snapshot a b h = between (str "instances/") a b (str "/snapshot.bin") h
object_key-injective deltas a b h = between (str "instances/") a b (str "/deltas.json") h
object_key-injective oplog a b h = between (str "instances/") a b (str "/oplog.json") h
object_key-injective meta a b h = between (str "instances/") a b (str "/meta.json") h
object_key-injective active a b h = between (str "instances/") a b (str "/active.json") h
object_key-injective wasm a b h = between (str "wasm/") a b (str ".wasm") h

==-of_ne : (a b : Bytes) → a ≢ b → (a == b) ≡ false
==-of_ne a b other = elim (Bool-cases (a == b)) [
  | inl same ↦ absurd (other (==-eq a b same))
  | inr differ ↦ differ
]

-- Objects of two kinds have two keys.
pub object_key-ne : (j k : Kind) (a b : Bytes) → j ≢ k → (object_key j a == object_key k b) ≡ false
object_key-ne j k a b other =
    ==-of_ne (object_key j a) (object_key k b)
      (λ same. other (cc (kind_of-object_key j a, kind_of-object_key k b, ap kind_of same)))

-- Objects of one kind have the same key just where they have the same name.
pub object_key-eq : (k : Kind) (a b : Bytes) → (object_key k a == object_key k b) ≡ (a == b)
object_key-eq k a b = elim (Bool-cases (a == b)) [
  | inl same ↦
      ap (λ (x : Bytes). object_key k x == object_key k b) (==-eq a b same)
      ∙ ==-refl (object_key k b)
      ∙ sym same
  | inr differ ↦
      ==-of_ne (object_key k a) (object_key k b) (λ h.
        absurd (cc (differ, ap (λ (x : Bytes). x == b) (object_key-injective k a b h), ==-refl b)))
      ∙ sym differ
]
