-- ===== src/Engine/Restore/Bytewise.antt =====
-- What laying deltas over a memory leaves, byte by byte.
use durable_wasm.Base.{
  lookup-insert, ℕ, ◌+◌, ◌*◌, ◌/◌, ◌%◌, ◌≤◌, ◌<◌, ◌≡◌, ◌≢◌, ◌∙◌, refl, ap, arith, Bytes, Option,
  none, some, [], ◌∷◌, Map, lookup, NodupKeys, nat_eq, length, get_elem?, splice, length-splice,
  get_elem?-splice_in, get_elem?-splice_out,
}
use durable_wasm.Engine.Blocks.{fnv64a}
use durable_wasm.Engine.Restore.Overlay.{overlay, max_index, hash_deltas}

-- Byte k of a memory in whose block a delta may stand.
abbrev pub byte_at : Bytes → Option Bytes → ℕ → Option ℕ
byte_at base none k = get_elem? base k
byte_at base (some d) k = get_elem? d (k % 4096)

-- Every delta is a whole block within the first n bytes.
abbrev pub Fits : (ℕ → Option Bytes) → ℕ → Type 0
Fits deltas n = (i : ℕ) (d : Bytes) → deltas i ≡ some d → (length d ≡ 4096) × (i * 4096 + 4096 ≤ n)

module _ (i : ℕ) (d bytes : Bytes) (whole : length d ≡ 4096)
    (fits : i * 4096 + 4096 ≤ length bytes) where
  splice_same :
      (k : ℕ) → k / 4096 ≡ i → get_elem? (splice (i * 4096) d bytes) k ≡ get_elem? d (k % 4096)
  splice_same k p =
      ap (get_elem? (splice (i * 4096) d bytes)) (omega arith)
      ∙ get_elem?-splice_in (i * 4096) d bytes (k % 4096) (omega arith) (omega arith)

  splice_other :
      (k : ℕ) → k / 4096 ≢ i → get_elem? (splice (i * 4096) d bytes) k ≡ get_elem? bytes k
  splice_other k p = get_elem?-splice_out (i * 4096) d bytes k (grind arith)

Fits-head :
    (i : ℕ) (d : Bytes) (ds : Map ℕ Bytes) (n : ℕ)
    → Fits (λ j. lookup j ((i, d) ∷ ds)) n
    → (length d ≡ 4096) × (i * 4096 + 4096 ≤ n)
unfolding lookup nat_eq
Fits-head i d ds n fits = ground (arith, fits i d)

Fits-tail :
    (i : ℕ) (d : Bytes) (ds : Map ℕ Bytes) (n : ℕ)
    → lookup i ds ≡ none
    → Fits (λ j. lookup j ((i, d) ∷ ds)) n
    → Fits (λ j. lookup j ds) n
unfolding lookup nat_eq
Fits-tail i d ds n fresh fits j e h = ground (arith, fits j e)

overlay_byte :
    (i : ℕ) (d : Bytes) (ds : Map ℕ Bytes) (bytes out : Bytes) (k : ℕ)
    → length d ≡ 4096
    → i * 4096 + 4096 ≤ length out
    → get_elem? out k ≡ byte_at bytes (lookup (k / 4096) ds) k
    → get_elem? (splice (i * 4096) d out) k ≡ byte_at bytes (lookup (k / 4096) ((i, d) ∷ ds)) k
unfolding lookup nat_eq
overlay_byte i d ds bytes out k whole room at =
    ground (arith, splice_same i d out whole room k, splice_other i d out whole room k)

-- If all deltas fit, no copy runs past the end, and afterwards a byte stands in the delta of its
-- block if there is one, and is the old byte if there is none.
pub overlay_lem :
    (ds : Map ℕ Bytes) (bytes : Bytes)
    → NodupKeys ds
    → Fits (λ i. lookup i ds) (length bytes)
    → (out : Bytes) × (overlay ds bytes ≡ some out)
      × (length out ≡ length bytes)
      × ((k : ℕ) → k < length bytes → get_elem? out k ≡ byte_at bytes (lookup (k / 4096) ds) k)
unfolding overlay lookup
overlay_lem [] bytes u fits = (bytes, refl, refl, λ k h. refl)
overlay_lem ((i, d) ∷ ds) bytes (fresh, u) fits =
    let (out, done, same, at) = overlay_lem ds bytes u (Fits-tail i d ds _ fresh fits) in
    let (whole, room) = Fits-head i d ds _ fits in
    (
      splice (i * 4096) d out,
      rw done (ground arith),
      length-splice (i * 4096) d out ∙ same,
      λ k h. overlay_byte i d ds bytes out k whole (omega arith) (at k h),
    )

-- The hash of a delta goes over the one of the snapshot.
abbrev pub hash_or : Option Bytes → Option ℕ → Option ℕ
hash_or none old = old
hash_or (some d) old = some (fnv64a d)

pub lookup-hash_deltas :
    (j : ℕ) (ds : Map ℕ Bytes) (hashes : Map ℕ ℕ)
    → lookup j (hash_deltas ds hashes) ≡ hash_or (lookup j ds) (lookup j hashes)
unfolding hash_deltas lookup
lookup-hash_deltas j [] hashes = refl
lookup-hash_deltas j ((i, d) ∷ ds) hashes =
    ground
      (arith, lookup-insert j i (fnv64a d) (hash_deltas ds hashes), lookup-hash_deltas j ds hashes)

-- The largest index bounds the others, and lies in range itself.
pub le-max_index : (ds : Map ℕ Bytes) (i : ℕ) (d : Bytes) → lookup i ds ≡ some d → i ≤ max_index ds
unfolding max_index lookup nat_eq
le-max_index [] i d h = cc
le-max_index ((j, e) ∷ ds) i d h = ground (arith, le-max_index ds i d)

pub max_index-Fits :
    (ds : Map ℕ Bytes) (i : ℕ) (d : Bytes) (n : ℕ)
    → NodupKeys ((i, d) ∷ ds)
    → Fits (λ j. lookup j ((i, d) ∷ ds)) n
    → max_index ((i, d) ∷ ds) * 4096 + 4096 ≤ n
unfolding max_index
max_index-Fits [] i d n u fits = let (whole, room) = Fits-head i d [] n fits in omega arith
max_index-Fits ((j, e) ∷ ds) i d n (fresh, u) fits =
    let (whole, room) = Fits-head i d ((j, e) ∷ ds) n fits in
    omega (arith, max_index-Fits ds j e n u (Fits-tail i d ((j, e) ∷ ds) n fresh fits))
