-- ===== src/Base/Text.antt =====
-- Go's strings and byte slices are both lists of bytes. A literal is written as the text that it is.
use Prim.Native.Nat.{ℕ, ◌+◌}
use Prim.Native.Char.{code}
use Prim.Native.String.{String}
use mathlib.Core.Bool.{Bool, true, false, ◌&&◌, ◌||◌}
use mathlib.Core.List.{List, [], ◌∷◌, ◌++◌, reverse, map}
use mathlib.Core.Path.{◌≡◌, refl}
use mathlib.Core.Logic.{inl, inr}
use durable_wasm.Base.Tests.{leb, if◌then◌else◌, Bool-cases}
use durable_wasm.Base.Equality.{◌==◌, ==-refl, nat_eq}

abbrev pub Bytes : Type 0
Bytes = List ℕ

-- The bytes of an ASCII literal.
abbrev pub str : String → Bytes
str String.[] = []
str (String.◌∷◌ c s) = code c ∷ str s

-- `strings.HasPrefix` and `strings.Contains`
abbrev pub has_prefix : Bytes → Bytes → Bool
has_prefix s [] = true
has_prefix [] (p ∷ ps) = false
has_prefix (c ∷ s) (p ∷ ps) = c == p && has_prefix s ps

abbrev pub contains : Bytes → Bytes → Bool
contains [] p = has_prefix [] p
contains (c ∷ s) p = has_prefix (c ∷ s) p || contains s p

-- `strings.HasSuffix`
abbrev pub has_suffix : Bytes → Bytes → Bool
has_suffix s p = has_prefix (reverse s) (reverse p)

-- `strings.ToLower` on an ASCII text
abbrev pub lower : ℕ → ℕ
lower c = if leb 65 c && leb c 90 then c + 32 else c

abbrev pub to_lower : Bytes → Bytes
to_lower = map lower

has_prefix-append : (p post : Bytes) → has_prefix (p ++ post) p ≡ true
has_prefix-append [] [] = refl
has_prefix-append [] (c ∷ post) = refl
has_prefix-append (c ∷ p) post = rw (==-refl c) (has_prefix-append p post)

contains-start : (p post : Bytes) → contains (p ++ post) p ≡ true
contains-start [] [] = refl
contains-start [] (c ∷ post) = refl
contains-start (c ∷ p) post = rw (has_prefix-append (c ∷ p) post) refl

-- A text has each of its parts in it.
pub contains-middle : (pre p post : Bytes) → contains (pre ++ (p ++ post)) p ≡ true
contains-middle [] p post = contains-start p post
contains-middle (c ∷ pre) p post = elim (Bool-cases (has_prefix (c ∷ (pre ++ (p ++ post))) p)) [
  | inl at_start ↦ rw at_start refl
  | inr later ↦ rw (later, contains-middle pre p post) refl
]
