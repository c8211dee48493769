-- ===== src/Engine/Blocks/Bytewise.antt =====
-- A block, byte by byte.
use durable_wasm.Base.{
  ℕ, ◌+◌, ◌*◌, ◌/◌, ◌%◌, ◌<◌, ◌≤◌, ◌≡◌, ◌∙◌, ap, arith, Bytes, get_elem?, get_elem?-take,
  get_elem?-drop, length, length-take, length-drop, drop,
}
use durable_wasm.Engine.Blocks.{block}

pub get_elem?-block :
    (i : ℕ) (bytes : Bytes) (r : ℕ)
    → r < 4096
    → get_elem? (block i bytes) r ≡ get_elem? bytes (i * 4096 + r)
unfolding block
get_elem?-block i bytes r h = get_elem?-take 4096 _ r h ∙ get_elem?-drop (i * 4096) bytes r

-- Byte k stands in block k / 4096 at k % 4096.
pub get_elem?-in_block :
    (bytes : Bytes) (k : ℕ) → get_elem? (block (k / 4096) bytes) (k % 4096) ≡ get_elem? bytes k
get_elem?-in_block bytes k =
    get_elem?-block (k / 4096) bytes (k % 4096) (omega arith) ∙ ap (get_elem? bytes) (omega arith)

pub length-block :
    (i : ℕ) (bytes : Bytes) → i * 4096 + 4096 ≤ length bytes → length (block i bytes) ≡ 4096
unfolding block
length-block i bytes h =
    omega (arith, length-take 4096 (drop (i * 4096) bytes), length-drop (i * 4096) bytes)
