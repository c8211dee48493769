-- ===== src/Engine/Recovery/Grow.antt =====
-- Making room in a lawful memory.
use Prim.Native.Nat.{max}
use native.Mathlib.Decide.{dec_lt}
use mathlib.Core.List.{append-nil}
use durable_wasm.Base.{
  ℕ, ◌-◌, ◌*◌, ◌%◌, ◌^◌, ◌≤◌, ◌<◌, ◌≡◌, ◌∙◌, sym, ap, refl, arith, Bytes, some, ◌++◌, length,
  length-append, length-replicate, replicate, lt→ltb,
}
use durable_wasm.Linear.{LinearMemory, IsLinear, page_size}
use durable_wasm.Engine.Restore.{needed_pages, grow_for}

-- The memory has `extra` bytes of zeros more, and `pages` pages.
pub record IsGrown (old new : Bytes) (pages : ℕ) : Type 0 where
  pub extra : ℕ
  pub zeros : new ≡ old ++ replicate extra 0
  pub paged : length new ≡ pages * page_size

module _ (L : LinearMemory) (lin : IsLinear L) where
  open lin use {contents, limit}

  grow_for-more :
      (mem : L.Mem) (p size : ℕ)
      → L.grow mem 0 ≡ (some p, mem)
      → needed_pages size < 2 ^ 32
      → p < needed_pages size
      → (L.grow mem (needed_pages size - p)).0 ≡ some p
      → grow_for L size mem ≡ some (L.grow mem (needed_pages size - p)).1
  unfolding grow_for
  grow_for-more mem p size none_more small more grew =
      let wrap : needed_pages size % 2 ^ 32 ≡ needed_pages size = omega arith in
      rw (none_more, grow_for, wrap, lt→ltb p (needed_pages size) more, grew) refl

  grow_for-enough :
      (mem : L.Mem) (p size : ℕ)
      → L.grow mem 0 ≡ (some p, mem)
      → needed_pages size ≤ p
      → grow_for L size mem ≡ some mem
  unfolding grow_for
  grow_for-enough mem p size none_more enough = rw (none_more, grow_for) (ground arith)

  pub grow_for_lem :
      (mem : L.Mem) (p size : ℕ)
      → length (contents mem) ≡ p * page_size
      → needed_pages size ≤ limit
      → limit < 2 ^ 32
      → (mem' : L.Mem) × (grow_for L size mem ≡ some mem')
        × IsGrown (contents mem) (contents mem') (max p (needed_pages size))
  unfolding grow_for
  grow_for_lem mem p size paged room small = elim (dec_lt p (needed_pages size)) [
    | yes more ↦
        let byte : ℕ = 0 in
        let n = needed_pages size - p in
        let (grew, zeros) = lin.grow_in mem p n paged (omega arith) in
        (
          (L.grow mem n).1,
          grow_for-more mem p size (lin.grow_none mem p paged) (omega arith) more grew,
          record {
            extra = n * page_size;
            zeros = zeros;
            paged =
                ap length zeros
                ∙ length-append (contents mem) _
                ∙ omega (arith, length-replicate (n * page_size) byte);
          },
        )
    | no enough ↦ (
      mem,
      grow_for-enough mem p size (lin.grow_none mem p paged) (omega arith),
      record { extra = 0; zeros = sym (append-nil _); paged = omega arith },
    )
  ]
