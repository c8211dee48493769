-- ===== src/Linear.antt =====
-- The linear memory of a module instance: wazero's api.Memory, which the engine is given. A byte
-- slice that `Read` returns is a view of the memory, so a write through it is a `write` here.
pub mod Whole
use durable_wasm.Base.{
  ℕ, ◌+◌, ◌*◌, ◌≤◌, ◌<◌, ◌≡◌, Bool, true, false, Bytes, Option, none, some, ◌++◌, length, take,
  drop, replicate, splice,
}

pub record LinearMemory : Type 1 where
  pub Mem : Type 0
  -- in bytes
  pub size : Mem → ℕ
  pub read : Mem → ℕ → ℕ → Option Bytes
  pub write : Mem → ℕ → Bytes → Bool × Mem
  -- by a number of 64 KiB pages; the result is the number of pages before, `none` on a failure
  pub grow : Mem → ℕ → Option ℕ × Mem

abbrev pub page_size : ℕ
page_size = 65536

-- What the documentation of api.Memory says of the operations, in terms of the bytes that a memory
-- holds, and that a memory is allowed to grow up to `limit` pages.
pub record IsLinear (L : LinearMemory) : Type 0 where
  pub contents : L.Mem → Bytes
  pub limit : ℕ
  pub size_contents : (m : L.Mem) → L.size m ≡ length (contents m)
  pub read_in :
      (m : L.Mem) (o n : ℕ)
      → o + n ≤ length (contents m)
      → L.read m o n ≡ some (take n (drop o (contents m)))
  pub read_out : (m : L.Mem) (o n : ℕ) → length (contents m) < o + n → L.read m o n ≡ none
  pub write_in :
      (m : L.Mem) (o : ℕ) (bs : Bytes)
      → o + length bs ≤ length (contents m)
      → ((L.write m o bs).0 ≡ true) × (contents (L.write m o bs).1 ≡ splice o bs (contents m))
  pub write_out :
      (m : L.Mem) (o : ℕ) (bs : Bytes)
      → length (contents m) < o + length bs
      → L.write m o bs ≡ (false, m)
  pub grow_none :
      (m : L.Mem) (p : ℕ) → length (contents m) ≡ p * page_size → L.grow m 0 ≡ (some p, m)
  pub grow_in :
      (m : L.Mem) (p n : ℕ)
      → length (contents m) ≡ p * page_size
      → p + n ≤ limit
      → ((L.grow m n).0 ≡ some p)
        × (contents (L.grow m n).1 ≡ contents m ++ replicate (n * page_size) 0)
