-- ===== src/Linear/Whole.antt =====
-- Reading and writing a lawful memory as a whole.
use durable_wasm.Base.{ℕ, ◌≡◌, ◌∙◌, ap, arith, Bytes, some, length, take-all, take, splice-all}
use durable_wasm.Linear.{LinearMemory, IsLinear}

module _ (L : LinearMemory) (lin : IsLinear L) where
  open lin use {contents}

  -- `memory.Read(0, memory.Size())`
  pub read_all : (mem : L.Mem) → L.read mem 0 (L.size mem) ≡ some (contents mem)
  read_all mem =
      let n = lin.size_contents mem in
      lin.read_in mem 0 (L.size mem) (omega arith)
      ∙ ap some (ap (λ (k : ℕ). take k (contents mem)) n ∙ take-all _)

  pub write_all :
      (mem : L.Mem) (bytes : Bytes)
      → length bytes ≡ length (contents mem)
      → contents (L.write mem 0 bytes).1 ≡ bytes
  write_all mem bytes same = (lin.write_in mem 0 bytes (omega arith)).1 ∙ splice-all bytes _ same
