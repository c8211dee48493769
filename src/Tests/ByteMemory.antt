-- ===== src/Tests/ByteMemory.antt =====
-- A memory that is its bytes, and grows up to 16 pages.
use mathlib.Core.List.{append-nil}
use durable_wasm.Base.{
  sym, ℕ, zero, suc, ◌+◌, ◌*◌, ◌/◌, ◌≤◌, ◌<◌, ◌≡◌, refl, ap, arith, Bool, true, false, Bytes,
  Option, none, some, ◌++◌, length, take, drop, replicate, splice, leb, if◌then◌else◌,
}
use durable_wasm.Linear.{LinearMemory, IsLinear, page_size}

abbrev pub max_pages : ℕ
max_pages = 16

unfoldable pub read_bytes : Bytes → ℕ → ℕ → Option Bytes
read_bytes m o n = if leb (o + n) (length m) then some (take n (drop o m)) else none

unfoldable pub write_bytes : Bytes → ℕ → Bytes → Bool × Bytes
write_bytes m o bs = if leb (o + length bs) (length m) then (true, splice o bs m) else (false, m)

unfoldable pub grow_bytes : Bytes → ℕ → Option ℕ × Bytes
grow_bytes m zero = (some (length m / page_size), m)
grow_bytes m (suc n) =
    if leb (length m / page_size + suc n) max_pages
    then (some (length m / page_size), m ++ replicate (suc n * page_size) 0)
    else (none, m)

abbrev pub byte_memory : LinearMemory
byte_memory = record {
  Mem = Bytes;
  size = length;
  read = read_bytes;
  write = write_bytes;
  grow = grow_bytes;
}

pub grow_none : (m : Bytes) (p : ℕ) → length m ≡ p * page_size → grow_bytes m 0 ≡ (some p, m)
unfolding grow_bytes
grow_none m p paged = ap (λ k. (some k, m)) (omega arith)

pub grow_in :
    (m : Bytes) (p n : ℕ)
    → length m ≡ p * page_size
    → p + n ≤ max_pages
    → ((grow_bytes m n).0 ≡ some p) × ((grow_bytes m n).1 ≡ m ++ replicate (n * page_size) 0)
unfolding grow_bytes
grow_in m p zero paged fits = (ap some (omega arith), sym (append-nil m))
grow_in m p (suc n) paged fits =
    let pages : length m / page_size ≡ p = omega arith in
    let allowed' : leb (p + suc n) max_pages ≡ true = ground arith in
    rw (pages, allowed') (refl, refl)

pub read_in : (m : Bytes) (o n : ℕ) → o + n ≤ length m → read_bytes m o n ≡ some (take n (drop o m))
unfolding read_bytes
read_in m o n h = ground arith

pub read_out : (m : Bytes) (o n : ℕ) → length m < o + n → read_bytes m o n ≡ none
unfolding read_bytes
read_out m o n h = ground arith

pub write_in :
    (m : Bytes) (o : ℕ) (bs : Bytes)
    → o + length bs ≤ length m
    → ((write_bytes m o bs).0 ≡ true) × ((write_bytes m o bs).1 ≡ splice o bs m)
unfolding write_bytes
write_in m o bs h = ground arith

pub write_out :
    (m : Bytes) (o : ℕ) (bs : Bytes) → length m < o + length bs → write_bytes m o bs ≡ (false, m)
unfolding write_bytes
write_out m o bs h = ground arith

unfoldable pub linear_bytes : IsLinear byte_memory
linear_bytes = record {
  contents = λ m. m;
  limit = max_pages;
  size_contents = λ m. refl;
  read_in = read_in;
  read_out = read_out;
  write_in = write_in;
  write_out = write_out;
  grow_none = grow_none;
  grow_in = grow_in;
}
