-- ===== src/Engine/Decimal.antt =====
-- strconv.FormatInt and strconv.ParseInt at base 10 and 64 bits, with which host_get_time writes a
-- time to the oplog and reads it back.
use native.Mathlib.Nat.{pow-suc}
use durable_wasm.Base.{
  ℕ, zero, suc, ◌+◌, ◌-◌, ◌*◌, ◌/◌, ◌%◌, ◌^◌, ◌≤◌, ◌<◌, ◌≡◌, ◌≢◌, ◌∙◌, refl, ap, arith, ◌&&◌, ◌==◌,
  nat_eq, Bytes, Option, none, some, [], ◌∷◌, ltb, leb, Bool-cases, inl, inr, ltb→lt, if◌then◌else◌,
  ℤ, pos, negsuc,
}

-- The digits of n, put in front of `rest`. Twenty of them are enough for 64 bits.
unfoldable pub digits_of : ℕ → ℕ → Bytes → Bytes
digits_of zero n rest = rest
digits_of (suc fuel) n rest =
    let more = digits_of fuel (n / 10) ((48 + n % 10) ∷ rest) in
    if ltb n 10 then (48 + n) ∷ rest else more

unfoldable pub format_nat : ℕ → Bytes
format_nat n = digits_of 20 n []

unfoldable pub format_int : ℤ → Bytes
format_int (pos n) = format_nat n
format_int (negsuc n) = b'-' ∷ format_nat (n + 1)

unfoldable pub parse_digits : Bytes → ℕ → Option ℕ
parse_digits [] n = some n
parse_digits (c ∷ cs) n =
    let rest = parse_digits cs (n * 10 + (c - 48)) in if leb 48 c && leb c 57 then rest else none

parse_unsigned : Bytes → Option ℕ
unfolding parse_digits
parse_unsigned [] = none
parse_unsigned (c ∷ cs) = parse_digits (c ∷ cs) 0

-- The value, if it is in the range of an int64.
in_range_pos : Option ℕ → Option ℤ
in_range_pos none = none
in_range_pos (some n) = if ltb n (2 ^ 63) then some (pos n) else none

in_range_neg : Option ℕ → Option ℤ
in_range_neg none = none
in_range_neg (some zero) = some (pos 0)
in_range_neg (some (suc n)) = if ltb n (2 ^ 63) then some (negsuc n) else none

unfoldable pub parse_int : Bytes → Option ℤ
unfolding parse_unsigned in_range_pos in_range_neg
parse_int [] = none
parse_int (c ∷ cs) =
    if c == b'-'
    then in_range_neg (parse_unsigned cs)
    else if c == b'+'
    then in_range_pos (parse_unsigned cs)
    else in_range_pos (parse_unsigned (c ∷ cs))

-- A digit in front adds itself to ten times the number so far.
parse_digits-digit :
    (d n m : ℕ) (rest : Bytes)
    → d < 10
    → n * 10 + d ≡ m
    → parse_digits ((48 + d) ∷ rest) n ≡ parse_digits rest m
unfolding parse_digits
parse_digits-digit d n m rest h e =
    let value : n * 10 + (48 + d - 48) ≡ m = omega arith in rw (← value) (ground arith)

parse_digits-digits_of :
    (fuel n : ℕ) (rest : Bytes)
    → n < 10 ^ fuel
    → parse_digits (digits_of fuel n rest) 0 ≡ parse_digits rest n
unfolding digits_of
parse_digits-digits_of zero n rest h = ap (parse_digits rest) (omega arith)
parse_digits-digits_of (suc fuel) n rest h = elim (Bool-cases (ltb n 10)) [
  | inl one ↦ rw one (parse_digits-digit n 0 n rest (ltb→lt n 10 one) (omega arith))
  | inr more ↦ rw more (
      parse_digits-digits_of fuel (n / 10) ((48 + n % 10) ∷ rest) (omega (arith, pow-suc 10 fuel))
      ∙ parse_digits-digit (n % 10) (n / 10) n rest (omega arith) (omega arith))
]

-- What is not empty and has no sign reads as its digits.
parse_int-unsigned :
    (s : Bytes) (n : ℕ)
    → s ≢ []
    → parse_digits s 0 ≡ some n
    → n < 2 ^ 63
    → parse_int s ≡ some (pos n)
unfolding parse_int parse_digits nat_eq
parse_int-unsigned [] n some_digit read h = absurd (some_digit refl)
parse_int-unsigned (c ∷ cs) n some_digit read h = ground arith

parse_int-negative :
    (s : Bytes) (n : ℕ)
    → s ≢ []
    → parse_digits s 0 ≡ some (suc n)
    → n < 2 ^ 63
    → parse_int (b'-' ∷ s) ≡ some (negsuc n)
unfolding parse_int nat_eq
parse_int-negative [] n some_digit read h = absurd (some_digit refl)
parse_int-negative (c ∷ cs) n some_digit read h = ground arith

digits_of-ne-nil : (fuel n c : ℕ) (rest : Bytes) → digits_of fuel n (c ∷ rest) ≢ []
unfolding digits_of
digits_of-ne-nil zero n c rest e = cc
digits_of-ne-nil (suc fuel) n c rest e =
    ground (arith, digits_of-ne-nil fuel (n / 10) (48 + n % 10) (c ∷ rest))

digits_of_some-ne-nil : (fuel n : ℕ) → digits_of (suc fuel) n [] ≢ []
unfolding digits_of
digits_of_some-ne-nil fuel n e = ground (arith, digits_of-ne-nil fuel (n / 10) (48 + n % 10) [])

format_nat-ne-nil : (n : ℕ) → format_nat n ≢ []
unfolding format_nat
format_nat-ne-nil n = digits_of_some-ne-nil 19 n

parse_digits-format_nat : (n : ℕ) → n ≤ 2 ^ 63 → parse_digits (format_nat n) 0 ≡ some n
unfolding format_nat parse_digits
parse_digits-format_nat n h = parse_digits-digits_of 20 n [] (omega arith)

-- The integers that fit 64 bits.
abbrev pub InInt64 : ℤ → Type 0
InInt64 (pos n) = n < 2 ^ 63
InInt64 (negsuc n) = n < 2 ^ 63

-- Parsing a 64-bit integer that was formatted in decimal gives the integer back.
pub parse_int-format_int : (z : ℤ) → InInt64 z → parse_int (format_int z) ≡ some z
unfolding format_int
parse_int-format_int (pos n) h =
    parse_int-unsigned (format_nat n) n (format_nat-ne-nil n)
      (parse_digits-format_nat n (omega arith)) h
parse_int-format_int (negsuc n) h =
    parse_int-negative (format_nat (n + 1)) n (format_nat-ne-nil (n + 1))
      (parse_digits-format_nat (n + 1) (omega arith) ∙ ap some (omega arith)) h
