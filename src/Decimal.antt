-- ===== src/Decimal.antt =====
-- `strconv.Itoa` and `strconv.Atoi` of package strconv, for an int of 64 bits.
pub mod RoundTrip
use lapis_archive_file_servi.Prelude.{
  ℕ, zero, suc, ◌+◌, ◌-◌, ◌*◌, ◌/◌, ◌%◌, ◌^◌, [], ◌∷◌, ◌++◌, List, Bytes, Bool, Option, none, some,
  ltb, leb, ◌==◌, if◌then◌else◌,
}
use lapis_archive_file_servi.Prelude.Int.{ℤ, pos, negsuc}

-- The digits of a number in front of the rest of a text; a number has at most as many digits as
-- there is fuel, if there is one unit for each.
unfoldable pub digits_before : ℕ → ℕ → Bytes → Bytes
digits_before zero n rest = rest
digits_before (suc fuel) n rest =
    let longer = digits_before fuel (n / 10) ((b'0' + n % 10) ∷ rest) in
    if ltb n 10 then (b'0' + n) ∷ rest else longer

unfoldable pub print_nat : ℕ → Bytes
print_nat n = digits_before (suc n) n []

unfoldable pub itoa : ℤ → Bytes
unfolding print_nat
itoa (pos n) = print_nat n
itoa (negsuc n) = b'-' ∷ print_nat (suc n)

-- The value of a text of digits, read after the given value; none if another byte comes.
unfoldable pub read_digits : ℕ → Bytes → Option ℕ
read_digits value [] = some value
read_digits value (c ∷ s) =
    let rest = read_digits (value * 10 + (c - b'0')) s in
    if leb b'0' c then (if leb c b'9' then rest else none) else none

-- what has at least one digit, and nothing else
unfoldable pub read_nat : Bytes → Option ℕ
read_nat [] = none
read_nat (c ∷ s) = read_digits 0 (c ∷ s)

-- the range of an int64, for each sign
unfoldable pub non_negative : Option ℕ → Option ℤ
non_negative none = none
non_negative (some n) = if ltb n (2 ^ 63) then some (pos n) else none

unfoldable pub negated : Option ℕ → Option ℤ
negated none = none
negated (some zero) = some (pos 0)
negated (some (suc n)) = if ltb n (2 ^ 63) then some (negsuc n) else none

unfoldable pub atoi : Bytes → Option ℤ
unfolding read_digits read_nat non_negative negated
atoi [] = none
atoi (c ∷ s) =
    if c == b'+'
    then non_negative (read_nat s)
    else if c == b'-'
    then negated (read_nat s)
    else non_negative (read_nat (c ∷ s))
