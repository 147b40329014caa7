-- ===== src/Decimal/RoundTrip.antt =====
-- `strconv.Atoi` reads what `strconv.Itoa` prints.
use lapis_archive_file_servi.Prelude.{
  ℕ, zero, suc, ◌+◌, ◌-◌, ◌*◌, ◌/◌, ◌%◌, ◌^◌, ◌≤◌, ◌<◌, [], ◌∷◌, Bytes, some, ltb, ◌≡◌, ◌∙◌, refl,
  sym, ap, lt→ltb, arith, inl, inr, Bool-cases,
}
use lapis_archive_file_servi.Prelude.Int.{ℤ, pos, negsuc}
use lapis_archive_file_servi.Decimal.{
  digits_before, print_nat, itoa, read_digits, read_nat, non_negative, negated, atoi,
}

-- The range of an int64.
abbrev pub IsInt64 : ℤ → Type 0
IsInt64 (pos n) = n < 2 ^ 63
IsInt64 (negsuc n) = n < 2 ^ 63

read_digits-print :
    (fuel n : ℕ) (rest : Bytes)
    → n < fuel
    → read_digits 0 (digits_before fuel n rest) ≡ read_digits n rest
unfolding digits_before read_digits
read_digits-print zero n rest h = elim h [ ]
read_digits-print (suc fuel) n rest h = elim (Bool-cases (ltb n 10)) [
  | inl one ↦ ground arith
  | inr more ↦
      let joined : n / 10 * 10 + (b'0' + n % 10 - b'0') ≡ n = omega arith in
      ground (arith, read_digits-print fuel (n / 10) ((b'0' + n % 10) ∷ rest), joined)
]

-- A printed number begins with a digit.
digits_before-head :
    (fuel n : ℕ) (rest : Bytes)
    → n < fuel
    → (c : ℕ) × (s : Bytes) × (digits_before fuel n rest ≡ c ∷ s) × (b'0' ≤ c)
unfolding digits_before
digits_before-head zero n rest h = elim h [ ]
digits_before-head (suc fuel) n rest h = elim (Bool-cases (ltb n 10)) [
  | inl one ↦ (b'0' + n, rest, rw one refl, omega arith)
  | inr more ↦ rw more (digits_before-head fuel (n / 10) ((b'0' + n % 10) ∷ rest) (ground arith))
]

read_nat-print : (n : ℕ) → read_nat (print_nat n) ≡ some n
unfolding print_nat read_nat read_digits
read_nat-print n =
    let (c, s, e, digit) = digits_before-head (suc n) n [] (omega arith) in
    ap read_nat e ∙ (ap (read_digits 0) (sym e) ∙ read_digits-print (suc n) n [] (omega arith))

atoi_digit : (c : ℕ) (s : Bytes) → b'0' ≤ c → atoi (c ∷ s) ≡ non_negative (read_nat (c ∷ s))
unfolding atoi
atoi_digit c s h = ground arith

atoi-print : (n : ℕ) → n < 2 ^ 63 → atoi (print_nat n) ≡ some (pos n)
unfolding print_nat non_negative
atoi-print n h =
    let (c, s, e, digit) = digits_before-head (suc n) n [] (omega arith) in
    ap atoi e
    ∙ (atoi_digit c s digit
        ∙ (ap (λ (t : Bytes). non_negative (read_nat t)) (sym e)
            ∙ (ap non_negative (read_nat-print n) ∙ rw (lt→ltb n (2 ^ 63) h) refl)))

-- Every int64 is read back as it was printed.
pub atoi-itoa : (z : ℤ) → IsInt64 z → atoi (itoa z) ≡ some z
unfolding itoa atoi negated
atoi-itoa (pos n) h = atoi-print n h
atoi-itoa (negsuc n) h = ap negated (read_nat-print (suc n)) ∙ rw (lt→ltb n (2 ^ 63) h) refl
