-- ===== src/Uuid.antt =====
-- What a column of type uuid makes of a text (db/migrations): 32 hexadecimal digits in either case, with a
-- hyphen or none after each group of four, in braces or not; it reads back in lower case, with hyphens.
use lapis_archive_file_servi.Prelude.{
  ℕ, zero, suc, ◌+◌, ◌==◌, [], ◌∷◌, ◌++◌, Bytes, Option, none, some, take, drop, if◌then◌else◌,
}
use lapis_archive_file_servi.Utf8.{within}

-- a hexadecimal digit, in lower case
unfoldable pub hex_digit : ℕ → Option ℕ
hex_digit c =
    if within b'0' b'9' c
    then some c
    else if within b'a' b'f' c
    then some c
    else if within b'A' b'F' c
    then some (c + 32)
    else none

-- the braces around a text; none if only one is there
unfoldable pub until_brace : Bytes → Option Bytes
until_brace [] = none
until_brace (c ∷ []) = if c == b'}' then some [] else none
until_brace (c ∷ d ∷ s) = elim (until_brace (d ∷ s)) [ none ↦ none | some t ↦ some (c ∷ t) ]

unfoldable pub unbraced : Bytes → Option Bytes
unbraced [] = some []
unbraced (c ∷ s) = if c == b'{' then until_brace s else some (c ∷ s)

abbrev both : Option Bytes → Option Bytes → Option Bytes
both (some s) (some t) = some (s ++ t)
both (some s) none = none
both none t = none

abbrev digit_of : Option ℕ → Option Bytes
digit_of none = none
digit_of (some c) = some (c ∷ [])

abbrev four : ℕ → ℕ → ℕ → ℕ → Option Bytes
four a b c d =
    both (digit_of (hex_digit a))
      (both (digit_of (hex_digit b)) (both (digit_of (hex_digit c)) (digit_of (hex_digit d))))

-- a hyphen between two groups, if it is there
unfoldable pub skip_hyphen : ℕ → Bytes → Bytes
skip_hyphen zero s = s
skip_hyphen (suc n) [] = []
skip_hyphen (suc n) (c ∷ s) = if c == b'-' then s else c ∷ s

-- the digits of a text that is `n` groups of four and nothing else
unfoldable pub groups : ℕ → Bytes → Option Bytes
unfolding hex_digit
groups zero [] = some []
groups zero (c ∷ s) = none
groups (suc n) (a ∷ b ∷ c ∷ d ∷ s) = both (four a b c d) (groups n (skip_hyphen n s))
groups (suc n) _ = none

abbrev hyphenated : Bytes → Bytes
hyphenated s =
    take 8 s
    ++ b'-'
      ∷ (take 4 (drop 8 s)
          ++ b'-' ∷ (take 4 (drop 12 s) ++ b'-' ∷ (take 4 (drop 16 s) ++ b'-' ∷ drop 20 s)))

-- none is the error for a text that is no uuid
unfoldable pub canonical : Bytes → Option Bytes
canonical s = elim (unbraced s) [
  | none ↦ none
  | some t ↦ elim (groups 8 t) [ none ↦ none | some digits ↦ some (hyphenated digits) ]
]
