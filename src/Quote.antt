-- ===== src/Quote.antt =====
-- `strconv.Quote`, which `%q` prints a string by, and `strings.ToLower`. Which runes above U+00FF
-- are printable, and the lower case of those above U+007F, are tables of the standard library and
-- enter as the record `Unicode`.
pub mod Closed
use lapis_archive_file_servi.Prelude.{
  ℕ, zero, suc, ◌+◌, ◌-◌, ◌/◌, ◌%◌, [], ◌∷◌, ◌++◌, List, Bytes, Bool, not, ◌&&◌, ◌||◌, ltb, leb,
  ◌==◌, if◌then◌else◌, map,
}
use lapis_archive_file_servi.Utf8.{decode_rune, encode_rune, rune_error, within, runes, string_of}
use lapis_archive_file_servi.Hex.{digit}

pub record Unicode : Type 0 where
  pub printable : ℕ → Bool
  pub lower : ℕ → ℕ

-- the four digits of the low 16 bits
unfoldable pub hex_four : ℕ → Bytes
hex_four r =
    digit (r / 4096 % 16) ∷ digit (r / 256 % 16) ∷ digit (r / 16 % 16) ∷ digit (r % 16) ∷ []

-- `\xNN`
unfoldable pub hex_escape : ℕ → Bytes
hex_escape b = b'\\' ∷ b'x' ∷ digit (b / 16 % 16) ∷ digit (b % 16) ∷ []

-- the escapes that have a letter
unfoldable pub letter_escape : ℕ → Bytes
letter_escape other = b'\\' ∷ other ∷ []

-- a rune that is not printed
unfoldable pub escape_rune : ℕ → Bytes
unfolding hex_four hex_escape letter_escape
escape_rune r =
    if r == 0x7
    then letter_escape b'a'
    else if r == 0x8
    then letter_escape b'b'
    else if r == 0xc
    then letter_escape b'f'
    else if r == 0xa
    then letter_escape b'n'
    else if r == 0xd
    then letter_escape b'r'
    else if r == 0x9
    then letter_escape b't'
    else if r == 0xb
    then letter_escape b'v'
    else if ltb r 0x20 || r == 0x7f
    then hex_escape r
    else if ltb r 0x10000
    then b'\\' ∷ b'u' ∷ hex_four r
    else b'\\' ∷ b'U' ∷ (hex_four (r / 65536) ++ hex_four r)

module _ (unicode : Unicode) where
  -- `strconv.IsPrint`
  unfoldable pub is_print : ℕ → Bool
  is_print r =
      if leb r 0xff
      then within 0x20 0x7e r || (within 0xa1 0xff r && not (r == 0xad))
      else unicode.printable r

  -- `appendEscapedRune`, for the quote `"`
  unfoldable pub quote_rune : ℕ → Bytes
  quote_rune r =
      if r == b'"' || r == b'\\'
      then b'\\' ∷ r ∷ []
      else if is_print r
      then encode_rune r
      else escape_rune r

  -- a byte that begins no valid sequence is escaped as it is
  unfoldable pub quote_first : ℕ → Bytes → Bytes
  quote_first b s =
      let (r, width) = decode_rune b s in
      if width == 1 && r == rune_error then hex_escape b else quote_rune r

  -- between the quotes, from the byte after the given number of bytes
  unfoldable pub quote_after : ℕ → Bytes → Bytes
  quote_after skip [] = []
  quote_after (suc skip) (b ∷ s) = quote_after skip s
  quote_after zero (b ∷ s) = quote_first b s ++ quote_after ((decode_rune b s).1 - 1) s

  unfoldable pub quote : Bytes → Bytes
  unfolding quote_after
  quote s = b'"' ∷ (quote_after 0 s ++ b'"' ∷ [])

  unfoldable pub lower_rune : ℕ → ℕ
  lower_rune r =
      if ltb r 0x80 then (if within b'A' b'Z' r then r - b'A' + b'a' else r) else unicode.lower r

  -- `strings.ToLower`
  unfoldable pub to_lower : Bytes → Bytes
  unfolding lower_rune
  to_lower s = string_of (map lower_rune (runes s))
