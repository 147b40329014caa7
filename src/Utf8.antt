-- ===== src/Utf8.antt =====
-- Go's text encoding, as far as the program uses it: `range` over a string (which yields runes,
-- and U+FFFD for each byte that begins no valid sequence) and `string(runes)`.
pub mod Ascii
pub mod RoundTrip
use lapis_archive_file_servi.Prelude.{
  ℕ, suc, zero, ◌+◌, ◌-◌, ◌*◌, ◌/◌, ◌%◌, List, [], ◌∷◌, ◌++◌, Bool, ◌&&◌, ltb, leb, ◌==◌,
  if◌then◌else◌, Bytes,
}

abbrev pub rune_error : ℕ
rune_error = 0xFFFD

-- A continuation byte within the given range.
abbrev pub within : ℕ → ℕ → ℕ → Bool
within lo hi b = leb lo b && leb b hi

-- Sequences of two, three and four bytes, after their first byte: the rune and its width.
unfoldable pub decode_two : ℕ → Bytes → ℕ × ℕ
decode_two b₀ [] = (rune_error, 1)
decode_two b₀ (b₁ ∷ s) =
    if within 0x80 0xBF b₁ then ((b₀ - 0xC0) * 64 + (b₁ - 0x80), 2) else (rune_error, 1)

unfoldable pub decode_three : ℕ → ℕ → ℕ → Bytes → ℕ × ℕ
decode_three lo hi b₀ [] = (rune_error, 1)
decode_three lo hi b₀ (b₁ ∷ []) = (rune_error, 1)
decode_three lo hi b₀ (b₁ ∷ b₂ ∷ s) =
    if within lo hi b₁ && within 0x80 0xBF b₂
    then ((b₀ - 0xE0) * 4096 + (b₁ - 0x80) * 64 + (b₂ - 0x80), 3)
    else (rune_error, 1)

unfoldable pub decode_four : ℕ → ℕ → ℕ → Bytes → ℕ × ℕ
decode_four lo hi b₀ [] = (rune_error, 1)
decode_four lo hi b₀ (b₁ ∷ []) = (rune_error, 1)
decode_four lo hi b₀ (b₁ ∷ b₂ ∷ []) = (rune_error, 1)
decode_four lo hi b₀ (b₁ ∷ b₂ ∷ b₃ ∷ s) =
    if within lo hi b₁ && (within 0x80 0xBF b₂ && within 0x80 0xBF b₃)
    then ((b₀ - 0xF0) * 262144 + (b₁ - 0x80) * 4096 + (b₂ - 0x80) * 64 + (b₃ - 0x80), 4)
    else (rune_error, 1)

-- `utf8.DecodeRuneInString` at a first byte and what follows it.
unfoldable pub decode_rune : ℕ → Bytes → ℕ × ℕ
decode_rune b s =
    if ltb b 0x80
    then (b, 1)
    else if within 0xC2 0xDF b
    then decode_two b s
    else if b == 0xE0
    then decode_three 0xA0 0xBF b s
    else if b == 0xED
    then decode_three 0x80 0x9F b s
    else if within 0xE1 0xEF b
    then decode_three 0x80 0xBF b s
    else if b == 0xF0
    then decode_four 0x90 0xBF b s
    else if b == 0xF4
    then decode_four 0x80 0x8F b s
    else if within 0xF1 0xF3 b
    then decode_four 0x80 0xBF b s
    else (rune_error, 1)

-- The runes of a string, from the byte after the given number of bytes.
unfoldable pub runes_after : ℕ → Bytes → List ℕ
runes_after skip [] = []
runes_after (suc skip) (b ∷ s) = runes_after skip s
runes_after zero (b ∷ s) = (decode_rune b s).0 ∷ runes_after ((decode_rune b s).1 - 1) s

unfoldable pub runes : Bytes → List ℕ
unfolding runes_after
runes s = runes_after 0 s

unfoldable pub encode_rune : ℕ → Bytes
encode_rune r =
    if ltb r 0x80
    then r ∷ []
    else if ltb r 0x800
    then (0xC0 + r / 64) ∷ (0x80 + r % 64) ∷ []
    else if within 0xD800 0xDFFF r
    then 0xEF ∷ 0xBF ∷ 0xBD ∷ []
    else if ltb r 0x10000
    then (0xE0 + r / 4096) ∷ (0x80 + r / 64 % 64) ∷ (0x80 + r % 64) ∷ []
    else if ltb r 0x110000
    then (0xF0 + r / 262144) ∷ (0x80 + r / 4096 % 64) ∷ (0x80 + r / 64 % 64) ∷ (0x80 + r % 64) ∷ []
    else 0xEF ∷ 0xBF ∷ 0xBD ∷ []

-- `string(rs)` for a slice of runes.
unfoldable pub string_of : List ℕ → Bytes
string_of [] = []
string_of (r ∷ rs) = encode_rune r ++ string_of rs
