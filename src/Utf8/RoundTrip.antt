-- ===== src/Utf8/RoundTrip.antt =====
-- Encoding and decoding of runes, one after the other.
use lapis_archive_file_servi.Prelude.{
  ℕ, suc, zero, ◌+◌, ◌-◌, ◌/◌, ◌%◌, ◌<◌, ◌≤◌, List, [], ◌∷◌, ◌++◌, ◌≡◌, refl, ◌⊎◌, arith, Bytes,
  All, ap, ◌∙◌, ◌≢◌,
}
use lapis_archive_file_servi.Utf8.{
  decode_two, decode_three, decode_four, decode_rune, runes_after, runes, encode_rune, string_of,
}

-- A Unicode scalar value: a code point that is no surrogate.
abbrev pub IsScalar : ℕ → Type 0
IsScalar r = (r < 0xD800) ⊎ ((0xE000 ≤ r) × (r < 0x110000))

decode_two-IsScalar : (b : ℕ) (s : Bytes) → 0xC2 ≤ b → b ≤ 0xDF → IsScalar (decode_two b s).0
unfolding decode_two
decode_two-IsScalar b [] h k = ground arith
decode_two-IsScalar b (b₁ ∷ s) h k = ground arith

-- The second byte is above 0x9F after 0xE0, and below 0xA0 after 0xED: no surrogate is decoded.
decode_three-IsScalar :
    (lo hi b : ℕ) (s : Bytes)
    → 0xE0 ≤ b
    → b ≤ 0xEF
    → 0x80 ≤ lo
    → hi ≤ 0xBF
    → (b ≢ 0xED) ⊎ (hi ≤ 0x9F)
    → IsScalar (decode_three lo hi b s).0
unfolding decode_three
decode_three-IsScalar lo hi b [] h k p q e = ground arith
decode_three-IsScalar lo hi b (b₁ ∷ []) h k p q e = ground arith
decode_three-IsScalar lo hi b (b₁ ∷ b₂ ∷ s) h k p q e = ground arith

decode_four-IsScalar :
    (lo hi b : ℕ) (s : Bytes)
    → 0xF0 ≤ b
    → b ≤ 0xF4
    → 0x80 ≤ lo
    → hi ≤ 0xBF
    → (b ≢ 0xF0) ⊎ (0x90 ≤ lo)
    → (b ≢ 0xF4) ⊎ (hi ≤ 0x8F)
    → IsScalar (decode_four lo hi b s).0
unfolding decode_four
decode_four-IsScalar lo hi b [] h k p q e f = ground arith
decode_four-IsScalar lo hi b (b₁ ∷ []) h k p q e f = ground arith
decode_four-IsScalar lo hi b (b₁ ∷ b₂ ∷ []) h k p q e f = ground arith
decode_four-IsScalar lo hi b (b₁ ∷ b₂ ∷ b₃ ∷ s) h k p q e f = ground arith

decode_rune-IsScalar : (b : ℕ) (s : Bytes) → IsScalar (decode_rune b s).0
unfolding decode_rune
decode_rune-IsScalar b s = ground (
  arith,
  decode_two-IsScalar b s,
  decode_three-IsScalar 0xA0 0xBF b s,
  decode_three-IsScalar 0x80 0x9F b s,
  decode_three-IsScalar 0x80 0xBF b s,
  decode_four-IsScalar 0x90 0xBF b s,
  decode_four-IsScalar 0x80 0x8F b s,
  decode_four-IsScalar 0x80 0xBF b s,
)

runes_after-IsScalar : (k : ℕ) (s : Bytes) → All IsScalar (runes_after k s)
unfolding runes_after
runes_after-IsScalar k [] = tt
runes_after-IsScalar (suc k) (b ∷ s) = runes_after-IsScalar k s
runes_after-IsScalar zero (b ∷ s) =
    (decode_rune-IsScalar b s, runes_after-IsScalar ((decode_rune b s).1 - 1) s)

-- Every rune that `range` yields is a scalar value, whatever the bytes.
pub runes-IsScalar : (s : Bytes) → All IsScalar (runes s)
unfolding runes
runes-IsScalar s = runes_after-IsScalar 0 s

decode_rune-one : (r : ℕ) (s : Bytes) → r < 0x80 → decode_rune r s ≡ (r, 1)
unfolding decode_rune
decode_rune-one r s h = ground arith

decode_rune-two :
    (r : ℕ) (s : Bytes)
    → 0x80 ≤ r
    → r < 0x800
    → decode_rune (0xC0 + r / 64) ((0x80 + r % 64) ∷ s) ≡ (r, 2)
unfolding decode_rune decode_two
decode_rune-two r s h k = ground arith

decode_rune-three :
    (r : ℕ) (s : Bytes)
    → 0x800 ≤ r
    → IsScalar r
    → r < 0x10000
    → decode_rune (0xE0 + r / 4096) ((0x80 + r / 64 % 64) ∷ (0x80 + r % 64) ∷ s) ≡ (r, 3)
unfolding decode_rune decode_three
decode_rune-three r s h p k = ground arith

decode_rune-four :
    (r : ℕ) (s : Bytes)
    → 0x10000 ≤ r
    → r < 0x110000
    → decode_rune
        (0xF0 + r / 262144)
        ((0x80 + r / 4096 % 64) ∷ (0x80 + r / 64 % 64) ∷ (0x80 + r % 64) ∷ s)
      ≡ (r, 4)
unfolding decode_rune decode_four
decode_rune-four r s h k = ground arith

runes_after-encode_rune :
    (r : ℕ) (s : Bytes) → IsScalar r → runes_after 0 (encode_rune r ++ s) ≡ r ∷ runes_after 0 s
unfolding runes_after encode_rune
runes_after-encode_rune r s h =
    ground
      (arith, decode_rune-one r s, decode_rune-two r s, decode_rune-three r s, decode_rune-four r s)

-- `range` over `string(rs)` yields `rs`, if each of them is a scalar value.
pub runes-string_of : (rs : List ℕ) → All IsScalar rs → runes (string_of rs) ≡ rs
unfolding runes string_of
runes-string_of [] h = refl
runes-string_of (r ∷ rs) h =
    runes_after-encode_rune r (string_of rs) h.0 ∙ ap (◌∷◌ r) (runes-string_of rs h.1)
