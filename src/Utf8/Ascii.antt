-- ===== src/Utf8/Ascii.antt =====
-- Tests on runes that only tell ASCII characters apart, on the runes of a text and on its bytes.
use lapis_archive_file_servi.Prelude.{
  ℕ, suc, zero, ◌-◌, ◌<◌, ◌≤◌, [], ◌∷◌, ◌≡◌, refl, Bool, true, false, arith, Bytes, All, any_of,
  ◌⊎◌, dec_lt,
}
use lapis_archive_file_servi.Utf8.{
  decode_two, decode_three, decode_four, decode_rune, runes_after, runes,
}

-- The first bytes, as many as are counted, belong to no ASCII character.
abbrev pub High : ℕ → Bytes → Type 0
High zero s = Unit
High (suc k) [] = Unit
High (suc k) (b ∷ s) = (0x80 ≤ b) × High k s

decode_two-High : (b : ℕ) (s : Bytes) → High ((decode_two b s).1 - 1) s
unfolding decode_two
decode_two-High b [] = ground arith
decode_two-High b (b₁ ∷ s) = ground arith

decode_three-High : (lo hi b : ℕ) (s : Bytes) → 0x80 ≤ lo → High ((decode_three lo hi b s).1 - 1) s
unfolding decode_three
decode_three-High lo hi b [] h = ground arith
decode_three-High lo hi b (b₁ ∷ []) h = ground arith
decode_three-High lo hi b (b₁ ∷ b₂ ∷ s) h = ground arith

decode_four-High : (lo hi b : ℕ) (s : Bytes) → 0x80 ≤ lo → High ((decode_four lo hi b s).1 - 1) s
unfolding decode_four
decode_four-High lo hi b [] h = ground arith
decode_four-High lo hi b (b₁ ∷ []) h = ground arith
decode_four-High lo hi b (b₁ ∷ b₂ ∷ []) h = ground arith
decode_four-High lo hi b (b₁ ∷ b₂ ∷ b₃ ∷ s) h = ground arith

decode_rune-High_below : (b : ℕ) (s : Bytes) → b < 0xE0 → High ((decode_rune b s).1 - 1) s
unfolding decode_rune
decode_rune-High_below b s h = ground (arith, decode_two-High b s)

decode_rune-High_three :
    (b : ℕ) (s : Bytes) → 0xE0 ≤ b → b < 0xF0 → High ((decode_rune b s).1 - 1) s
unfolding decode_rune
decode_rune-High_three b s h k = ground (
  arith,
  decode_three-High 0xA0 0xBF b s,
  decode_three-High 0x80 0x9F b s,
  decode_three-High 0x80 0xBF b s,
)

decode_rune-High_four : (b : ℕ) (s : Bytes) → 0xF0 ≤ b → High ((decode_rune b s).1 - 1) s
unfolding decode_rune
decode_rune-High_four b s h = ground (
  arith,
  decode_four-High 0x90 0xBF b s,
  decode_four-High 0x80 0x8F b s,
  decode_four-High 0x80 0xBF b s,
)

decode_rune-High : (b : ℕ) (s : Bytes) → High ((decode_rune b s).1 - 1) s
decode_rune-High b s = elim (dec_lt b 0xE0) [
  | yes h ↦ decode_rune-High_below b s h
  | no h ↦ elim (dec_lt b 0xF0) [
    | yes k ↦ decode_rune-High_three b s (omega arith) k
    | no k ↦ decode_rune-High_four b s (omega arith)
  ]
]

decode_rune_low : (b : ℕ) (s : Bytes) → b < 0x80 → decode_rune b s ≡ (b, 1)
unfolding decode_rune
decode_rune_low b s h = ground arith

decode_two_ge : (b : ℕ) (s : Bytes) → 0xC2 ≤ b → 0x80 ≤ (decode_two b s).0
unfolding decode_two
decode_two_ge b [] h = ground arith
decode_two_ge b (b₁ ∷ s) h = ground arith

decode_three_ge :
    (lo hi b : ℕ) (s : Bytes) → (0xE1 ≤ b) ⊎ (0xA0 ≤ lo) → 0x80 ≤ (decode_three lo hi b s).0
unfolding decode_three
decode_three_ge lo hi b [] h = ground arith
decode_three_ge lo hi b (b₁ ∷ []) h = ground arith
decode_three_ge lo hi b (b₁ ∷ b₂ ∷ s) h = ground arith

decode_four_ge :
    (lo hi b : ℕ) (s : Bytes) → (0xF1 ≤ b) ⊎ (0x90 ≤ lo) → 0x80 ≤ (decode_four lo hi b s).0
unfolding decode_four
decode_four_ge lo hi b [] h = ground arith
decode_four_ge lo hi b (b₁ ∷ []) h = ground arith
decode_four_ge lo hi b (b₁ ∷ b₂ ∷ []) h = ground arith
decode_four_ge lo hi b (b₁ ∷ b₂ ∷ b₃ ∷ s) h = ground arith

-- A byte that is no ASCII character begins no ASCII rune.
decode_rune_high : (b : ℕ) (s : Bytes) → 0x80 ≤ b → 0x80 ≤ (decode_rune b s).0
unfolding decode_rune
decode_rune_high b s h = ground (
  arith,
  decode_two_ge b s,
  decode_three_ge 0xA0 0xBF b s,
  decode_three_ge 0x80 0x9F b s,
  decode_three_ge 0x80 0xBF b s,
  decode_four_ge 0x90 0xBF b s,
  decode_four_ge 0x80 0x8F b s,
  decode_four_ge 0x80 0xBF b s,
)

abbrev pub IsAscii : ℕ → Type 0
IsAscii b = b < 0x80

-- The runes of an ASCII text are its bytes.
pub runes_of_ascii : (s : Bytes) → All IsAscii s → runes s ≡ s
unfolding runes runes_after
runes_of_ascii [] h = refl
runes_of_ascii (b ∷ s) h = ground (arith, decode_rune_low b s h.0, runes_of_ascii s h.1)

-- A text all of whose runes are ASCII is ASCII.
pub IsAscii-of_runes : (s : Bytes) → All IsAscii (runes s) → All IsAscii s
unfolding runes runes_after
IsAscii-of_runes [] h = tt
IsAscii-of_runes (b ∷ s) h =
    ground (arith, decode_rune_low b s, decode_rune_high b s, IsAscii-of_runes s)

module _ (p : ℕ → Bool) where
  any_of-runes_after :
      ((r : ℕ) → 0x80 ≤ r → p r ≡ false)
      → (k : ℕ) (s : Bytes) → High k s
      → any_of p (runes_after k s) ≡ any_of p s
  unfolding runes_after any_of
  any_of-runes_after high k [] h = refl
  any_of-runes_after high (suc k) (b ∷ s) h =
      ground (arith, high b, any_of-runes_after high k s h.1)
  any_of-runes_after high zero (b ∷ s) h = ground (
    arith,
    decode_rune_low b s,
    decode_rune_high b s,
    high b,
    high (decode_rune b s).0,
    any_of-runes_after high ((decode_rune b s).1 - 1) s (decode_rune-High b s),
  )

  -- A test that fails on every rune beyond ASCII finds in the runes what it finds in the bytes.
  pub any_of-runes :
      ((r : ℕ) → 0x80 ≤ r → p r ≡ false) → (s : Bytes) → any_of p (runes s) ≡ any_of p s
  unfolding runes
  any_of-runes high s = any_of-runes_after high 0 s tt

  -- So does a test that passes on every rune beyond ASCII.
  pub any_of-runes-true :
      ((r : ℕ) → 0x80 ≤ r → p r ≡ true) → (s : Bytes) → any_of p (runes s) ≡ any_of p s
  unfolding runes runes_after any_of
  any_of-runes-true high [] = refl
  any_of-runes-true high (b ∷ s) = ground (
    arith,
    decode_rune_low b s,
    decode_rune_high b s,
    high b,
    high (decode_rune b s).0,
    any_of-runes-true high s,
  )
