-- ===== src/Handlers/Keys/Shape.antt =====
-- `validKey` of internal/handlers/multipart.go, byte by byte.
use lapis_archive_file_servi.Prelude.{
  ℕ, ◌≤◌, ◌<◌, [], ◌∷◌, Bytes, true, false, length, any_of, All, ◌≡◌, ◌≢◌, ◌↔◌, refl, arith,
}
use lapis_archive_file_servi.Utf8.Ascii.{any_of-runes}
use lapis_archive_file_servi.Handlers.Keys.{is_bad_rune, valid_key}

-- A byte that is no control character and no separator.
abbrev pub IsKeyByte : ℕ → Type 0
IsKeyByte b = (0x20 ≤ b) × (b ≢ 0x7f) × (b ≢ b'/') × (b ≢ b'\\')

any_of-All :
    (s : Bytes)
    → ((any_of is_bad_rune s ≡ false) → All IsKeyByte s)
      × (All IsKeyByte s → any_of is_bad_rune s ≡ false)
unfolding any_of
any_of-All [] = (λ e. tt, λ h. refl)
any_of-All (b ∷ s) = ground (arith, any_of-All s)

-- A key is valid exactly if it has 1 to 220 bytes, and none of them is a control character, a slash
-- or a backslash, whether or not the bytes are valid UTF-8.
pub valid_key-IsKeyByte :
    (key : Bytes)
    → (valid_key key ≡ true) ↔ ((0 < length key) × (length key ≤ 220) × All IsKeyByte key)
unfolding valid_key
valid_key-IsKeyByte [] = ground arith
valid_key-IsKeyByte (b ∷ key) =
    ground (arith, any_of-runes is_bad_rune (λ c h. ground arith) (b ∷ key), any_of-All (b ∷ key))
