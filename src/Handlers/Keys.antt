-- ===== src/Handlers/Keys.antt =====
-- `validKey` of internal/handlers/multipart.go
pub mod Shape
use lapis_archive_file_servi.Prelude.{
  ℕ, ◌+◌, Bytes, Bool, true, false, not, ◌||◌, ltb, ◌==◌, is_empty, if◌then◌else◌, length, any_of,
}
use lapis_archive_file_servi.Utf8.{runes}

abbrev pub max_filename_length : ℕ
max_filename_length = 180

abbrev pub max_key_length : ℕ
max_key_length = 40 + max_filename_length

-- a rune that a key may not have
abbrev pub is_bad_rune : ℕ → Bool
is_bad_rune r = ltb r 0x20 || (r == 0x7f || (r == b'/' || r == b'\\'))

unfoldable pub valid_key : Bytes → Bool
valid_key key =
    if is_empty key || ltb max_key_length (length key)
    then false
    else not (any_of is_bad_rune (runes key))
