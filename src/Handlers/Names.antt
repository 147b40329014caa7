-- ===== src/Handlers/Names.antt =====
-- `sanitizeFilename` of internal/handlers/file.go, and what it uses of the packages `path` and
-- `strings`.
use lapis_archive_file_servi.Prelude.{
  ℕ, ◌-◌, [], ◌∷◌, ◌++◌, List, Bytes, codes, Bool, not, ◌&&◌, ◌||◌, ltb, ◌==◌, ◌≟◌, is_empty,
  if◌then◌else◌, length, map, take, keep_if, any_of,
}
use lapis_archive_file_servi.Utf8.{within, runes, string_of}
use lapis_archive_file_servi.Handlers.Keys.{max_filename_length}

-- `strings.ReplaceAll(name, "\\", "/")`
abbrev pub slashed : Bytes → Bytes
slashed = map (λ b. if b == b'\\' then b'/' else b)

abbrev pub is_slash : ℕ → Bool
is_slash b = b == b'/'

unfoldable pub drop_last_slashes : Bytes → Bytes
drop_last_slashes [] = []
drop_last_slashes (b ∷ s) =
    let rest = drop_last_slashes s in if is_empty rest && is_slash b then [] else b ∷ rest

unfoldable pub last_segment : Bytes → Bytes
last_segment [] = []
last_segment (b ∷ s) =
    let rest = last_segment s in if any_of is_slash s then rest else if is_slash b then s else b ∷ s

abbrev or_slash : Bytes → Bytes
or_slash [] = codes "/"
or_slash (b ∷ s) = b ∷ s

-- `path.Base`
unfoldable pub path_base : Bytes → Bytes
path_base [] = codes "."
path_base (b ∷ s) = or_slash (last_segment (drop_last_slashes (b ∷ s)))

-- `path.Ext`
unfoldable pub path_ext : Bytes → Bytes
path_ext [] = []
path_ext (b ∷ s) =
    let rest = path_ext s in
    if not (is_empty rest) then rest else if b == b'.' && not (any_of is_slash s) then b ∷ s else []

-- a rune that is dropped from a name
abbrev pub is_control : ℕ → Bool
is_control r = ltb r 0x20 || (r == 0x7f)

-- `unicode.IsSpace`
abbrev pub is_space : ℕ → Bool
is_space r =
    within 0x9 0xd r
    || (r == 0x20
        || (r == 0x85
            || (r == 0xa0
                || (r == 0x1680
                    || (within 0x2000 0x200a r
                        || (r == 0x2028
                            || (r == 0x2029 || (r == 0x202f || (r == 0x205f || r == 0x3000)))))))))

unfoldable pub trim_left : List ℕ → List ℕ
trim_left [] = []
trim_left (r ∷ rs) = let rest = trim_left rs in if is_space r then rest else r ∷ rs

unfoldable pub trim_right : List ℕ → List ℕ
trim_right [] = []
trim_right (r ∷ rs) =
    let rest = trim_right rs in
    if is_space r then (elim rest [ [] ↦ [] | x ∷ xs ↦ r ∷ x ∷ xs ]) else r ∷ rest

-- the runes left by `strings.Map` and `strings.TrimSpace`; a byte that is no valid UTF-8 has
-- become U+FFFD
unfoldable pub cleaned_runes : Bytes → List ℕ
cleaned_runes name =
    trim_right (trim_left (keep_if (λ r. not (is_control r)) (runes (path_base (slashed name)))))

-- the extension that is kept of a name that is too long
unfoldable pub short_ext : Bytes → Bytes
short_ext cleaned = let ext = path_ext cleaned in if ltb 20 (length (runes ext)) then [] else ext

unfoldable pub shortened : List ℕ → Bytes
shortened rs =
    let cleaned = string_of rs in
    let ext = short_ext cleaned in
    if ltb max_filename_length (length rs)
    then string_of (take (max_filename_length - length (runes ext)) rs) ++ ext
    else cleaned

unfoldable pub sanitize_filename : Bytes → Bytes
sanitize_filename name =
    let cleaned = shortened (cleaned_runes name) in
    if is_empty cleaned || (cleaned ≟ codes "." || cleaned ≟ codes "..")
    then codes "file"
    else cleaned
