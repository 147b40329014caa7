-- ===== src/Storagekey.antt =====
-- internal/storagekey/storagekey.go: object keys of the form "<fileID>_<fileName>".
pub mod RoundTrip
use lapis_archive_file_servi.Prelude.{
  ℕ, List, [], ◌∷◌, ◌++◌, Bytes, codes, Option, none, some, ◌==◌, true, false, Bool,
}

-- `strings.Cut(s, sep)` for a separator of one byte: `none` if it is not found.
unfoldable pub cut : Bytes → ℕ → Option (Bytes × Bytes)
cut [] sep = none
cut (c ∷ s) sep =
    let rest = cut s sep in
    elim (c == sep) [
      | true ↦ some ([], s)
      | false ↦ elim rest [ none ↦ none | some (before, found) ↦ some (c ∷ before, found) ]
    ]

unfoldable pub build : Bytes → Bytes → Bytes
build file_id file_name = file_id ++ b'_' ∷ file_name

unfoldable pub split : Bytes → Bytes × Bytes
unfolding cut
split key = elim (cut key b'_') [ none ↦ ([], key) | some (id, name) ↦ (id, name) ]
