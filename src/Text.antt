-- ===== src/Text.antt =====
-- Package strings, as far as the configuration and the token middleware use it. A byte that begins no
-- valid sequence counts as one rune and is kept as it is.
use lapis_archive_file_servi.Prelude.{
  ℕ, zero, suc, ◌+◌, ◌-◌, [], ◌∷◌, List, Bytes, Bool, not, ◌==◌, any_of, if◌then◌else◌, map, ◌≟◌,
}
use lapis_archive_file_servi.Utf8.{decode_rune, runes, within}
use lapis_archive_file_servi.Handlers.Names.{is_space}

-- without the white space in front, from the byte after the given number of bytes
unfoldable pub trim_start : ℕ → Bytes → Bytes
trim_start skip [] = []
trim_start (suc skip) (b ∷ s) = trim_start skip s
trim_start zero (b ∷ s) =
    let (r, width) = decode_rune b s in
    let rest = trim_start (width - 1) s in if is_space r then rest else b ∷ s

abbrev pub all_space : Bytes → Bool
all_space s = not (any_of (λ r. not (is_space r)) (runes s))

-- without the white space at the end
unfoldable pub trim_end : ℕ → Bytes → Bytes
trim_end skip [] = []
trim_end (suc skip) (b ∷ s) = b ∷ trim_end skip s
trim_end zero (b ∷ s) =
    let rest = trim_end ((decode_rune b s).1 - 1) s in if all_space (b ∷ s) then [] else b ∷ rest

-- `strings.TrimSpace`
unfoldable pub trim_space : Bytes → Bytes
unfolding trim_start trim_end
trim_space s = trim_end 0 (trim_start 0 s)

-- the part up to the separator joined to the parts after it
unfoldable pub join_first : ℕ → List Bytes → List Bytes
join_first c [] = (c ∷ []) ∷ []
join_first c (part ∷ parts) = (c ∷ part) ∷ parts

-- `strings.Split`, for a separator of one byte
unfoldable pub split_on : ℕ → Bytes → List Bytes
unfolding join_first
split_on sep [] = [] ∷ []
split_on sep (c ∷ s) =
    let parts = split_on sep s in if c == sep then [] ∷ parts else join_first c parts

abbrev pub lower_ascii : ℕ → ℕ
lower_ascii c = if within b'A' b'Z' c then c - b'A' + b'a' else c

-- `strings.EqualFold` with a text of ASCII letters none of which is a k or an s, the letters that fold
-- with runes beyond ASCII
unfoldable pub equal_fold : Bytes → Bytes → Bool
equal_fold s t = map lower_ascii s ≟ map lower_ascii t
