-- ===== src/Hex.antt =====
-- `encoding/hex`: two lower-case digits for each byte; decoding takes both cases.
use lapis_archive_file_servi.Prelude.{
  ℕ, ◌+◌, ◌-◌, ◌*◌, ◌/◌, ◌%◌, ◌<◌, [], ◌∷◌, Bytes, codes, ltb, if◌then◌else◌, ◌≡◌, refl, All, arith,
}
use lapis_archive_file_servi.Utf8.{within}
use lapis_archive_file_servi.Result.{Result, ok, err, failed, ◌>>=◌}

unfoldable pub digit : ℕ → ℕ
digit n = if ltb n 10 then b'0' + n else b'a' + (n - 10)

unfoldable pub encode : Bytes → Bytes
encode [] = []
encode (b ∷ s) = digit (b / 16) ∷ digit (b % 16) ∷ encode s

unfoldable pub nibble : ℕ → Result ℕ
nibble c =
    if within b'0' b'9' c
    then ok (c - b'0')
    else if within b'a' b'f' c
    then ok (c - b'a' + 10)
    else if within b'A' b'F' c
    then ok (c - b'A' + 10)
    else err (failed (codes "encoding/hex: invalid byte"))

unfoldable pub decode : Bytes → Result Bytes
decode [] = ok []
decode (x ∷ []) = err (failed (codes "encoding/hex: odd length hex string"))
decode (x ∷ y ∷ s) = do
  high ← nibble x
  low ← nibble y
  rest ← decode s
  ok ((high * 16 + low) ∷ rest)

nibble-digit : (n : ℕ) → n < 16 → nibble (digit n) ≡ ok n
unfolding nibble digit
nibble-digit n h = ground arith

abbrev pub IsByte : ℕ → Type 0
IsByte b = b < 256

-- Decoding gives back the bytes that were encoded.
pub decode-encode : (s : Bytes) → All IsByte s → decode (encode s) ≡ ok s
unfolding decode encode
decode-encode [] h = refl
decode-encode (b ∷ s) h =
    ground (arith, nibble-digit (b / 16), nibble-digit (b % 16), decode-encode s h.1)
