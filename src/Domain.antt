-- ===== src/Domain.antt =====
-- internal/domain: shares and their access codes, uploads, users. The clock is an argument: a
-- function that reads it once takes the reading. `crypto/rand` is a tape of the bytes that it will
-- yield, and a read past the end of the tape fails.
pub mod Codes
pub mod Random
pub mod Shares
pub mod Slugs
pub mod Verify
pub mod Opens
use lapis_archive_file_servi.Prelude.{
  ℕ, suc, zero, ◌+◌, ◌-◌, ◌%◌, [], ◌∷◌, ◌++◌, List, Bytes, codes, Bool, ◌||◌, true, false, not, leb,
  ltb, ◌==◌, ◌≟◌, if◌then◌else◌, length, get_or, take, drop, any_of,
}
use lapis_archive_file_servi.Prelude.Int.{ℤ, pos, ◌+ℤ◌, ltb_ℤ, leb_ℤ}
use lapis_archive_file_servi.Utf8.{within, runes, string_of}
use lapis_archive_file_servi.Time.{Time, Duration, after}
use lapis_archive_file_servi.Hex
use lapis_archive_file_servi.Result.{
  Error, Result, ok, err, expired, wrong_code, invalid_slug, share_limit, failed, wrapped,
}
use lapis_archive_file_servi.Act.{Act, pure, raise, wrap, ◌>>=◌}

abbrev pub slug_length : ℕ
slug_length = 10

abbrev pub code_length : ℕ
code_length = 6

abbrev pub salt_length : ℕ
salt_length = 16

-- 72 hours
abbrev pub default_ttl : Duration
default_ttl = pos 259200000000000

-- 7 * 24 hours
abbrev pub max_ttl : Duration
max_ttl = pos 604800000000000

abbrev pub slug_alphabet : Bytes
slug_alphabet = codes "abcdefghijklmnopqrstuvwxyzABCDEFGHIJKLMNOPQRSTUVWXYZ0123456789"

abbrev pub code_alphabet : Bytes
code_alphabet = codes "ABCDEFGHJKLMNPQRSTUVWXYZ23456789"

abbrev pub max_share_count : ℕ
max_share_count = 3

pub record Share : Type 0 where
  pub slug : Bytes
  pub storage_key : Bytes
  pub file_name : Bytes
  pub file_size : ℕ
  pub owner_id : Bytes
  pub owner_email : Bytes
  pub recipient_email : Bytes
  pub code_salt : Bytes
  pub code_hash : Bytes
  pub share_count : ℕ
  pub created_at : Time
  pub expires_at : Time

pub record Upload : Type 0 where
  pub storage_key : Bytes
  pub owner_id : Bytes
  pub file_name : Bytes
  pub size_bytes : ℕ
  pub created_at : Time
  pub delete_attempts : ℕ

pub record User : Type 0 where
  pub id : Bytes
  pub email : Bytes

-- What `crypto/rand` has still to yield.
abbrev pub Tape : Type 0
Tape = Bytes

-- `rand.Read(buf)` for a buffer of `n` bytes
unfoldable pub rand_read : ℕ → Act Tape Bytes
rand_read n tape =
    if leb n (length tape)
    then (ok (take n tape), drop n tape)
    else (err (failed (codes "entropy source failed")), [])

-- `max` in `randomString`: the largest multiple of the alphabet's length up to 256
abbrev pub accept_limit : Bytes → ℕ
accept_limit alphabet = 256 - 256 % length alphabet

-- the loop of `randomString`, with `left` letters to go; a byte at or above the limit is skipped
unfoldable pub random_letters : Bytes → ℕ → Bytes → Act Tape Bytes
random_letters alphabet zero out tape = (ok out, tape)
random_letters alphabet (suc left) out [] = (err (failed (codes "entropy source failed")), [])
random_letters alphabet (suc left) out (b ∷ tape) = elim (leb (accept_limit alphabet) b) [
  | true ↦ random_letters alphabet (suc left) out tape
  | false ↦ random_letters alphabet left (out ++ get_or alphabet (b % length alphabet) 0 ∷ []) tape
]

unfoldable pub random_string : Bytes → ℕ → Act Tape Bytes
unfolding random_letters
random_string alphabet length = random_letters alphabet length []

-- `if ttl <= 0 || ttl > MaxTTL { ttl = DefaultTTL }`
unfoldable pub bound_ttl : Duration → Duration
bound_ttl ttl = if leb_ℤ ttl (pos 0) || ltb_ℤ max_ttl ttl then default_ttl else ttl

unfoldable pub is_slug_letter : ℕ → Bool
is_slug_letter r = within b'a' b'z' r || within b'A' b'Z' r || within b'0' b'9' r

unfoldable pub validate_slug : Bytes → Result (Unit {0})
unfolding is_slug_letter
validate_slug slug =
    if not (length slug == slug_length)
    then err invalid_slug
    else if any_of (λ r. not (is_slug_letter r)) (runes slug)
    then err invalid_slug
    else ok tt

-- one round of the loop of `normalizeCode`: the runes that it appends
unfoldable pub normalize_rune : ℕ → List ℕ
normalize_rune r =
    if r == b' ' || r == b'-' then [] else if within b'a' b'z' r then (r - 32) ∷ [] else r ∷ []

unfoldable pub normalize_runes : List ℕ → List ℕ
unfolding normalize_rune
normalize_runes [] = []
normalize_runes (r ∷ rs) = normalize_rune r ++ normalize_runes rs

unfoldable pub normalize_code : Bytes → Bytes
unfolding normalize_runes
normalize_code code = string_of (normalize_runes (runes code))

unfoldable pub is_expired : Share → Time → Bool
is_expired s now = after now s.expires_at

-- the code and the salt that `NewShare` and `Rotate` draw
unfoldable pub draw_code : Act Tape (Bytes × Bytes)
draw_code = do
  code ← wrap (codes "generating code: ") (random_string code_alphabet code_length)
  salt ← wrap (codes "generating salt: ") (rand_read salt_length)
  pure (code, salt)

-- `crypto/sha256` is a parameter.
module _ (sha256 : Bytes → Bytes) where
  unfoldable pub hash_code : Bytes → Bytes → Bytes
  hash_code salt code = Hex.encode (sha256 (salt ++ code))

  unfoldable pub new_share :
      Bytes → Bytes → ℕ → Bytes → Bytes → Bytes → Duration → Time → Act Tape (Share × Bytes)
  new_share storage_key file_name file_size owner_id owner_email recipient_email ttl now = do
    slug ← wrap (codes "generating slug: ") (random_string slug_alphabet slug_length)
    (code, salt) ← draw_code
    pure (
      record {
        slug = slug;
        storage_key = storage_key;
        file_name = file_name;
        file_size = file_size;
        owner_id = owner_id;
        owner_email = owner_email;
        recipient_email = recipient_email;
        code_salt = Hex.encode salt;
        code_hash = hash_code salt code;
        share_count = 1;
        created_at = now;
        expires_at = now +ℤ bound_ttl ttl;
      },
      code,
    )

  -- The share is changed only where the call returns no error.
  unfoldable pub rotate : Share → Duration → Time → Act Tape (Share × Bytes)
  rotate s ttl now = if leb max_share_count s.share_count then raise share_limit else do
    (code, salt) ← draw_code
    pure (
      record s {
        code_salt = Hex.encode salt;
        code_hash = hash_code salt code;
        share_count = s.share_count + 1;
        expires_at = now +ℤ bound_ttl ttl;
      },
      code,
    )

  unfoldable pub verify : Share → Time → Bytes → Result (Unit {0})
  verify s now code =
      if after now s.expires_at then err expired else elim (Hex.decode s.code_salt) [
        | err e ↦ err (wrapped (codes "decoding salt: ") e)
        | ok salt ↦
            if s.code_hash ≟ hash_code salt (normalize_code code) then ok tt else err wrong_code
      ]
