-- ===== src/Tests/Startup.antt =====
-- internal/config/config.go and internal/auth/auth.go on a small environment and a small key set.
use lapis_archive_file_servi.Prelude.{
  [], ◌∷◌, Bytes, codes, Option, none, some, ◌≟◌, if◌then◌else◌, keep_if, any_of, ◌≡◌, ◌⊎◌, refl,
  arith,
}
use lapis_archive_file_servi.Prelude.Int.{pos, negsuc}
use lapis_archive_file_servi.Result.{Result, ok, err, failed}
use lapis_archive_file_servi.Decimal.{itoa, digits_before}
use lapis_archive_file_servi.Text.{split_on, trim_space, equal_fold}
use lapis_archive_file_servi.Utf8.{decode_rune, runes}
use lapis_archive_file_servi.Storagekey.{cut}
use lapis_archive_file_servi.Config.{get_env_int, get_env_list}
use lapis_archive_file_servi.Config.Laws.{get_env_int-itoa}
use lapis_archive_file_servi.Domain.{User}
use lapis_archive_file_servi.Auth.{
  ParserOptions, Claims, Verifier, parse, user_of, bearer_token, required, aborted, next,
}
use lapis_archive_file_servi.Auth.Verified.{IsVerified, required-IsVerified}

abbrev environment : Bytes → Bytes
environment name =
    if name ≟ codes "PORT"
    then codes "-12"
    else if name ≟ codes "ALLOWED_ORIGINS"
    then codes " https://a, ,https://b "
    else []

twelve : environment (codes "PORT") ≡ itoa (negsuc 11)
unfolding ◌≟◌ itoa digits_before
twelve = refl

get_env_int-itoa_example : get_env_int environment (codes "PORT") (pos 6060) ≡ negsuc 11
get_env_int-itoa_example =
    get_env_int-itoa environment (codes "PORT") (negsuc 11) (pos 6060) (omega arith) twelve

origins :
    get_env_list environment (codes "ALLOWED_ORIGINS") []
    ≡ codes "https://a" ∷ codes "https://b" ∷ []
unfolding get_env_list ◌≟◌ keep_if split_on trim_space decode_rune any_of runes
origins = refl

-- accepts one token
abbrev pub keys : ParserOptions → Bytes → Result (Option Claims)
keys options token =
    if token ≟ codes "t0k3n"
    then ok (some (λ claim. if claim ≟ codes "sub" then some (codes "u1") else none))
    else err (failed (codes "token is malformed"))

abbrev verifier : Verifier
verifier = record { keys = keys; issuer = codes "https://issuer"; audience = [] }

let_in :
    required verifier (codes "bearer  t0k3n ") none
    ≡ next (some (record { id = codes "u1"; email = [] }))
unfolding required bearer_token cut equal_fold ◌≟◌ trim_space decode_rune any_of runes parse user_of
let_in = refl

kept_out :
    required verifier (codes "Basic t0k3n") none ≡ aborted 401 (codes "Authentication required")
unfolding required bearer_token cut equal_fold ◌≟◌
kept_out = refl

required-IsVerified_example :
    ((user : User) × (required verifier (codes "bearer  t0k3n ") none ≡ next (some user))
      × IsVerified verifier (codes "bearer  t0k3n ") user)
    ⊎ ((message : Bytes) × (required verifier (codes "bearer  t0k3n ") none ≡ aborted 401 message))
required-IsVerified_example = required-IsVerified verifier (codes "bearer  t0k3n ") none
