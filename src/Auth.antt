-- ===== src/Auth.antt =====
-- internal/auth/auth.go: the token middleware, over the JWT library: what it makes of a token, under
-- the options that the verifier gives it, is a parameter, and so are the key set's URL and its loading.
pub mod Verified
use lapis_archive_file_servi.Prelude.{
  ℕ, [], ◌∷◌, ◌++◌, List, Bytes, codes, Bool, not, ◌||◌, Option, none, some, is_empty, ◌==◌,
  if◌then◌else◌,
}
use lapis_archive_file_servi.Result.{Result, ok, err, failed, wrapped, ◌>>=◌}
use lapis_archive_file_servi.Decimal.{print_nat}
use lapis_archive_file_servi.Storagekey.{cut}
use lapis_archive_file_servi.Text.{trim_space, equal_fold}
use lapis_archive_file_servi.Domain.{User}

-- the options of `jwt.Parse`
pub record ParserOptions : Type 0 where
  pub valid_methods : List Bytes
  pub issuer : Option Bytes
  pub audience : Option Bytes

-- `jwt.MapClaims`: the claims that are strings
abbrev pub Claims : Type 0
Claims = Bytes → Option Bytes

-- `jwt.Parse` with the keys of the verifier: the claims of a token that it accepts, if their type is
-- the expected one
abbrev pub Parser : Type 0
Parser = ParserOptions → Bytes → Result (Option Claims)

pub record Verifier : Type 0 where
  pub keys : Parser
  pub issuer : Bytes
  pub audience : Bytes

-- a claim that is not a string counts as the empty text
abbrev or_empty : Option Bytes → Bytes
or_empty none = []
or_empty (some s) = s

abbrev option_of : Bytes → Option Bytes
option_of s = if is_empty s then none else some s

abbrev pub options_of : Verifier → ParserOptions
options_of v = record {
  valid_methods = codes "RS256" ∷ codes "ES256" ∷ [];
  issuer = option_of v.issuer;
  audience = option_of v.audience;
}

-- the user of claims
unfoldable pub user_of : Option Claims → Result User
user_of none = err (failed (codes "unexpected claims type"))
user_of (some claims) =
    let sub = or_empty (claims (codes "sub")) in
    if is_empty sub
    then err (failed (codes "token missing sub"))
    else ok (record { id = sub; email = or_empty (claims (codes "email")) })

-- `Verifier.parse`
unfoldable pub parse : Verifier → Bytes → Result User
parse v token = do claims ← v.keys (options_of v) token; user_of claims

-- `bearerToken`; a missing header is empty
unfoldable pub bearer_token : Bytes → Bytes
bearer_token header = elim (cut header b' ') [
  | none ↦ []
  | some (scheme, rest) ↦ if equal_fold scheme (codes "Bearer") then trim_space rest else []
]

-- What a middleware does: it answers the request itself, or hands it on with the user in its context.
pub data Passage : Type 0 where
  aborted : ℕ → Bytes → Passage
  next : Option User → Passage

-- `Verifier.Required`
unfoldable pub required : Verifier → Bytes → Option User → Passage
required v header user =
    let token = bearer_token header in
    if is_empty token then aborted 401 (codes "Authentication required") else elim (parse v token) [
      | err e ↦ aborted 401 (codes "Invalid or expired token")
      | ok u ↦ next (some u)
    ]

-- `Verifier.Optional`
unfoldable pub optional : Verifier → Bytes → Option User → Passage
optional v header user =
    let token = bearer_token header in
    if is_empty token
    then next user
    else elim (parse v token) [ err e ↦ next user | ok u ↦ next (some u) ]

-- what comes back from the URL of the key set: the status, and the number of keys if the body decodes
pub record KeySet : Type 0 where
  pub status : ℕ
  pub keys : Result ℕ

-- the number of keys that the issuer serves
unfoldable pub check_keys : Bytes → Result ℕ → Result (Unit {0})
check_keys url (err e) = err (wrapped (codes "decoding jwks: ") e)
check_keys url (ok n) =
    if n == 0
    then err (
        failed (
          codes "jwks at "
          ++ (url
              ++ codes
                  " has no keys: the issuer is still signing with a shared secret, switch it to asymmetric signing keys (ES256/RS256)")))
    else ok tt

-- `checkJWKSHasKeys`, where `fetch` is the request, with what building it refuses
unfoldable pub check_jwks_has_keys :
    (Bytes → Result (Unit {0})) → (Bytes → Result KeySet) → Bytes → Result (Unit {0})
check_jwks_has_keys request fetch url = elim (request url) [
  | err e ↦ err (wrapped (codes "building jwks request: ") e)
  | ok built ↦ elim (fetch url) [
    | err e ↦ err (wrapped (codes "fetching jwks: ") e)
    | ok set ↦
        if not (set.status == 200)
        then err (failed (codes "fetching jwks: unexpected status " ++ print_nat set.status))
        else check_keys url set.keys
  ]
]

-- `NewVerifier`, where `load` is the key library
unfoldable pub new_verifier :
    (Bytes → Result (Unit {0}))
    → (Bytes → Result KeySet)
    → (Bytes → Result Parser)
    → Bytes
    → Bytes
    → Bytes
    → Result Verifier
new_verifier request fetch load url issuer audience =
    if is_empty url
    then err (failed (codes "jwks url is empty"))
    else elim (check_jwks_has_keys request fetch url) [
      | err e ↦ err e
      | ok has_keys ↦ elim (load url) [
        | err e ↦ err (wrapped (codes "loading jwks: ") e)
        | ok keys ↦ ok (record { keys = keys; issuer = issuer; audience = audience })
      ]
    ]
