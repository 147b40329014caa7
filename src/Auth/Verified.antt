-- ===== src/Auth/Verified.antt =====
-- Whom the middleware of internal/auth/auth.go lets through.
use lapis_archive_file_servi.Prelude.{
  [], ◌∷◌, ◌++◌, Bytes, codes, true, false, Option, none, some, is_empty, ◌≡◌, ◌≢◌, ◌∙◌, refl, sym,
  ap, ◌⊎◌, inl, inr, arith, Bool-cases, Option-cases,
}
use lapis_archive_file_servi.Result.{Result-cases, ok}
use lapis_archive_file_servi.Storagekey.{cut}
use lapis_archive_file_servi.Storagekey.RoundTrip.{cut_found}
use lapis_archive_file_servi.Text.{trim_space, equal_fold}
use lapis_archive_file_servi.Domain.{User}
use lapis_archive_file_servi.Auth.{
  Claims, Verifier, options_of, user_of, parse, bearer_token, aborted, next, required, optional,
  or_empty,
}

-- The header carries a token that the verifier accepts, and the user is what the token says.
pub record IsVerified (v : Verifier) (header : Bytes) (user : User) : Type 0 where
  pub scheme : Bytes
  pub rest : Bytes
  pub spelled : header ≡ scheme ++ b' ' ∷ rest
  pub bearer : equal_fold scheme (codes "Bearer") ≡ true
  pub claims : Claims
  pub accepted : v.keys (options_of v) (trim_space rest) ≡ ok (some claims)
  pub subject : claims (codes "sub") ≡ some user.id
  pub named : user.id ≢ []
  pub email : or_empty (claims (codes "email")) ≡ user.email

bearer_token_found :
    (header : Bytes)
    → is_empty (bearer_token header) ≡ false
    → (scheme : Bytes) × (rest : Bytes) × (header ≡ scheme ++ b' ' ∷ rest)
      × (equal_fold scheme (codes "Bearer") ≡ true)
      × (bearer_token header ≡ trim_space rest)
unfolding bearer_token
bearer_token_found header h = elim (Option-cases (cut header b' ')) [
  | inl e ↦ let clash : ⊥ = ground arith in absurd clash
  | inr (p, e) ↦ elim (Bool-cases (equal_fold p.0 (codes "Bearer"))) [
    | inl same ↦ (p.0, p.1, sym (cut_found b' ' header e).0, same, ground arith)
    | inr other ↦ let clash : ⊥ = ground arith in absurd clash
  ]
]

user_of_claims :
    (found : Option Claims) (user : User)
    → user_of found ≡ ok user
    → (claims : Claims) × (found ≡ some claims)
      × (claims (codes "sub") ≡ some user.id)
      × (user.id ≢ [])
      × (or_empty (claims (codes "email")) ≡ user.email)
unfolding user_of
user_of_claims none user h = cc
user_of_claims (some claims) user h = elim (Option-cases (claims (codes "sub"))) [
  | inl e ↦ let clash : ⊥ = ground arith in absurd clash
  | inr (id, e) ↦ elim (Bool-cases (is_empty id)) [
    | inl none_given ↦ let clash : ⊥ = ground arith in absurd clash
    | inr given ↦ (claims, refl, ground arith, λ empty. ground arith, ground arith)
  ]
]

parse-IsVerified :
    (v : Verifier) (header : Bytes) (user : User)
    → is_empty (bearer_token header) ≡ false
    → parse v (bearer_token header) ≡ ok user
    → IsVerified v header user
unfolding parse
parse-IsVerified v header user h e =
    let (scheme, rest, spelled, bearer, token) = bearer_token_found header h in
    elim (Result-cases (v.keys (options_of v) (bearer_token header))) [
      | inr (x, failed) ↦ let clash : ⊥ = ground arith in absurd clash
      | inl (found, got) ↦
          let (claims, is, subject, named, email) = user_of_claims found user (ground arith) in
          record {
            scheme = scheme;
            rest = rest;
            spelled = spelled;
            bearer = bearer;
            claims = claims;
            accepted = rw (← token) (got ∙ ap ok is);
            subject = subject;
            named = named;
            email = email;
          }
    ]

-- `Required` hands on requests of verified users only, and answers 401 to all others.
pub required-IsVerified :
    (v : Verifier) (header : Bytes) (before : Option User)
    → ((user : User) × (required v header before ≡ next (some user)) × IsVerified v header user)
      ⊎ ((message : Bytes) × (required v header before ≡ aborted 401 message))
unfolding required
required-IsVerified v header before = elim (Bool-cases (is_empty (bearer_token header))) [
  | inl e ↦ inr (codes "Authentication required", rw e refl)
  | inr e ↦ elim (Result-cases (parse v (bearer_token header))) [
    | inl (user, got) ↦ inl (user, ground arith, parse-IsVerified v header user e got)
    | inr (x, got) ↦ inr (codes "Invalid or expired token", ground arith)
  ]
]

-- `Optional` hands every request on, with a verified user or with the one it had.
pub optional-IsVerified :
    (v : Verifier) (header : Bytes) (before : Option User)
    → (optional v header before ≡ next before)
      ⊎ ((user : User) × (optional v header before ≡ next (some user)) × IsVerified v header user)
unfolding optional
optional-IsVerified v header before = elim (Bool-cases (is_empty (bearer_token header))) [
  | inl e ↦ inl (rw e refl)
  | inr e ↦ elim (Result-cases (parse v (bearer_token header))) [
    | inl (user, got) ↦ inr (user, ground arith, parse-IsVerified v header user e got)
    | inr (x, got) ↦ inl (ground arith)
  ]
]
