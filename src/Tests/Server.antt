-- ===== src/Tests/Server.antt =====
-- The routes of internal/server/routes.go with a router that takes the first route that fits.
use lapis_archive_file_servi.Prelude.{
  [], ◌∷◌, List, Bytes, codes, Bool, true, false, Option, none, some, keep_if, any_of, ◌≟◌,
  if◌then◌else◌, ◌≡◌, refl, inl, inr, arith, Bool-cases, Option-cases,
}
use lapis_archive_file_servi.Result.{Result, ok, err, failed}
use lapis_archive_file_servi.Text.{trim_space, equal_fold}
use lapis_archive_file_servi.Utf8.{decode_rune, runes}
use lapis_archive_file_servi.Prelude.Int.{pos}
use lapis_archive_file_servi.Uuid.{canonical, unbraced, groups, skip_hyphen, hex_digit}
use lapis_archive_file_servi.Time.{hour, to_micros}
use lapis_archive_file_servi.Storagekey.{cut}
use lapis_archive_file_servi.Auth.{ParserOptions, Claims, parse, user_of, bearer_token, required}
use lapis_archive_file_servi.Domain.{validate_slug}
use lapis_archive_file_servi.Store.{statement, run_fated}
use lapis_archive_file_servi.Store.Shares
use lapis_archive_file_servi.Handlers.Share
use lapis_archive_file_servi.Handlers.World.{success, failure, db_shares}
use lapis_archive_file_servi.Server.Routes.{
  Deps, Method, get, post, put, delete, options, Segment, lit, param, setup_routes, file_routes,
  multipart_routes, share_routes, owner_routes, upload_limit, new_limiter, download_limit,
  create_limit,
}
use lapis_archive_file_servi.Server.Serve.{
  Request, Site, revoked, Router, serve, run_route, run_chain, run_one, respond, in_world,
  answer_as,
}
use lapis_archive_file_servi.Server.Access.{IsRevoked}
use lapis_archive_file_servi.Server.Success.{IsRouter}
use lapis_archive_file_servi.Server.Permitted.{serve-Permitted}
use lapis_archive_file_servi.Tests.Domain.{digest, the_slug}
use lapis_archive_file_servi.Tests.Handlers.{files, filled}

unfoldable pub match_path : List Segment → List Bytes → Option Bytes
match_path [] [] = some []
match_path [] (here ∷ more) = none
match_path (segment ∷ path) [] = none
match_path (lit text ∷ path) (here ∷ more) =
    let rest = match_path path more in if text ≟ here then rest else none
match_path (param ∷ path) (here ∷ more) = elim (match_path path more) [
  | none ↦ none
  | some p ↦ some here
]

unfoldable pub is_method : Option Method → Method → Bool
is_method none m = true
is_method (some get) get = true
is_method (some post) post = true
is_method (some put) put = true
is_method (some delete) delete = true
is_method (some options) options = true
is_method _ m = false

unfoldable pub first_fit : {O : Type 0} → Router O
first_fit req [] = none
first_fit req (r ∷ routes) =
    let rest = first_fit req routes in
    elim (match_path r.path req.path) [
      | none ↦ rest
      | some value ↦ if is_method r.method req.method then some (r, value) else rest
    ]

pub first_fit-IsRouter : {O : Type 0} → IsRouter {O = O} first_fit
unfolding first_fit
first_fit-IsRouter req [] r value h = let clash : ⊥ = cc in clash
first_fit-IsRouter req (q ∷ routes) r value h = elim (Option-cases (match_path q.path req.path)) [
  | inl e ↦ inr (first_fit-IsRouter req routes r value (ground arith))
  | inr (v, e) ↦ elim (Bool-cases (is_method q.method req.method)) [
    | inl fits ↦ inl (ground arith)
    | inr differs ↦ inr (first_fit-IsRouter req routes r value (ground arith))
  ]
]

-- accepts one token
abbrev keys : ParserOptions → Bytes → Result (Option Claims)
keys wanted token =
    if token ≟ codes "t0k3n"
    then ok (
        some (λ claim.
          if claim ≟ codes "sub"
          then some (codes "00000000-0000-0000-0000-000000000001")
          else none))
    else err (failed (codes "token is malformed"))

abbrev deps : Deps (Unit {0})
deps = record {
  files = files;
  multipart = none;
  shares = some db_shares;
  uploads = none;
  upload_lookup = none;
  verifier = some (record { keys = keys; issuer = codes "https://issuer"; audience = [] });
  allowed_origins = [];
  max_upload_bytes = pos 1024;
  retention_anon = hour;
  retention_owned = hour;
}

abbrev pub site : Site (Unit {0})
site = record {
  world = filled;
  uploads = new_limiter upload_limit;
  downloads = new_limiter download_limit;
  creates = new_limiter create_limit;
}

abbrev pub revocation : Request
revocation = record {
  method = delete;
  path = codes "api" ∷ codes "v1" ∷ codes "shares" ∷ the_slug ∷ [];
  client = codes "10.0.0.1";
  authorization = codes "Bearer t0k3n";
  body = λ limit. record {
    upload = none;
    part = none;
    session = none;
    parts = none;
    share = none;
    unlock = none;
  };
  force_download = false;
  file_id = codes "id";
}

done : (serve digest deps first_fit revocation site).0 ≡ success (revoked the_slug)
unfolding serve first_fit setup_routes file_routes match_path ◌≟◌ multipart_routes share_routes
    is_method owner_routes run_route run_chain run_one required bearer_token cut equal_fold
    trim_space decode_rune any_of runes parse user_of respond in_world answer_as Share.revoke_share
    validate_slug Shares.delete statement run_fated keep_if Shares.share_row to_micros canonical
    unbraced groups skip_hyphen hex_digit
done = refl

kept_out :
    (serve digest deps first_fit (record revocation { authorization = [] }) site).0
    ≡ failure 401 (codes "Authentication required")
unfolding serve first_fit setup_routes file_routes match_path ◌≟◌ multipart_routes share_routes
    is_method owner_routes run_route run_chain run_one required bearer_token cut
kept_out = refl

serve-Permitted_example : IsRevoked revocation site deps the_slug
serve-Permitted_example =
    serve-Permitted digest deps first_fit revocation site (revoked the_slug) first_fit-IsRouter done
