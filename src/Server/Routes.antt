-- ===== src/Server/Routes.antt =====
-- `SetupRoutes` of internal/server/routes.go: the table of the routes, with the middleware that each
-- runs through. Paths are lists of segments.
use lapis_archive_file_servi.Prelude.{
  ℕ, String, [], ◌∷◌, ◌++◌, List, Bytes, codes, Option, none, some, ◌≟◌, if◌then◌else◌,
}
use lapis_archive_file_servi.Prelude.Int.{ℤ}
use lapis_archive_file_servi.Time.{Duration, minute}
use lapis_archive_file_servi.Handlers.RateLimit.{RateLimiter, new_rate_limiter}
use lapis_archive_file_servi.Handlers.World.{Storage, ShareStore, UploadLookup}
use lapis_archive_file_servi.Handlers.Files.{UploadRecorder}
use lapis_archive_file_servi.Handlers.Multipart.{MultipartStorage}
use lapis_archive_file_servi.Auth.{Verifier}

pub record Deps (O : Type 0) : Type 0 where
  pub files : Storage O
  pub multipart : Option (MultipartStorage O)
  pub shares : Option ShareStore
  pub uploads : Option UploadRecorder
  pub upload_lookup : Option UploadLookup
  pub verifier : Option Verifier
  pub allowed_origins : List Bytes
  pub max_upload_bytes : ℤ
  pub retention_anon : Duration
  pub retention_owned : Duration

-- What browsers of other origins may do; none if no middleware for them is registered.
pub data Cors : Type 0 where
  all_origins : Cors
  origins : List Bytes → Cors

unfoldable pub cors_of : List Bytes → Option Cors
cors_of [] = none
cors_of (origin ∷ []) =
    if origin ≟ codes "*" then some all_origins else some (origins (origin ∷ []))
cors_of (origin ∷ other ∷ more) = some (origins (origin ∷ other ∷ more))

pub data Method : Type 0 where
  get post put delete options other : Method

pub data Segment : Type 0 where
  lit : Bytes → Segment
  param : Segment

-- the limiters that `SetupRoutes` makes
pub data LimiterName : Type 0 where
  upload_limit download_limit create_limit : LimiterName

pub data Middleware : Type 0 where
  rate_limit : LimiterName → Middleware
  optional_auth required_auth : Verifier → Middleware
  limit_body : ℕ → Middleware

pub data Endpoint (O : Type 0) : Type 0 where
  health : Endpoint O
  presign_upload get_file : Endpoint O
  init_multipart presign_part multipart_status complete_multipart abort_multipart :
      MultipartStorage O → Endpoint O
  share_maintenance auth_unavailable : Endpoint O
  create_share get_share unlock_share list_mine revoke_share : ShareStore → Endpoint O

-- `method` is none for `Any`.
pub record Route (O : Type 0) : Type 0 where
  pub method : Option Method
  pub path : List Segment
  pub chain : List Middleware
  pub endpoint : Endpoint O

abbrev pub max_json_bytes : ℕ
max_json_bytes = 65536

abbrev pub max_complete_bytes : ℕ
max_complete_bytes = 2097152

-- the limits of `RateLimitByIP(60, time.Minute)` and the others
abbrev pub new_limiter : LimiterName → RateLimiter
new_limiter upload_limit = new_rate_limiter 60 minute
new_limiter download_limit = new_rate_limiter 20 minute
new_limiter create_limit = new_rate_limiter 30 minute

-- `if deps.Verifier != nil { …Use(deps.Verifier.Optional()) }`
abbrev optionally : Option Verifier → List Middleware
optionally none = []
optionally (some v) = optional_auth v ∷ []

abbrev api : List Segment → List Segment
api path = lit (codes "api") ∷ lit (codes "v1") ∷ path

abbrev in_files : List Segment → List Segment
in_files path = api (lit (codes "files") ∷ path)

abbrev in_multipart : List Segment → List Segment
in_multipart path = api (lit (codes "uploads") ∷ lit (codes "multipart") ∷ path)

abbrev in_shares : List Segment → List Segment
in_shares path = api (lit (codes "shares") ∷ path)

module _ {O : Type 0} where
  abbrev route : Method → List Segment → List Middleware → Endpoint O → Route O
  route m path chain endpoint = record {
    method = some m;
    path = path;
    chain = chain;
    endpoint = endpoint;
  }

  abbrev any_method : List Segment → Endpoint O → Route O
  any_method path endpoint = record { method = none; path = path; chain = []; endpoint = endpoint }

  unfoldable pub file_routes : Option Verifier → List (Route O)
  file_routes v =
      route get (api (lit (codes "health") ∷ [])) [] health
      ∷ route post (in_files (lit (codes "presign-upload") ∷ []))
          (optionally v ++ (rate_limit upload_limit ∷ limit_body max_json_bytes ∷ []))
          presign_upload
      ∷ route get (in_files (param ∷ [])) (optionally v ++ (rate_limit download_limit ∷ []))
          get_file
      ∷ []

  -- a route of the group `/uploads/multipart`
  abbrev multipart_route : Option Verifier → String → ℕ → Endpoint O → Route O
  multipart_route v name max_bytes endpoint =
      route post (in_multipart (lit (codes name) ∷ []))
        (rate_limit upload_limit ∷ (optionally v ++ (limit_body max_bytes ∷ []))) endpoint

  unfoldable pub multipart_routes : Option Verifier → Option (MultipartStorage O) → List (Route O)
  multipart_routes v none = []
  multipart_routes v (some mp) =
      multipart_route v "init" max_json_bytes (init_multipart mp)
      ∷ multipart_route v "part" max_json_bytes (presign_part mp)
      ∷ multipart_route v "status" max_json_bytes (multipart_status mp)
      ∷ multipart_route v "complete" max_complete_bytes (complete_multipart mp)
      ∷ multipart_route v "abort" max_json_bytes (abort_multipart mp)
      ∷ []

  -- history and revoke
  unfoldable pub owner_routes : Option Verifier → ShareStore → List (Route O)
  owner_routes none store =
      route get (in_shares []) [] auth_unavailable
      ∷ route delete (in_shares (param ∷ [])) [] auth_unavailable
      ∷ []
  owner_routes (some v) store =
      route get (in_shares []) (required_auth v ∷ []) (list_mine store)
      ∷ route delete (in_shares (param ∷ [])) (required_auth v ∷ []) (revoke_share store)
      ∷ []

  unfoldable pub share_routes : Option Verifier → Option ShareStore → List (Route O)
  share_routes v none =
      any_method (in_shares []) share_maintenance
      ∷ any_method (in_shares (param ∷ [])) share_maintenance
      ∷ any_method (in_shares (param ∷ lit (codes "unlock") ∷ [])) share_maintenance
      ∷ []
  share_routes v (some store) =
      route post (in_shares [])
        (rate_limit create_limit ∷ (optionally v ++ (limit_body max_json_bytes ∷ [])))
        (create_share store)
      ∷ route get (in_shares (param ∷ [])) [] (get_share store)
      ∷ route post (in_shares (param ∷ lit (codes "unlock") ∷ [])) (limit_body max_json_bytes ∷ [])
          (unlock_share store)
      ∷ owner_routes v store

  unfoldable pub setup_routes : Deps O → List (Route O)
  setup_routes deps =
      file_routes deps.verifier
      ++ (multipart_routes deps.verifier deps.multipart ++ share_routes deps.verifier deps.shares)
