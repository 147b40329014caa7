-- ===== src/Server/Serve.antt =====
-- How a request runs through a route of internal/server/routes.go: the middleware one after the other
-- (RateLimitByIP of internal/handlers/ratelimit.go, the token middleware, limitBody), and the handler.
-- Which route it is for is left to the router, a parameter.
use lapis_archive_file_servi.Prelude.{
  ℕ, [], ◌∷◌, List, Bytes, codes, Bool, Option, none, some, if◌then◌else◌,
}
use lapis_archive_file_servi.Act.{Step}
use lapis_archive_file_servi.Domain.{User}
use lapis_archive_file_servi.Handlers.RateLimit.{RateLimiter, allow}
use lapis_archive_file_servi.Handlers.World.{World, Reply, success, failure, read_clock}
use lapis_archive_file_servi.Handlers.Health.{HealthResponse, health_handler}
use lapis_archive_file_servi.Handlers.Files.{UploadRequest, Presigned, Download}
use lapis_archive_file_servi.Handlers.Files
use lapis_archive_file_servi.Handlers.Multipart.{Part, MultipartRef, Session, Completed}
use lapis_archive_file_servi.Handlers.Multipart
use lapis_archive_file_servi.Handlers.Share.{ShareMeta, Unlock, Unlocked}
use lapis_archive_file_servi.Handlers.Share
use lapis_archive_file_servi.Handlers.Reshare.{CreateShare, Created}
use lapis_archive_file_servi.Handlers.Reshare
use lapis_archive_file_servi.Auth.{Passage, aborted, next, required, optional}
use lapis_archive_file_servi.Server.Routes.{
  Deps, Method, LimiterName, upload_limit, download_limit, create_limit, Middleware, rate_limit,
  optional_auth, required_auth, limit_body, Endpoint, health, presign_upload, get_file,
  init_multipart, presign_part, multipart_status, complete_multipart, abort_multipart,
  share_maintenance, auth_unavailable, create_share, get_share, unlock_share, list_mine,
  revoke_share, Route, setup_routes,
}

-- What the JSON library binds the body to, for each type that a handler asks for.
pub record Body : Type 0 where
  pub upload : Option UploadRequest
  pub part : Option (MultipartRef × ℕ)
  pub session : Option MultipartRef
  pub parts : Option (MultipartRef × List Part)
  pub share : Option CreateShare
  pub unlock : Option Unlock

-- `body` is what the JSON library makes of the request, if reads of it fail past so many bytes (none: no
-- limit). It reads one value, and not what may follow it. `file_id` is what `uuid.New` returns.
pub record Request : Type 0 where
  pub method : Method
  pub path : List Bytes
  pub client : Bytes
  pub authorization : Bytes
  pub body : Option ℕ → Body
  pub force_download : Bool
  pub file_id : Bytes

-- the state of the handlers, and the limiters of the routes
pub record Site (O : Type 0) : Type 0 where
  pub world : World O
  pub uploads : RateLimiter
  pub downloads : RateLimiter
  pub creates : RateLimiter

pub data Payload : Type 0 where
  healthy : HealthResponse → Payload
  presigned : Presigned → Payload
  download : Download → Payload
  session : Session → Payload
  part_url : Bytes → Payload
  parts : List Part → Payload
  completed : Completed → Payload
  upload_aborted : Bytes → Payload
  created : Created → Payload
  meta : ShareMeta → Payload
  unlocked : Unlocked → Payload
  mine : List ShareMeta → Payload
  revoked : Bytes → Payload

-- What a request carries from one middleware to the next.
pub record Context : Type 0 where
  pub user : Option User
  pub body : Body

pub data Verdict : Type 0 where
  stopped : ℕ → Bytes → Verdict
  passed : Context → Verdict

-- The router: the route of the table that a request is for, with the path's parameter.
abbrev pub Router : Type 0 → Type 0
Router O = Request → List (Route O) → Option (Route O × Bytes)

unfoldable pub answer_as : {A : Type 0} → (A → Payload) → Reply A → Reply Payload
answer_as f (success a) = success (f a)
answer_as f (failure status message) = failure status message

-- what the token middleware says, as a verdict
abbrev pub verdict_of : Body → Passage → Verdict
verdict_of body (aborted status message) = stopped status message
verdict_of body (next user) = passed (record { user = user; body = body })

abbrev pub maintenance : Reply Payload
maintenance = failure 503 (
    codes
      "Sharing is temporarily unavailable while the database is under maintenance. Back in a few minutes.")

abbrev pub no_accounts : Reply Payload
no_accounts = failure 503 (codes "Accounts are unavailable right now")

module _ {O : Type 0} where
  abbrev pub limiter : LimiterName → Site O → RateLimiter
  limiter upload_limit s = s.uploads
  limiter download_limit s = s.downloads
  limiter create_limit s = s.creates

  abbrev pub set_limiter : LimiterName → RateLimiter → Site O → Site O
  set_limiter upload_limit r s = record s { uploads = r }
  set_limiter download_limit r s = record s { downloads = r }
  set_limiter create_limit r s = record s { creates = r }

  -- `RateLimitByIP`
  unfoldable pub rate_limit_by_ip : LimiterName → Bytes → Context → Step (Site O) Verdict
  rate_limit_by_ip name client c s =
      let (t, world) = read_clock s.world in
      let (allowed, r) = allow (limiter name s) client t in
      let s₁ = set_limiter name r (record s { world = world }) in
      if allowed then (passed c, s₁) else (stopped 429 (codes "Too many requests, slow down"), s₁)

  unfoldable pub run_one : Request → Middleware → Context → Step (Site O) Verdict
  run_one req (rate_limit name) c s = rate_limit_by_ip name req.client c s
  run_one req (optional_auth v) c s = (verdict_of c.body (optional v req.authorization c.user), s)
  run_one req (required_auth v) c s = (verdict_of c.body (required v req.authorization c.user), s)
  run_one req (limit_body max_bytes) c s =
      (passed (record c { body = req.body (some max_bytes) }), s)

  unfoldable pub run_chain : Request → List Middleware → Context → Step (Site O) Verdict
  run_chain req [] c s = (passed c, s)
  run_chain req (m ∷ chain) c s =
      let (verdict, s₁) = run_one req m c s in
      elim verdict [
        | stopped status message ↦ (stopped status message, s₁)
        | passed c₁ ↦ run_chain req chain c₁ s₁
      ]

  -- a handler, on the part of the state that it has
  unfoldable pub in_world :
      {A : Type 0} → (A → Payload) → Step (World O) (Reply A) → Step (Site O) (Reply Payload)
  in_world f handler s =
      let (reply, world) = handler s.world in (answer_as f reply, record s { world = world })

  module _ (sha256 : Bytes → Bytes) (deps : Deps O) where
    -- the handler of an endpoint, where `value` is the path's parameter
    unfoldable pub respond : Request → Context → Bytes → Endpoint O → Step (Site O) (Reply Payload)
    respond req c value health = in_world healthy health_handler
    respond req c value presign_upload = in_world presigned (
        Files.presign_upload deps.files deps.uploads deps.max_upload_bytes c.user req.file_id
          c.body.upload)
    respond req c value get_file =
        in_world download (Files.get_file deps.files value req.force_download)
    respond req c value (init_multipart mp) =
        in_world session
          (Multipart.init mp deps.uploads deps.max_upload_bytes c.user req.file_id c.body.upload)
    respond req c value (presign_part mp) =
        in_world part_url (Multipart.presign_part mp c.body.part)
    respond req c value (multipart_status mp) = in_world parts (Multipart.status mp c.body.session)
    respond req c value (complete_multipart mp) =
        in_world completed (Multipart.complete mp deps.max_upload_bytes c.body.parts)
    respond req c value (abort_multipart mp) =
        in_world upload_aborted (Multipart.abort mp c.body.session)
    respond req c value share_maintenance = λ s. (maintenance, s)
    respond req c value auth_unavailable = λ s. (no_accounts, s)
    respond req c value (create_share store) = in_world created (
        Reshare.create_share store deps.upload_lookup deps.retention_anon deps.retention_owned
          sha256 deps.files c.user c.body.share)
    respond req c value (get_share store) = in_world meta (Share.get_share store req.client value)
    respond req c value (unlock_share store) =
        in_world unlocked
          (Share.unlock_share store sha256 deps.files req.client value c.body.unlock)
    respond req c value (list_mine store) = in_world mine (Share.list_mine store c.user)
    respond req c value (revoke_share store) =
        in_world revoked (Share.revoke_share store c.user value)

    unfoldable pub run_route : Request → Bytes → Route O → Step (Site O) (Reply Payload)
    run_route req value r s =
        let (verdict, s₁) =
          run_chain req r.chain (record { user = none; body = req.body none }) s in
        elim verdict [
          | stopped status message ↦ (failure status message, s₁)
          | passed c ↦ respond req c value r.endpoint s₁
        ]

    unfoldable pub serve : Router O → Request → Step (Site O) (Reply Payload)
    serve router req s = elim (router req (setup_routes deps)) [
      | none ↦ (failure 404 (codes "404 page not found"), s)
      | some (r, value) ↦ run_route req value r s
    ]
