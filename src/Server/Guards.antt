-- ===== src/Server/Guards.antt =====
-- The middleware that the routes of internal/server/routes.go stand behind.
use lapis_archive_file_servi.Prelude.{[], ◌∷◌, List, Option, none, some, All, All-append, ◌≡◌, refl}
use lapis_archive_file_servi.Handlers.World.{ShareStore}
use lapis_archive_file_servi.Handlers.Multipart.{MultipartStorage}
use lapis_archive_file_servi.Auth.{Verifier}
use lapis_archive_file_servi.Server.Routes.{
  max_json_bytes, Deps, LimiterName, upload_limit, download_limit, create_limit, Middleware,
  rate_limit, optional_auth, required_auth, limit_body, Endpoint, health, presign_upload, get_file,
  init_multipart, presign_part, multipart_status, complete_multipart, abort_multipart,
  share_maintenance, auth_unavailable, create_share, get_share, unlock_share, list_mine,
  revoke_share, Route, file_routes, multipart_routes, owner_routes, share_routes, setup_routes,
}

-- A limiter stands in the chain, behind nothing but the token middleware and the limits of the body.
abbrev pub Limits : LimiterName → List Middleware → Type 0
Limits name [] = ⊥
Limits name (rate_limit n ∷ chain) = n ≡ name
Limits name (optional_auth v ∷ chain) = Limits name chain
Limits name (required_auth v ∷ chain) = Limits name chain
Limits name (limit_body n ∷ chain) = Limits name chain

module _ {O : Type 0} (v : Option Verifier) (st : Option ShareStore) where
  -- the middleware that an endpoint stands behind
  abbrev pub Guards : List Middleware → Endpoint O → Type 0
  Guards chain health = Unit
  Guards chain presign_upload = Limits upload_limit chain
  Guards chain get_file = Limits download_limit chain
  Guards chain (init_multipart mp) = Limits upload_limit chain
  Guards chain (presign_part mp) = Limits upload_limit chain
  Guards chain (multipart_status mp) = Limits upload_limit chain
  Guards chain (complete_multipart mp) = Limits upload_limit chain
  Guards chain (abort_multipart mp) = Limits upload_limit chain
  Guards chain share_maintenance = Unit
  Guards chain auth_unavailable = Unit
  Guards chain (create_share store) = Limits create_limit chain
  Guards chain (get_share store) = Unit
  Guards chain (unlock_share store) = (st ≡ some store) × (chain ≡ limit_body max_json_bytes ∷ [])
  Guards chain (list_mine store) = (w : Verifier) × (v ≡ some w) × (chain ≡ required_auth w ∷ [])
  Guards chain (revoke_share store) =
      (w : Verifier) × (v ≡ some w) × (st ≡ some store) × (chain ≡ required_auth w ∷ [])

  abbrev pub Guarded : Route O → Type 0
  Guarded r = Guards r.chain r.endpoint

file_routes-Guarded :
    (O : Type 0) (v : Option Verifier) (st : Option ShareStore)
    → All (Guarded {O = O} v st) (file_routes v)
unfolding file_routes
file_routes-Guarded O none st = (tt, (refl, (refl, tt)))
file_routes-Guarded O (some w) st = (tt, (refl, (refl, tt)))

share_routes-Guarded :
    (O : Type 0) (v : Option Verifier) (st : Option ShareStore)
    → All (Guarded {O = O} v st) (share_routes v st)
unfolding share_routes owner_routes
share_routes-Guarded O v none = (tt, (tt, (tt, tt)))
share_routes-Guarded O none (some store) = (refl, (tt, ((refl, refl), (tt, (tt, tt)))))
share_routes-Guarded O (some w) (some store) =
    (refl, (tt, ((refl, refl), ((w, refl, refl), ((w, refl, refl, refl), tt)))))

module _ {O : Type 0} where
  multipart_routes-Guarded :
      (v : Option Verifier) (st : Option ShareStore) (mp : Option (MultipartStorage O))
      → All (Guarded v st) (multipart_routes v mp)
  unfolding multipart_routes
  multipart_routes-Guarded v st none = tt
  multipart_routes-Guarded v st (some mp) = (refl, (refl, (refl, (refl, (refl, tt)))))

  pub setup_routes-Guarded :
      (deps : Deps O) → All (Guarded deps.verifier deps.shares) (setup_routes deps)
  unfolding setup_routes
  setup_routes-Guarded deps =
      All-append (Guarded deps.verifier deps.shares) (file_routes deps.verifier) _
        (file_routes-Guarded O deps.verifier deps.shares)
        (All-append (Guarded deps.verifier deps.shares)
          (multipart_routes deps.verifier deps.multipart) (share_routes deps.verifier deps.shares)
          (multipart_routes-Guarded deps.verifier deps.shares deps.multipart)
          (share_routes-Guarded O deps.verifier deps.shares))
