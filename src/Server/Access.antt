-- ===== src/Server/Access.antt =====
-- What a success of a request to internal/server/routes.go says of the request.
use lapis_archive_file_servi.Prelude.{true, Bytes, some, ◌≡◌}
use lapis_archive_file_servi.Result.{ok}
use lapis_archive_file_servi.Domain.{User}
use lapis_archive_file_servi.Handlers.World.{ShareStore}
use lapis_archive_file_servi.Auth.{Verifier}
use lapis_archive_file_servi.Auth.Verified.{IsVerified}
use lapis_archive_file_servi.Server.Routes.{
  Deps, max_json_bytes, upload_limit, download_limit, create_limit,
}
use lapis_archive_file_servi.Server.Serve.{
  Request, Site, Payload, healthy, presigned, download, session, part_url, parts, completed,
  upload_aborted, created, meta, unlocked, mine, revoked,
}
use lapis_archive_file_servi.Domain.Slugs.{IsSlug}
use lapis_archive_file_servi.Handlers.Share.{Unlock, Unlocked, allow_unlock}
use lapis_archive_file_servi.Handlers.Unlock.{Opened}
use lapis_archive_file_servi.Server.Chain.{Admitted}

module _ {O : Type 0} (req : Request) (s : Site O) where
  -- The store deletes the share, as one of a user whom the token names.
  pub record IsRevoked (deps : Deps O) (slug : Bytes) : Type 0 where
    pub verifier : Verifier
    pub store : ShareStore
    pub user : User
    pub checks : deps.verifier ≡ some verifier
    pub stores : deps.shares ≡ some store
    pub verified : IsVerified verifier req.authorization user
    pub deleted : (store.delete slug user.id s.world.db).0 ≡ ok tt

  pub record IsListed (deps : Deps O) : Type 0 where
    pub verifier : Verifier
    pub user : User
    pub checks : deps.verifier ≡ some verifier
    pub verified : IsVerified verifier req.authorization user

module _ {O : Type 0} (sha256 : Bytes → Bytes) (req : Request) (s : Site O) where
  -- The limiters admit the attempt, the first 64 KB of the request have a code and a name as JSON,
  -- and the store has a share that this code opens.
  pub record IsUnlocked (deps : Deps O) (u : Unlocked) : Type 0 where
    pub store : ShareStore
    pub slug : Bytes
    pub body : Unlock
    pub stores : deps.shares ≡ some store
    pub valid : IsSlug slug
    pub sent : (req.body (some max_json_bytes)).unlock ≡ some body
    pub admitted : (allow_unlock slug req.client s.world).0 ≡ true
    pub opened : Opened store sha256 deps.files slug body (allow_unlock slug req.client s.world).1 u

  -- What a success says of the request.
  abbrev pub Permitted : Deps O → Payload → Type 0
  Permitted deps (healthy t) = Unit
  Permitted deps (presigned p) = Admitted req s upload_limit
  Permitted deps (download d) = Admitted req s download_limit
  Permitted deps (session r) = Admitted req s upload_limit
  Permitted deps (part_url u) = Admitted req s upload_limit
  Permitted deps (parts l) = Admitted req s upload_limit
  Permitted deps (completed r) = Admitted req s upload_limit
  Permitted deps (upload_aborted k) = Admitted req s upload_limit
  Permitted deps (created r) = Admitted req s create_limit
  Permitted deps (meta m) = Unit
  Permitted deps (unlocked u) = IsUnlocked deps u
  Permitted deps (mine l) = IsListed req s deps
  Permitted deps (revoked slug) = IsRevoked req s deps slug
