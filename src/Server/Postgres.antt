-- ===== src/Server/Postgres.antt =====
-- The share store of the routes of internal/server/routes.go.
use lapis_archive_file_servi.Prelude.{Option, none, some, All, All-append, ◌≡◌}
use lapis_archive_file_servi.Handlers.World.{ShareStore, db_shares}
use lapis_archive_file_servi.Handlers.Multipart.{MultipartStorage}
use lapis_archive_file_servi.Auth.{Verifier}
use lapis_archive_file_servi.Server.Routes.{
  Deps, Endpoint, health, presign_upload, get_file, init_multipart, presign_part, multipart_status,
  complete_multipart, abort_multipart, share_maintenance, auth_unavailable, create_share, get_share,
  unlock_share, list_mine, revoke_share, Route, file_routes, multipart_routes, owner_routes,
  share_routes, setup_routes,
}

abbrev pub IsPostgres : Option ShareStore → Type 0
IsPostgres none = Unit
IsPostgres (some store) = store ≡ db_shares

-- the share store of an endpoint, if it has one
abbrev pub OnPostgres : {O : Type 0} → Endpoint O → Type 0
OnPostgres health = Unit
OnPostgres presign_upload = Unit
OnPostgres get_file = Unit
OnPostgres (init_multipart mp) = Unit
OnPostgres (presign_part mp) = Unit
OnPostgres (multipart_status mp) = Unit
OnPostgres (complete_multipart mp) = Unit
OnPostgres (abort_multipart mp) = Unit
OnPostgres share_maintenance = Unit
OnPostgres auth_unavailable = Unit
OnPostgres (create_share store) = store ≡ db_shares
OnPostgres (get_share store) = store ≡ db_shares
OnPostgres (unlock_share store) = store ≡ db_shares
OnPostgres (list_mine store) = store ≡ db_shares
OnPostgres (revoke_share store) = store ≡ db_shares

abbrev pub RoutesPostgres : {O : Type 0} → Route O → Type 0
RoutesPostgres r = OnPostgres r.endpoint

file_routes-Postgres :
    (O : Type 0) (v : Option Verifier) → All (RoutesPostgres {O = O}) (file_routes v)
unfolding file_routes
file_routes-Postgres O v = (tt, (tt, (tt, tt)))

share_routes-Postgres :
    (O : Type 0) (v : Option Verifier) (shares : Option ShareStore)
    → IsPostgres shares
    → All (RoutesPostgres {O = O}) (share_routes v shares)
unfolding share_routes owner_routes
share_routes-Postgres O v none l = (tt, (tt, (tt, tt)))
share_routes-Postgres O none (some store) l = (l, (l, (l, (tt, (tt, tt)))))
share_routes-Postgres O (some w) (some store) l = (l, (l, (l, (l, (l, tt)))))

module _ {O : Type 0} where
  multipart_routes-Postgres :
      (v : Option Verifier) (mp : Option (MultipartStorage O))
      → All RoutesPostgres (multipart_routes v mp)
  unfolding multipart_routes
  multipart_routes-Postgres v none = tt
  multipart_routes-Postgres v (some mp) = (tt, (tt, (tt, (tt, (tt, tt)))))

  pub setup_routes-Postgres :
      (deps : Deps O) → IsPostgres deps.shares → All RoutesPostgres (setup_routes deps)
  unfolding setup_routes
  setup_routes-Postgres deps l =
      All-append RoutesPostgres (file_routes deps.verifier) _ (file_routes-Postgres O deps.verifier)
        (All-append RoutesPostgres (multipart_routes deps.verifier deps.multipart)
          (share_routes deps.verifier deps.shares)
          (multipart_routes-Postgres deps.verifier deps.multipart)
          (share_routes-Postgres O deps.verifier deps.shares l))
