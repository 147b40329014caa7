-- ===== src/Server/Startup/Down.antt =====
-- A server of internal/server/server.go without a database: files are served, sharing is down.
use lapis_archive_file_servi.Prelude.{
  Bytes, true, Option, none, some, is_empty, All, All-append, ◌≡◌, ◌∙◌, sym, ap, subst, inl, inr,
  arith, Option-cases,
}
use lapis_archive_file_servi.Result.{ok}
use lapis_archive_file_servi.Config.{Config}
use lapis_archive_file_servi.Handlers.World.{success}
use lapis_archive_file_servi.Handlers.Multipart.{MultipartStorage}
use lapis_archive_file_servi.Auth.{Verifier}
use lapis_archive_file_servi.Migrate.{Conn}
use lapis_archive_file_servi.Server.Routes.{
  Deps, Endpoint, health, presign_upload, get_file, init_multipart, presign_part, multipart_status,
  complete_multipart, abort_multipart, share_maintenance, auth_unavailable, create_share, get_share,
  unlock_share, list_mine, revoke_share, Route, file_routes, multipart_routes, share_routes,
  setup_routes,
}
use lapis_archive_file_servi.Server.Serve.{
  Request, Site, Payload, healthy, presigned, download, session, part_url, parts, completed,
  upload_aborted, created, meta, unlocked, mine, revoked, Context, Router, respond, run_chain,
  run_route, serve,
}
use lapis_archive_file_servi.Server.Chain.{Verdict-cases}
use lapis_archive_file_servi.Server.Success.{IsRouter, All-Among, in_world-success}
use lapis_archive_file_servi.Server.Startup.{Outside, Server, bare, add_database, deps_of, new}
use lapis_archive_file_servi.Server.Startup.Started.{new_parts}

-- an endpoint for files, or one that says that sharing is down
abbrev NoShares : {O : Type 0} → Endpoint O → Type 0
NoShares health = Unit
NoShares presign_upload = Unit
NoShares get_file = Unit
NoShares (init_multipart mp) = Unit
NoShares (presign_part mp) = Unit
NoShares (multipart_status mp) = Unit
NoShares (complete_multipart mp) = Unit
NoShares (abort_multipart mp) = Unit
NoShares share_maintenance = Unit
NoShares auth_unavailable = Unit
NoShares (create_share store) = ⊥
NoShares (get_share store) = ⊥
NoShares (unlock_share store) = ⊥
NoShares (list_mine store) = ⊥
NoShares (revoke_share store) = ⊥

-- a reply that is about files
abbrev pub IsFiles : Payload → Type 0
IsFiles (healthy t) = Unit
IsFiles (presigned p) = Unit
IsFiles (download d) = Unit
IsFiles (session r) = Unit
IsFiles (part_url u) = Unit
IsFiles (parts l) = Unit
IsFiles (completed r) = Unit
IsFiles (upload_aborted k) = Unit
IsFiles (created r) = ⊥
IsFiles (meta m) = ⊥
IsFiles (unlocked u) = ⊥
IsFiles (mine l) = ⊥
IsFiles (revoked slug) = ⊥

abbrev Fileside : {O : Type 0} → Route O → Type 0
Fileside r = NoShares r.endpoint

file_routes-Fileside : (O : Type 0) (v : Option Verifier) → All (Fileside {O = O}) (file_routes v)
unfolding file_routes
file_routes-Fileside O v = (tt, (tt, (tt, tt)))

module _ {O : Type 0} where
  multipart_routes-Fileside :
      (v : Option Verifier) (mp : Option (MultipartStorage O))
      → All Fileside (multipart_routes v mp)
  unfolding multipart_routes
  multipart_routes-Fileside v none = tt
  multipart_routes-Fileside v (some mp) = (tt, (tt, (tt, (tt, (tt, tt)))))

  setup_routes-Fileside : (deps : Deps O) → deps.shares ≡ none → All Fileside (setup_routes deps)
  unfolding setup_routes share_routes
  setup_routes-Fileside deps h =
      All-append Fileside (file_routes deps.verifier) _ (file_routes-Fileside O deps.verifier) (
        All-append Fileside (multipart_routes deps.verifier deps.multipart)
          (share_routes deps.verifier deps.shares)
          (multipart_routes-Fileside deps.verifier deps.multipart)
          (subst (λ shares. All (Fileside {O = O}) (share_routes deps.verifier shares)) (sym h)
            (tt, (tt, (tt, tt)))))

  respond-IsFiles :
      (sha256 : Bytes → Bytes) (deps : Deps O) (req : Request) (c : Context) (value : Bytes)
      (e : Endpoint O) (s : Site O) (p : Payload)
      → NoShares e
      → (respond sha256 deps req c value e s).0 ≡ success p
      → IsFiles p
  unfolding respond
  respond-IsFiles sha256 deps req c value health s p g h =
      in_world-success healthy _ _ IsFiles p h (λ a e. tt)
  respond-IsFiles sha256 deps req c value presign_upload s p g h =
      in_world-success presigned _ _ IsFiles p h (λ a e. tt)
  respond-IsFiles sha256 deps req c value get_file s p g h =
      in_world-success download _ _ IsFiles p h (λ a e. tt)
  respond-IsFiles sha256 deps req c value (init_multipart mp) s p g h =
      in_world-success session _ _ IsFiles p h (λ a e. tt)
  respond-IsFiles sha256 deps req c value (presign_part mp) s p g h =
      in_world-success part_url _ _ IsFiles p h (λ a e. tt)
  respond-IsFiles sha256 deps req c value (multipart_status mp) s p g h =
      in_world-success parts _ _ IsFiles p h (λ a e. tt)
  respond-IsFiles sha256 deps req c value (complete_multipart mp) s p g h =
      in_world-success completed _ _ IsFiles p h (λ a e. tt)
  respond-IsFiles sha256 deps req c value (abort_multipart mp) s p g h =
      in_world-success upload_aborted _ _ IsFiles p h (λ a e. tt)
  respond-IsFiles sha256 deps req c value share_maintenance s p g h =
      let clash : ⊥ = cc in absurd clash
  respond-IsFiles sha256 deps req c value auth_unavailable s p g h =
      let clash : ⊥ = cc in absurd clash
  respond-IsFiles sha256 deps req c value (create_share store) s p g h = absurd g
  respond-IsFiles sha256 deps req c value (get_share store) s p g h = absurd g
  respond-IsFiles sha256 deps req c value (unlock_share store) s p g h = absurd g
  respond-IsFiles sha256 deps req c value (list_mine store) s p g h = absurd g
  respond-IsFiles sha256 deps req c value (revoke_share store) s p g h = absurd g

  serve-IsFiles :
      (sha256 : Bytes → Bytes) (deps : Deps O) (router : Router O) (req : Request) (s : Site O)
      (p : Payload)
      → deps.shares ≡ none
      → IsRouter router
      → (serve sha256 deps router req s).0 ≡ success p
      → IsFiles p
  unfolding serve run_route
  serve-IsFiles sha256 deps router req s p none_there picks h =
      elim (Option-cases (router req (setup_routes deps))) [
        | inl e ↦ let clash : ⊥ = ground arith in absurd clash
        | inr (found, e) ↦
            let c₀ : Context = record { user = none; body = req.body none } in
            let through : (run_route sha256 deps req found.1 found.0 s).0 ≡ success p =
              ground arith in
            let fits : Fileside found.0 =
              All-Among Fileside (setup_routes deps) (setup_routes-Fileside deps none_there)
                (picks req (setup_routes deps) found.0 found.1 e) in
            elim (Verdict-cases (run_chain req found.0.chain c₀ s).0) [
              | inl (status, message, e₁) ↦ let clash : ⊥ = ground arith in absurd clash
              | inr (c, e₁) ↦
                  respond-IsFiles sha256 deps req c found.1 found.0.endpoint
                    (run_chain req found.0.chain c₀ s).1 p fits (ground arith)
            ]
      ]

-- A server that was started without the URL of a database has connected to none, and whatever request it
-- answers with a success is one for its health or about files, never about shares. It takes that the
-- router picks a route of the table.
pub no_database :
    {O S : Type 0} (outside : Outside O S) (cfg : Config) (conn : Conn S) (srv : Server O)
    (sha256 : Bytes → Bytes) (router : Router O) (req : Request) (s : Site O) (p : Payload)
    → is_empty cfg.database.url ≡ true
    → (new outside cfg conn).0 ≡ ok srv
    → IsRouter router
    → (serve sha256 (deps_of srv) router req s).0 ≡ success p
    → IsFiles p × ((new outside cfg conn).1 ≡ conn)
unfolding deps_of add_database bare
no_database outside cfg conn srv sha256 router req s p h e picks served =
    let (bucket, before, added, is, left) = new_parts outside cfg conn srv e in
    let same : (bare cfg bucket) ≡ before = ground arith in
    let none_there : srv.share_store ≡ none =
      ap (λ (x : Server _). x.share_store) is ∙ ap (λ (x : Server _). x.share_store) (sym same) in
    (serve-IsFiles sha256 (deps_of srv) router req s p none_there picks served, ground arith)
