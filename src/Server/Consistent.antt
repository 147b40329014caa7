-- ===== src/Server/Consistent.antt =====
-- The requests of internal/server/routes.go and the consistency of the tables, over the Postgres stores.
use lapis_archive_file_servi.Prelude.{
  [], ◌∷◌, List, Bytes, none, ◌≡◌, refl, sym, subst, inl, inr, arith, Option-cases,
}
use lapis_archive_file_servi.Store.Invariant.{IsConsistent}
use lapis_archive_file_servi.Handlers.Laws.{IsStore, db_shares-IsStore}
use lapis_archive_file_servi.Handlers.ReadOnly.{read_clock-db, reading-tables}
use lapis_archive_file_servi.Handlers.Consistent.{Consistent, IsLookups, create_share-Keeps}
use lapis_archive_file_servi.Server.Routes.{
  Deps, upload_limit, download_limit, create_limit, Middleware, rate_limit, optional_auth,
  required_auth, limit_body, Endpoint, health, presign_upload, get_file, init_multipart,
  presign_part, multipart_status, complete_multipart, abort_multipart, share_maintenance,
  auth_unavailable, create_share, get_share, unlock_share, list_mine, revoke_share, setup_routes,
}
use lapis_archive_file_servi.Server.Serve.{
  Request, Site, Context, Router, rate_limit_by_ip, run_one, run_chain, in_world, respond,
  run_route, serve,
}
use lapis_archive_file_servi.Server.Chain.{Verdict-cases}
use lapis_archive_file_servi.Server.Success.{IsRouter, All-Among}
use lapis_archive_file_servi.Handlers.Keeping.{
  IsRecorder, presign_upload-Keeps, init-Keeps, revoke_share-Keeps, health_handler-Keeps,
  get_file-Keeps, presign_part-Keeps, status-Keeps, complete-Keeps, abort-Keeps,
}
use lapis_archive_file_servi.Server.Postgres.{
  IsPostgres, OnPostgres, RoutesPostgres, setup_routes-Postgres,
}

-- The stores are those of internal/store, as far as there are any.
pub record IsBacked {O : Type 0} (deps : Deps O) : Type 0 where
  pub shares : IsPostgres deps.shares
  pub uploads : IsRecorder deps.uploads
  pub lookups : IsLookups deps.upload_lookup

module _ {O : Type 0} where
  run_one-db :
      (req : Request) (m : Middleware) (c : Context) (s : Site O)
      → (run_one req m c s).1.world.db ≡ s.world.db
  unfolding run_one rate_limit_by_ip
  run_one-db req (rate_limit upload_limit) c s = ground (arith, read_clock-db s.world)
  run_one-db req (rate_limit download_limit) c s = ground (arith, read_clock-db s.world)
  run_one-db req (rate_limit create_limit) c s = ground (arith, read_clock-db s.world)
  run_one-db req (optional_auth v) c s = refl
  run_one-db req (required_auth v) c s = refl
  run_one-db req (limit_body n) c s = refl

  -- the middleware leaves the database alone
  run_chain-db :
      (req : Request) (chain : List Middleware) (c : Context) (s : Site O)
      → (run_chain req chain c s).1.world.db ≡ s.world.db
  unfolding run_chain
  run_chain-db req [] c s = refl
  run_chain-db req (m ∷ chain) c s =
      let s₁ = (run_one req m c s).1 in
      elim (Verdict-cases (run_one req m c s).0) [
        | inl (status, message, e) ↦ ground (arith, run_one-db req m c s)
        | inr (c₁, e) ↦ ground (arith, run_one-db req m c s, run_chain-db req chain c₁ s₁)
      ]

  module _ (sha256 : Bytes → Bytes) (deps : Deps O) (laws : IsBacked deps) where
    respond-Keeps :
        (req : Request) (c : Context) (value : Bytes) (e : Endpoint O) (s : Site O)
        → OnPostgres e
        → Consistent s.world
        → Consistent (respond sha256 deps req c value e s).1.world
    unfolding respond in_world
    respond-Keeps req c value health s l h = health_handler-Keeps s.world h
    respond-Keeps req c value presign_upload s l h =
        presign_upload-Keeps deps.files deps.uploads deps.max_upload_bytes c.user req.file_id
          c.body.upload laws.uploads s.world h
    respond-Keeps req c value get_file s l h =
        get_file-Keeps deps.files value req.force_download s.world h
    respond-Keeps req c value (init_multipart mp) s l h =
        init-Keeps mp deps.uploads deps.max_upload_bytes c.user req.file_id c.body.upload
          laws.uploads s.world h
    respond-Keeps req c value (presign_part mp) s l h = presign_part-Keeps mp c.body.part s.world h
    respond-Keeps req c value (multipart_status mp) s l h = status-Keeps mp c.body.session s.world h
    respond-Keeps req c value (complete_multipart mp) s l h =
        complete-Keeps mp deps.max_upload_bytes c.body.parts s.world h
    respond-Keeps req c value (abort_multipart mp) s l h = abort-Keeps mp c.body.session s.world h
    respond-Keeps req c value share_maintenance s l h = h
    respond-Keeps req c value auth_unavailable s l h = h
    respond-Keeps req c value (create_share store) s l h =
        create_share-Keeps store deps.upload_lookup deps.retention_anon deps.retention_owned
          (subst IsStore (sym l) db_shares-IsStore) laws.lookups sha256 deps.files c.user
          c.body.share s.world h
    respond-Keeps req c value (get_share store) s l h = rw l (
        subst IsConsistent
          (sym (reading-tables sha256 deps.files req.client value c.user c.body.unlock s.world).0)
          h)
    respond-Keeps req c value (unlock_share store) s l h = rw l (
        subst IsConsistent
          (sym (reading-tables sha256 deps.files req.client value c.user c.body.unlock s.world).2)
          h)
    respond-Keeps req c value (list_mine store) s l h = rw l (
        subst IsConsistent
          (sym (reading-tables sha256 deps.files req.client value c.user c.body.unlock s.world).1)
          h)
    respond-Keeps req c value (revoke_share store) s l h =
        rw l (revoke_share-Keeps c.user value s.world h)

    pub serve-Keeps :
        (router : Router O) (req : Request) (s : Site O)
        → IsRouter router
        → Consistent s.world
        → Consistent (serve sha256 deps router req s).1.world
    unfolding serve run_route
    serve-Keeps router req s picks h = elim (Option-cases (router req (setup_routes deps))) [
      | inl e ↦ ground arith
      | inr (found, e) ↦
          let c₀ : Context = record { user = none; body = req.body none } in
          let s₁ = (run_chain req found.0.chain c₀ s).1 in
          let h₁ : Consistent s₁.world =
            subst (λ db. IsConsistent db.tables) (sym (run_chain-db req found.0.chain c₀ s)) h in
          let fits : RoutesPostgres found.0 =
            All-Among RoutesPostgres (setup_routes deps) (setup_routes-Postgres deps laws.shares)
              (picks req (setup_routes deps) found.0 found.1 e) in
          elim (Verdict-cases (run_chain req found.0.chain c₀ s).0) [
            | inl (status, message, e₁) ↦ ground (arith, h₁)
            | inr (c, e₁) ↦ ground (arith, respond-Keeps req c found.1 found.0.endpoint s₁ fits h₁)
          ]
    ]
