-- ===== src/Server/Startup/Started.antt =====
-- What a server that `New` of internal/server/server.go returned has.
use lapis_archive_file_servi.Prelude.{
  [], ◌++◌, append-nil, false, some, is_empty, ◌≡◌, ◌∙◌, refl, sym, ap, subst, inl, inr, arith,
}
use lapis_archive_file_servi.Result.{Result-cases, ok}
use lapis_archive_file_servi.Sort.{IsSortedBy}
use lapis_archive_file_servi.Store.Uploads
use lapis_archive_file_servi.Config.{Config}
use lapis_archive_file_servi.Handlers.World.{db_shares}
use lapis_archive_file_servi.Migrate.{Catalog, Conn, ask, run, less}
use lapis_archive_file_servi.Migrate.Statements.{ask-Quiet}
use lapis_archive_file_servi.Migrate.Transaction.{view, Applies}
use lapis_archive_file_servi.Migrate.Progress.{due}
use lapis_archive_file_servi.Migrate.Order.{run_in_order}
use lapis_archive_file_servi.S3.New.{Bucket, new_s3_storage}
use lapis_archive_file_servi.Worker.Jobs.{db_recorder, jobs}
use lapis_archive_file_servi.Server.Startup.{
  Outside, Server, anon_window, owned_window, bare, with_stores, verifier_of, prepare, add_database,
  new,
}

module _ {O S : Type 0} (outside : Outside O S) where
  -- `New` is the server without a database, what the database adds to it, and the verifier.
  pub new_parts :
      (cfg : Config) (conn : Conn S) (srv : Server O)
      → (new outside cfg conn).0 ≡ ok srv
      → (bucket : Bucket O) × (before : Server O) × ((add_database outside (bare cfg bucket) conn).0
          ≡ ok before)
        × (srv ≡ record before { verifier = verifier_of outside cfg.auth })
        × ((new outside cfg conn).1 ≡ (add_database outside (bare cfg bucket) conn).1)
  unfolding new
  new_parts cfg conn srv h =
      elim (Result-cases (new_s3_storage outside.unicode outside.rounds outside.connect cfg.s3)) [
        | inr (x, e) ↦ let clash : ⊥ = ground arith in absurd clash
        | inl (bucket, e) ↦ elim (Result-cases (add_database outside (bare cfg bucket) conn).0) [
          | inr (x, e₁) ↦ let clash : ⊥ = ground arith in absurd clash
          | inl (before, e₁) ↦ (bucket, before, e₁, ground arith, ground arith)
        ]
      ]

  -- a database that is connected to, and whose migrations were run
  pub add_database_parts :
      (bare before : Server O) (conn : Conn S)
      → is_empty bare.config.database.url ≡ false
      → (add_database outside bare conn).0 ≡ ok before
      → (before ≡ with_stores bare)
        × ((run outside.migrations outside.execute (ask conn).1).0 ≡ ok tt)
        × ((add_database outside bare conn).1
            ≡ (run outside.migrations outside.execute (ask conn).1).1)
  unfolding add_database prepare
  add_database_parts bare before conn h e =
      elim (Result-cases (outside.open_pool bare.config.database.url)) [
        | inr (x, e₁) ↦ let clash : ⊥ = ground arith in absurd clash
        | inl (tt, e₁) ↦ elim (Result-cases (ask conn).0) [
          | inr (x, e₂) ↦ let clash : ⊥ = ground arith in absurd clash
          | inl (tt, e₂) ↦
              elim (Result-cases (run outside.migrations outside.execute (ask conn).1).0) [
                | inr (x, e₃) ↦ let clash : ⊥ = ground arith in absurd clash
                | inl (tt, e₃) ↦ (ground arith, e₃, ground arith)
              ]
        ]
      ]

  pub record IsStarted (cfg : Config) (before after : Conn S) (srv : Server O) : Type 0 where
    pub shares : srv.share_store ≡ some db_shares
    pub uploads : srv.upload_store ≡ some Uploads.create
    pub lookup : srv.upload_lookup ≡ some Uploads.get_by_storage_key
    pub runner :
        srv.runner
        ≡ some (record {
          jobs = jobs srv.storage (anon_window cfg) (owned_window cfg);
          recorder = db_recorder;
        })
    pub verifier : srv.verifier ≡ verifier_of outside cfg.auth
    pub applied :
        Applies outside.migrations outside.execute
          (due outside.migrations outside.execute (view before.catalog).1)
          (view before.catalog)
          (view after.catalog)
    pub in_order : IsSortedBy less (due outside.migrations outside.execute (view before.catalog).1)

  -- The files that were not recorded in the catalog are applied now, in ascending order.
  abbrev Ready : Catalog S → Conn S → Type 0
  Ready before after =
      Applies outside.migrations outside.execute
        (due outside.migrations outside.execute (view before).1) (view before) (view after.catalog)
      × IsSortedBy less (due outside.migrations outside.execute (view before).1)

  run_applied :
      (conn : Conn S)
      → (run outside.migrations outside.execute conn).0 ≡ ok tt
      → Ready conn.catalog (run outside.migrations outside.execute conn).1
  run_applied conn e =
      let (p, sorted) = run_in_order outside.migrations outside.execute conn in
      let ended : p.rest ≡ [] = p.finished e in
      let all : p.done ≡ due outside.migrations outside.execute (view conn.catalog).1 =
        sym (p.split ∙ (ap (λ files. p.done ++ files) ended ∙ append-nil p.done)) in
      (
        subst
            (λ files.
              Applies outside.migrations outside.execute files (view conn.catalog)
                (view (run outside.migrations outside.execute conn).1.catalog))
            all p.applies,
        subst (IsSortedBy less) all sorted,
      )

  -- A server that was started with the URL of a database has the stores and the verifier of its
  -- configuration and a runner with both jobs, which have its storage and its windows; and the
  -- migrations that the database had not recorded before are applied to it, each once, in ascending
  -- order of their names.
  pub new-IsStarted :
      (cfg : Config) (conn : Conn S) (srv : Server O)
      → is_empty cfg.database.url ≡ false
      → (new outside cfg conn).0 ≡ ok srv
      → IsStarted cfg conn (new outside cfg conn).1 srv
  unfolding bare with_stores
  new-IsStarted cfg conn srv h e =
      let (bucket, before, added, is, left) = new_parts cfg conn srv e in
      let (made, ran, left₁) = add_database_parts (bare cfg bucket) before conn h added in
      let ready : Ready conn.catalog (new outside cfg conn).1 =
        subst (λ c. Ready c (new outside cfg conn).1) (ask-Quiet conn)
          (subst (Ready (ask conn).1.catalog) (sym (left ∙ left₁))
            (run_applied (ask conn).1 ran)) in
      subst (IsStarted cfg conn (new outside cfg conn).1)
        (sym
          (is ∙ ap (λ (x : Server O). record x { verifier = verifier_of outside cfg.auth }) made))
        (record {
          shares = refl;
          uploads = refl;
          lookup = refl;
          runner = refl;
          verifier = refl;
          applied = ready.0;
          in_order = ready.1;
        })
