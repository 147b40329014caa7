-- ===== src/Server/System.antt =====
-- A server of internal/server/server.go at work: requests and passes of its jobs, in any order.
use lapis_archive_file_servi.Prelude.{
  [], List, Bytes, Option, none, some, is_empty, All, ◌≡◌, ◌∙◌, refl, sym, ap, subst, inl, inr,
  arith, Bool-cases,
}
use lapis_archive_file_servi.Result.{ok}
use lapis_archive_file_servi.Time.{Time}
use lapis_archive_file_servi.Store.{Db}
use lapis_archive_file_servi.Store.Invariant.{IsConsistent}
use lapis_archive_file_servi.Store.Keeps
use lapis_archive_file_servi.Store.Reach.{Sends-IsConsistent}
use lapis_archive_file_servi.Config.{Config}
use lapis_archive_file_servi.Auth.{Verifier}
use lapis_archive_file_servi.S3.New.{Bucket}
use lapis_archive_file_servi.Handlers.Laws.{db_uploads-IsLookup}
use lapis_archive_file_servi.Handlers.Consistent.{Consistent}
use lapis_archive_file_servi.Migrate.{Conn}
use lapis_archive_file_servi.Worker.Retention.{Kept}
use lapis_archive_file_servi.Worker.Runner.{Job, Machine, run_once}
use lapis_archive_file_servi.Worker.Jobs.{db_recorder}
use lapis_archive_file_servi.Worker.Jobs.Passes.{run_once-Reached, jobs-Reached}
use lapis_archive_file_servi.Server.Serve.{Request, Site, Router, serve}
use lapis_archive_file_servi.Server.Success.{IsRouter, Among, All-Among}
use lapis_archive_file_servi.Server.Consistent.{IsBacked, serve-Keeps}
use lapis_archive_file_servi.Server.Startup.{
  Outside, Server, Runner, bare, with_stores, anon_window, owned_window, deps_of, verifier_of,
  add_database, new,
}
use lapis_archive_file_servi.Server.Startup.Started.{new_parts, add_database_parts}

abbrev pub jobs_of : {O : Type 0} → Option (Runner O) → List (Job (Kept O))
jobs_of none = []
jobs_of (some runner) = runner.jobs

module _ {O : Type 0} where
  -- what a job sees of the state, with the clock
  abbrev pub machine_of : Site O → Machine (Kept O)
  machine_of s = record {
    state = record { db = s.world.db; objects = s.world.objects };
    now = s.world.now;
    ticks = s.world.ticks;
  }

  -- the state after a pass of a job, which is recorded
  abbrev pub pass : Job (Kept O) → Site O → Site O
  pass job s =
      let m = run_once (some db_recorder) job (machine_of s) in
      record s {
        world = record s.world {
          db = m.state.db;
          objects = m.state.objects;
          now = m.now;
          ticks = m.ticks;
        };
      }

  -- Requests and passes, one after the other: each request is one step here, with all its statements.
  -- Statements of several requests that come one between the other are the subject of `Store.Reach`.
  pub data Runs (sha256 : Bytes → Bytes) (router : Router O) (srv : Server O)
      : Site O → Site O → Type 0 where
    rests : {s : Site O} → Runs sha256 router srv s s
    serves :
        {s s' : Site O} (req : Request)
        → Runs sha256 router srv (serve sha256 (deps_of srv) router req s).1 s'
        → Runs sha256 router srv s s'
    passes :
        {s s' : Site O} (job : Job (Kept O))
        → Among job (jobs_of srv.runner)
        → Runs sha256 router srv (pass job s) s'
        → Runs sha256 router srv s s'

  abbrev JobKeeps : Job (Kept O) → Type 0
  JobKeeps job =
      (t : Time) (w : Kept O) → IsConsistent w.db.tables → IsConsistent (job.run t w).1.db.tables

  -- what New sets up
  pub record IsSound (srv : Server O) : Type 0 where
    pub backed : IsBacked (deps_of srv)
    pub jobs : All JobKeeps (jobs_of srv.runner)

  bare-IsSound :
      (cfg : Config) (bucket : Bucket O) (v : Option Verifier)
      → IsSound (record (bare cfg bucket) { verifier = v })
  unfolding deps_of bare
  bare-IsSound cfg bucket v = record {
    backed = record { shares = tt; uploads = tt; lookups = tt };
    jobs = tt;
  }

  with_stores-IsSound :
      (cfg : Config) (bucket : Bucket O) (v : Option Verifier)
      → IsSound (record (with_stores (bare cfg bucket)) { verifier = v })
  unfolding deps_of bare with_stores
  with_stores-IsSound cfg bucket v = record {
    backed = record {
      shares = refl;
      uploads = λ up db. Keeps.upload_create-Keeps up db;
      lookups = db_uploads-IsLookup;
    };
    jobs =
        jobs-Reached (λ (db : Db). IsConsistent db.tables) (λ a b. Sends-IsConsistent) bucket.files
          (anon_window cfg) (owned_window cfg);
  }

  new-IsSound :
      {S : Type 0} (outside : Outside O S) (cfg : Config) (conn : Conn S) (srv : Server O)
      → (new outside cfg conn).0 ≡ ok srv
      → IsSound srv
  unfolding deps_of add_database bare with_stores
  new-IsSound outside cfg conn srv e =
      let (bucket, before, added, is, left) = new_parts outside cfg conn srv e in
      let v = verifier_of outside cfg.auth in
      elim (Bool-cases (is_empty cfg.database.url)) [
        | inl h ↦
            let same : bare cfg bucket ≡ before = ground arith in
            subst (IsSound) (sym (is ∙ ap (λ (x : Server O). record x { verifier = v }) (sym same)))
              (bare-IsSound cfg bucket v)
        | inr h ↦
            let made = (add_database_parts outside (bare cfg bucket) before conn h added).0 in
            subst (IsSound) (sym (is ∙ ap (λ (x : Server O). record x { verifier = v }) made))
              (with_stores-IsSound cfg bucket v)
      ]

  Runs-IsConsistent :
      (sha256 : Bytes → Bytes) (router : Router O) (srv : Server O) {s s' : Site O}
      → IsRouter router
      → IsSound srv
      → Runs sha256 router srv s s'
      → Consistent s.world
      → Consistent s'.world
  Runs-IsConsistent sha256 router srv picks sound rests h = h
  Runs-IsConsistent sha256 router srv {s} picks sound (serves req run) h =
      Runs-IsConsistent sha256 router srv picks sound run
        (serve-Keeps sha256 (deps_of srv) sound.backed router req s picks h)
  Runs-IsConsistent sha256 router srv {s} picks sound (passes job among run) h =
      Runs-IsConsistent sha256 router srv picks sound run (
        run_once-Reached (λ (db : Db). IsConsistent db.tables) (λ a b. Sends-IsConsistent)
          srv.storage job (All-Among JobKeeps (jobs_of srv.runner) sound.jobs among) (machine_of s)
          h)

  -- Whatever requests a server that was started serves and whatever passes its jobs make, each as
  -- one step, in any order and whatever the database, the bucket and the clients do: no two shares
  -- have one slug or one file, no upload is recorded twice, and every share has a valid slug and one
  -- to three codes, if this held when it started to serve. It takes that the router picks a route of
  -- the table.
  pub system-IsConsistent :
      {S : Type 0} (outside : Outside O S) (cfg : Config) (conn : Conn S) (srv : Server O)
      (sha256 : Bytes → Bytes) (router : Router O) (s s' : Site O)
      → (new outside cfg conn).0 ≡ ok srv
      → IsRouter router
      → Runs sha256 router srv s s'
      → IsConsistent s.world.db.tables
      → IsConsistent s'.world.db.tables
  system-IsConsistent outside cfg conn srv sha256 router s s' e picks run h =
      Runs-IsConsistent sha256 router srv picks (new-IsSound outside cfg conn srv e) run h
