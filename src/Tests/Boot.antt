-- ===== src/Tests/Boot.antt =====
-- `New` of internal/server/server.go with a database and without one.
use lapis_archive_file_servi.Prelude.{
  none, [], ◌∷◌, List, Bytes, codes, keep_if, any_of, ◌≟◌, if◌then◌else◌, is_empty, true, false,
  ◌≡◌, refl, inl, some,
}
use lapis_archive_file_servi.Prelude.Int.{pos}
use lapis_archive_file_servi.Result.{ok, err, failed, error_text}
use lapis_archive_file_servi.Sort.{sort_by, insert_by}
use lapis_archive_file_servi.Config.{Config, load, get_env}
use lapis_archive_file_servi.Handlers.World.{success, read_clock}
use lapis_archive_file_servi.Handlers.Health.{HealthResponse, unix, health_handler}
use lapis_archive_file_servi.Migrate.{
  run, send, run_locked, migration_files, apply_pending, apply_one, transact, or_rollback, finish,
  has_suffix, less,
}
use lapis_archive_file_servi.S3.New.{Bucket, bucket_of, new_s3_storage}
use lapis_archive_file_servi.Server.Routes.{get, post, setup_routes, file_routes}
use lapis_archive_file_servi.Server.Serve.{
  Request, Site, healthy, serve, run_route, run_chain, respond, in_world, answer_as,
}
use lapis_archive_file_servi.Server.Startup.{
  Server, Outside, bare, with_stores, deps_of, verifier_of, prepare, add_database, new,
}
use lapis_archive_file_servi.Server.Startup.Started.{IsStarted, new-IsStarted}
use lapis_archive_file_servi.Server.Startup.Down.{IsFiles, no_database}
use lapis_archive_file_servi.Store.Invariant.{IsConsistent}
use lapis_archive_file_servi.Commands.{finished, fatal, exit_of, serve_main, migrate_main}
use lapis_archive_file_servi.Server.Shutdown.{signalled, start, until_ending, shut_down}
use lapis_archive_file_servi.Worker.Jobs.{purge_shares_job}
use lapis_archive_file_servi.Server.Success.{Among}
use lapis_archive_file_servi.Server.System.{
  jobs_of, pass, Runs, rests, serves, passes, system-IsConsistent,
}
use lapis_archive_file_servi.Tests.Store.{no_tables-IsConsistent}
use lapis_archive_file_servi.Tests.Handlers.{world}
use lapis_archive_file_servi.Tests.Domain.{digest}
use lapis_archive_file_servi.Tests.Bucket.{ascii_only, small}
use lapis_archive_file_servi.Tests.Migrate.{embedded, exec, fresh}
use lapis_archive_file_servi.Tests.Startup.{keys}
use lapis_archive_file_servi.Tests.Server.{
  site, revocation, first_fit, first_fit-IsRouter, match_path, is_method,
}

abbrev outside : Outside (Unit {0}) (List Bytes)
outside = record {
  unicode = ascii_only;
  rounds = 3;
  connect = λ options. ok small;
  open_pool = λ url. ok tt;
  migrations = embedded;
  execute = exec;
  request = λ url. ok tt;
  fetch = λ url. err (failed (codes "no route to host"));
  load_keys = λ url. ok keys;
}

abbrev only_bucket : Config
only_bucket = load (λ name. [])

abbrev with_url : Config
with_url = load (λ name. if name ≟ codes "DATABASE_URL" then codes "postgres://db" else [])

abbrev bucket : Bucket (Unit {0})
bucket = bucket_of ascii_only 3 small (codes "oss-archive")

up : (new outside with_url fresh).0 ≡ ok (with_stores (bare with_url bucket))
unfolding new new_s3_storage add_database bare with_stores load get_env ◌≟◌ prepare send run
    run_locked migration_files apply_pending apply_one transact or_rollback finish sort_by keep_if
    has_suffix insert_by less any_of verifier_of
up = refl

url_set : is_empty with_url.database.url ≡ false
unfolding load get_env ◌≟◌
url_set = refl

new-IsStarted_example :
    IsStarted outside with_url fresh
      (new outside with_url fresh).1
      (with_stores (bare with_url bucket))
new-IsStarted_example =
    new-IsStarted outside with_url fresh (with_stores (bare with_url bucket)) url_set up

down : (new outside only_bucket fresh).0 ≡ ok (bare only_bucket bucket)
unfolding new new_s3_storage add_database bare load get_env verifier_of
down = refl

url_unset : is_empty only_bucket.database.url ≡ true
unfolding load get_env
url_unset = refl

abbrev check : Request
check = record revocation { method = get; path = codes "api" ∷ codes "v1" ∷ codes "health" ∷ [] }

abbrev alive : HealthResponse
alive = record {
  status = codes "ok";
  timestamp = unix (read_clock site.world).0;
  service = codes "lapis-archive-file-service";
}

checked :
    (serve digest (deps_of (bare only_bucket bucket)) first_fit check site).0
    ≡ success (healthy alive)
unfolding serve first_fit setup_routes file_routes match_path ◌≟◌ is_method run_route run_chain
    respond in_world answer_as health_handler
checked = refl

no_database_example : IsFiles (healthy alive) × ((new outside only_bucket fresh).1 ≡ fresh)
no_database_example =
    no_database outside only_bucket fresh (bare only_bucket bucket) digest first_fit check site
      (healthy alive) url_unset down first_fit-IsRouter checked

-- a request to a server with a database, and a pass of its first job
abbrev running : Server (Unit {0})
running = with_stores (bare with_url bucket)

abbrev sharing : Request
sharing = record revocation {
  method = post;
  path = codes "api" ∷ codes "v1" ∷ codes "shares" ∷ [];
  body = λ limit. record {
    upload = none;
    part = none;
    session = none;
    parts = none;
    unlock = none;
    share = some (record {
      storage_key = codes "k_f";
      owner_email = [];
      recipient_email = [];
      ttl_hours = pos 1;
    });
  };
}

abbrev empty_site : Site (Unit {0})
empty_site = record site { world = world }

abbrev served : Site (Unit {0})
served = (serve digest (deps_of running) first_fit sharing empty_site).1

purge_first : Among (purge_shares_job {O = Unit {0}}) (jobs_of running.runner)
unfolding with_stores bare
purge_first = inl refl

work : Runs digest first_fit running empty_site (pass purge_shares_job served)
work = serves sharing (passes purge_shares_job purge_first rests)

system-IsConsistent_example : IsConsistent (pass purge_shares_job served).world.db.tables
system-IsConsistent_example =
    system-IsConsistent outside with_url fresh running digest first_fit empty_site
      (pass purge_shares_job served) up first_fit-IsRouter work no_tables-IsConsistent

-- the commands: a database that cannot be reached, one that is migrated, and none
unreachable :
    serve_main
      (λ name. if name ≟ codes "DATABASE_URL" then codes "postgres://db" else [])
      (record outside { open_pool = λ url. err (failed (codes "no such host")) })
      fresh
      (ok tt)
      signalled
      (ok tt)
    ≡ fatal (codes "failed to start: connecting to database: no such host")
unfolding serve_main new new_s3_storage add_database bare load get_env ◌≟◌ prepare error_text
unreachable = refl

stopped_by_signal : serve_main (λ name. []) outside fresh (ok tt) signalled (ok tt) ≡ finished
unfolding serve_main new new_s3_storage add_database bare load get_env verifier_of exit_of start
    until_ending shut_down
stopped_by_signal = refl

migrated :
    migrate_main (λ name. codes "postgres://db") (λ url. ok tt) embedded exec fresh
    ≡ (finished, (run embedded exec fresh).1)
unfolding migrate_main exit_of run send run_locked migration_files apply_pending apply_one transact
    or_rollback finish sort_by keep_if has_suffix insert_by less any_of ◌≟◌
migrated = refl
