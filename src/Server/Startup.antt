-- ===== src/Server/Startup.antt =====
-- `New` of internal/server/server.go: the server that a configuration gives, over what it connects to.
pub mod Started
pub mod Down
use lapis_archive_file_servi.Prelude.{
  ℕ, List, Bytes, codes, Bool, true, false, Option, none, some, is_empty, if◌then◌else◌,
}
use lapis_archive_file_servi.Prelude.Int.{ℤ, pos}
use lapis_archive_file_servi.Result.{Result, ok, err}
use lapis_archive_file_servi.Act.{Act, wrap, ◌>>=◌, ◌>>◌}
use lapis_archive_file_servi.Time.{Duration, hour, times}
use lapis_archive_file_servi.Sdk.{Client}
use lapis_archive_file_servi.Quote.{Unicode}
use lapis_archive_file_servi.Config.{AuthConfig, Config}
use lapis_archive_file_servi.Store.Uploads
use lapis_archive_file_servi.Handlers.World.{Storage, ShareStore, UploadLookup, db_shares}
use lapis_archive_file_servi.Handlers.Files.{UploadRecorder}
use lapis_archive_file_servi.Handlers.Multipart.{MultipartStorage}
use lapis_archive_file_servi.S3.New.{ClientOptions, Bucket, new_s3_storage}
use lapis_archive_file_servi.Auth.{Verifier, Parser, KeySet, new_verifier}
use lapis_archive_file_servi.Migrate.{Embedded, Conn, ask, run}
use lapis_archive_file_servi.Worker.Retention.{Kept}
use lapis_archive_file_servi.Worker.Runner.{Job, RecordFunc}
use lapis_archive_file_servi.Worker.Jobs.{db_recorder, jobs}
use lapis_archive_file_servi.Server.Routes.{Deps}

-- The libraries and services that `New` calls: the SDK, the database's driver, the embedded migrations
-- and their execution, and for the verifier the requests and the key library.
pub record Outside (O S : Type 0) : Type 0 where
  pub unicode : Unicode
  pub rounds : ℕ
  pub connect : ClientOptions → Result (Client O)
  pub open_pool : Bytes → Result (Unit {0})
  pub migrations : Embedded
  pub execute : Bytes → S → Result S
  pub request : Bytes → Result (Unit {0})
  pub fetch : Bytes → Result KeySet
  pub load_keys : Bytes → Result Parser

-- `worker.Runner`
pub record Runner (O : Type 0) : Type 0 where
  pub jobs : List (Job (Kept O))
  pub recorder : RecordFunc (Kept O)

pub record Server (O : Type 0) : Type 0 where
  pub config : Config
  pub storage : Storage O
  pub multipart : Option (MultipartStorage O)
  pub share_store : Option ShareStore
  pub upload_store : Option UploadRecorder
  pub upload_lookup : Option UploadLookup
  pub verifier : Option Verifier
  pub has_pool : Bool
  pub runner : Option (Runner O)

abbrev pub anon_window : Config → Duration
anon_window cfg = times cfg.retention.anon_hours hour

abbrev pub owned_window : Config → Duration
owned_window cfg = times cfg.retention.owned_hours hour

-- `maxUploadBytes` of `SetupRoutes`: a product of int64s
abbrev pub max_upload_bytes_of : Config → ℤ
max_upload_bytes_of cfg = times (times cfg.server.max_upload_mb (pos 1024)) (pos 1024)

module _ {O : Type 0} where
  -- the server before its database and its verifier
  unfoldable pub bare : Config → Bucket O → Server O
  bare cfg bucket = record {
    config = cfg;
    storage = bucket.files;
    multipart = some bucket.sessions;
    share_store = none;
    upload_store = none;
    upload_lookup = none;
    verifier = none;
    has_pool = false;
    runner = none;
  }

  -- what a database adds to it
  unfoldable pub with_stores : Server O → Server O
  with_stores srv = record srv {
    has_pool = true;
    share_store = some db_shares;
    upload_store = some Uploads.create;
    upload_lookup = some Uploads.get_by_storage_key;
    runner = some (record {
      jobs = jobs srv.storage (anon_window srv.config) (owned_window srv.config);
      recorder = db_recorder;
    });
  }

  -- the argument of `SetupRoutes` in `Start`
  unfoldable pub deps_of : Server O → Deps O
  deps_of srv = record {
    files = srv.storage;
    multipart = srv.multipart;
    shares = srv.share_store;
    uploads = srv.upload_store;
    upload_lookup = srv.upload_lookup;
    verifier = srv.verifier;
    allowed_origins = srv.config.server.allowed_origins;
    max_upload_bytes = max_upload_bytes_of srv.config;
    retention_anon = anon_window srv.config;
    retention_owned = owned_window srv.config;
  }

  module _ {S : Type 0} (outside : Outside O S) where
    -- none also if the verifier cannot be set up
    unfoldable pub verifier_of : AuthConfig → Option Verifier
    verifier_of cfg =
        let made =
          new_verifier outside.request outside.fetch outside.load_keys cfg.jwks_url cfg.issuer
            cfg.audience in
        if is_empty cfg.jwks_url then none else elim made [ err e ↦ none | ok v ↦ some v ]

    -- the connection to the database, and its migrations
    unfoldable pub prepare : Bytes → Act (Conn S) (Unit {0})
    prepare url = do
      wrap (codes "connecting to database: ") (λ conn. (outside.open_pool url, conn))
      wrap (codes "pinging database: ") ask
      wrap (codes "running migrations: ") (run outside.migrations outside.execute)

    unfoldable pub add_database : Server O → Act (Conn S) (Server O)
    add_database srv conn =
        if is_empty srv.config.database.url
        then (ok srv, conn)
        else (prepare srv.config.database.url >> λ c. (ok (with_stores srv), c)) conn

    -- `New`
    unfoldable pub new : Config → Act (Conn S) (Server O)
    new cfg = do
      bucket ←
          wrap (codes "initializing storage: ")
            (λ conn. (new_s3_storage outside.unicode outside.rounds outside.connect cfg.s3, conn))
      srv ← add_database (bare cfg bucket)
      λ conn. (ok (record srv { verifier = verifier_of cfg.auth }), conn)
