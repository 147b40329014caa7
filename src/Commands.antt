-- ===== src/Commands.antt =====
-- The commands of cmd/main.go and cmd/migrate/main.go; `log.Fatalf` ends a command with its text.
use lapis_archive_file_servi.Prelude.{◌++◌, Bytes, codes, is_empty, if◌then◌else◌}
use lapis_archive_file_servi.Result.{Result, ok, err, error_text}
use lapis_archive_file_servi.Config.{load}
use lapis_archive_file_servi.Migrate.{Embedded, Conn, run}
use lapis_archive_file_servi.Server.Startup.{Outside, new}
use lapis_archive_file_servi.Server.Shutdown.{Ending, start}

pub data Exit : Type 0 where
  finished : Exit
  fatal : Bytes → Exit

-- how a command ends that returns or fails with this text before the error
unfoldable pub exit_of : Bytes → Result (Unit {0}) → Exit
exit_of doing (ok done) = finished
exit_of doing (err e) = fatal (doing ++ error_text e)

module _ {S : Type 0} (getenv : Bytes → Bytes) where
  -- `main` of cmd/main.go, where the last three are what `Start` meets
  unfoldable pub serve_main :
      {O : Type 0} → Outside O S → Conn S → Result (Unit {0}) → Ending → Result (Unit {0}) → Exit
  serve_main outside conn trusted ending shut = elim (new outside (load getenv) conn).0 [
    | err e ↦ fatal (codes "failed to start: " ++ error_text e)
    | ok srv ↦ exit_of (codes "server error: ") (start srv trusted ending shut).0
  ]

  -- `main` of cmd/migrate/main.go
  unfoldable pub migrate_main :
      (Bytes → Result (Unit {0})) → Embedded → (Bytes → S → Result S) → Conn S → Exit × Conn S
  migrate_main open_pool fs exec conn =
      let url = getenv (codes "DATABASE_URL") in
      if is_empty url
      then (fatal (codes "DATABASE_URL is required"), conn)
      else elim (open_pool url) [
        | err e ↦ (fatal (codes "connect: " ++ error_text e), conn)
        | ok pool ↦ let (r, conn₁) = run fs exec conn in (exit_of (codes "migrate: ") r, conn₁)
      ]
