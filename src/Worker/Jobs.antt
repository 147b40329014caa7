-- ===== src/Worker/Jobs.antt =====
-- The two jobs of internal/worker as the runner has them, with the recorder of internal/audit; New of
-- internal/server/server.go puts them together.
pub mod Passes
use lapis_archive_file_servi.Prelude.{[], ◌∷◌, List, Bytes, codes, Option, some}
use lapis_archive_file_servi.Result.{Result}
use lapis_archive_file_servi.Act.{Act}
use lapis_archive_file_servi.Time.{Time, Duration, hour}
use lapis_archive_file_servi.Audit.{record_run}
use lapis_archive_file_servi.Handlers.World.{Storage}
use lapis_archive_file_servi.Worker.Purge.{purge_expired_shares}
use lapis_archive_file_servi.Worker.Retention.{Kept, purge_expired_uploads}
use lapis_archive_file_servi.Worker.Runner.{returned, Job, RecordFunc}

abbrev pub sweep_interval : Duration
sweep_interval = hour

module _ {O : Type 0} where
  -- `DBRunRecorder.Record`
  abbrev pub db_recorder : RecordFunc (Kept O)
  db_recorder name start end r w = record w { db = record_run name start end r w.db }

  abbrev pub purge_shares_job : Job (Kept O)
  purge_shares_job = record {
    name = codes "purge-expired-shares";
    interval = sweep_interval;
    run =
        λ now w. let (r, db) = purge_expired_shares now w.db in (returned r, record w { db = db });
  }

  abbrev pub purge_uploads_job : Storage O → Duration → Duration → Job (Kept O)
  purge_uploads_job files anon_ttl owned_ttl = record {
    name = codes "purge-expired-uploads";
    interval = sweep_interval;
    run = λ now w.
        let (r, w₁) = purge_expired_uploads files anon_ttl owned_ttl now w in (returned r, w₁);
  }

  abbrev pub jobs : Storage O → Duration → Duration → List (Job (Kept O))
  jobs files anon_ttl owned_ttl = purge_shares_job ∷ purge_uploads_job files anon_ttl owned_ttl ∷ []
