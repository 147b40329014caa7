-- ===== src/Audit.antt =====
-- internal/audit/audit.go: the audit log and the history of the worker's runs.
use lapis_archive_file_servi.Prelude.{[], ◌∷◌, ◌++◌, Bytes, codes, Bool, true, ◌&&◌, if◌then◌else◌}
use lapis_archive_file_servi.Prelude.Int.{pos, negsuc, ltb_ℤ, leb_ℤ}
use lapis_archive_file_servi.Result.{Result, ok, err, failed, error_text}
use lapis_archive_file_servi.Act.{Act, raise, wrap}
use lapis_archive_file_servi.Time.{Time, to_micros}
use lapis_archive_file_servi.Store.{
  Detail, purged_share, purged_upload, purge_failure, AuditRow, JobRun, Tables, Db, statement,
  nullable,
}

-- `json.Marshal` refuses an instant outside the years 0 to 9999.
abbrev pub has_json_year : Time → Bool
has_json_year t = leb_ℤ (negsuc 62167219199999999999) t && ltb_ℤ t (pos 253402300800000000000)

abbrev pub marshals : Detail → Bool
marshals (purged_share key name size email created expires) =
    has_json_year created && has_json_year expires
marshals (purged_upload owner name size created slugs) = has_json_year created
marshals (purge_failure attempt message) = true

abbrev pub insert_audit : AuditRow → Tables → Result (Unit {0}) × Tables
insert_audit row t = (ok tt, record t { audit_log = t.audit_log ++ row ∷ [] })

unfoldable pub record_action : Bytes → Bytes → Detail → Act Db (Unit {0})
record_action action subject detail =
    if marshals detail
    then wrap (codes "write audit log: ")
        (statement (insert_audit (record { action = action; subject = subject; detail = detail })))
    else raise (failed (codes "marshal audit detail: year outside of range [0,9999]"))

abbrev pub insert_run : JobRun → Tables → Result (Unit {0}) × Tables
insert_run row t = (ok tt, record t { job_runs = t.job_runs ++ row ∷ [] })

-- the status and the text that `DBRunRecorder.Record` stores
abbrev pub run_status : Result (Unit {0}) → Bytes × Bytes
run_status (ok done) = (codes "ok", [])
run_status (err e) = (codes "error", error_text e)

-- A failure to record is only logged.
unfoldable pub record_run : Bytes → Time → Time → Result (Unit {0}) → Db → Db
record_run job start end outcome db =
    let (status, message) = run_status outcome in
    (statement
      (insert_run (record {
        job = job;
        started_at = to_micros start;
        finished_at = to_micros end;
        status = status;
        error = nullable message;
      }))
      db).1
