-- ===== src/Store.antt =====
-- internal/store and internal/audit: the SQL statements of the Postgres tables of db/migrations.
-- A statement is one step on the tables; the connection may lose it, or lose its answer.
pub mod Shares
pub mod Uploads
pub mod Distinct
pub mod Invariant
pub mod Keeps
pub mod Reach
pub mod Statements
pub mod Reads
pub mod Race
use lapis_archive_file_servi.Prelude.{
  ℕ, [], ◌∷◌, List, Bytes, codes, Bool, true, false, Option, none, some, is_empty, if◌then◌else◌,
}
use lapis_archive_file_servi.Result.{Result, ok, err, failed}
use lapis_archive_file_servi.Act.{Act}
use lapis_archive_file_servi.Time.{Time}
use lapis_archive_file_servi.Uuid.{canonical}

-- A row of `shares`; NULL is `none`.
pub record ShareRow : Type 0 where
  pub slug : Bytes
  pub owner_id : Option Bytes
  pub owner_email : Option Bytes
  pub recipient_email : Option Bytes
  pub storage_key : Bytes
  pub file_name : Bytes
  pub file_size : ℕ
  pub code_hash : Bytes
  pub code_salt : Bytes
  pub share_count : ℕ
  pub created_at : Time
  pub expires_at : Time

-- A row of `uploads`.
pub record UploadRow : Type 0 where
  pub storage_key : Bytes
  pub owner_id : Option Bytes
  pub file_name : Bytes
  pub size_bytes : ℕ
  pub created_at : Time
  pub delete_attempts : ℕ
  pub last_delete_error : Option Bytes

-- What an audit entry says beside its subject: `PurgedShare`, `PurgedUpload` and `PurgeFailure` of
-- internal/worker.
pub data Detail : Type 0 where
  purged_share :
      (storage_key file_name : Bytes) (file_size : ℕ) (owner_email : Bytes)
      (created_at expires_at : Time)
      → Detail
  purged_upload :
      (owner_id file_name : Bytes) (size_bytes : ℕ) (created_at : Time)
      (deleted_share_slugs : List Bytes)
      → Detail
  purge_failure : (attempt : ℕ) (error : Bytes) → Detail

-- A row of `audit_log`.
pub record AuditRow : Type 0 where
  pub action : Bytes
  pub subject : Bytes
  pub detail : Detail

-- A row of `job_runs`.
pub record JobRun : Type 0 where
  pub job : Bytes
  pub started_at : Time
  pub finished_at : Time
  pub status : Bytes
  pub error : Option Bytes

pub record Tables : Type 0 where
  pub shares : List ShareRow
  pub uploads : List UploadRow
  pub audit_log : List AuditRow
  pub job_runs : List JobRun

-- What becomes of a statement: it runs and is answered, it never runs, or it runs and the answer is
-- an error (the connection broke).
pub data Fate : Type 0 where
  answered : Fate
  lost unacknowledged : Bytes → Fate

-- The fates of the coming statements; past the end of the list every statement is answered.
pub record Db : Type 0 where
  pub tables : Tables
  pub fates : List Fate

module _ {A : Type 0} where
  unfoldable pub run_fated : (Tables → Result A × Tables) → Tables → List Fate → Result A × Db
  run_fated q t [] = ((q t).0, record { tables = (q t).1; fates = [] })
  run_fated q t (answered ∷ fates) = ((q t).0, record { tables = (q t).1; fates = fates })
  run_fated q t (lost e ∷ fates) = (err (failed e), record { tables = t; fates = fates })
  run_fated q t (unacknowledged e ∷ fates) =
      (err (failed e), record { tables = (q t).1; fates = fates })

  -- `pool.Exec` and `pool.Query`
  unfoldable pub statement : (Tables → Result A × Tables) → Act Db A
  unfolding run_fated
  statement q db = run_fated q db.tables db.fates

abbrev pub nullable : Bytes → Option Bytes
nullable s = if is_empty s then none else some s

-- what a column of type uuid keeps; NULL also for a text that it refuses
abbrev pub nullable_uuid : Bytes → Option Bytes
nullable_uuid s = if is_empty s then none else canonical s

abbrev pub is_uuid : Bytes → Bool
is_uuid s = elim (canonical s) [ none ↦ false | some id ↦ true ]

-- a query with a parameter that is a uuid if `valid`
abbrev pub checked : {A : Type 0} → Bool → (Tables → Result A × Tables) → Tables → Result A × Tables
checked true q t = q t
checked false q t = (err (failed (codes "invalid input syntax for type uuid")), t)

-- a scanned `*string`: what NULL leaves in the field
abbrev pub or_empty : Option Bytes → Bytes
or_empty none = []
or_empty (some s) = s
