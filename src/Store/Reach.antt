-- ===== src/Store/Reach.antt =====
-- The tables of internal/store and internal/audit under any statements in any order: a step relation and its runs.
use lapis_archive_file_servi.Prelude.{ℕ, Bytes, codes, Bool-cases, inl, inr}
use lapis_archive_file_servi.Result.{Result}
use lapis_archive_file_servi.Act.{Preserves, wrap-Preserves}
use lapis_archive_file_servi.Time.{Time, to_micros}
use lapis_archive_file_servi.Domain.{Share, Upload}
use lapis_archive_file_servi.Store.{Detail, AuditRow, JobRun, nullable, Tables, Db, statement}
use lapis_archive_file_servi.Store.Invariant.{SoundShare, IsConsistent, Holds, statement-Preserves}
use lapis_archive_file_servi.Audit.{
  record_action, record_run, insert_audit, insert_run, run_status, marshals,
}
use lapis_archive_file_servi.Store.Keeps
use lapis_archive_file_servi.Store.Shares
use lapis_archive_file_servi.Store.Uploads

-- One statement of the stores or of the audit, sent by a handler or a job; a share is written with a valid slug and
-- one to three codes.
pub data Sends : Db → Db → Type 0 where
  creates : {db : Db} (sh : Share) → SoundShare sh → Sends db (Shares.create sh db).1
  rotates : {db : Db} (sh : Share) → SoundShare sh → Sends db (Shares.rotate_code sh db).1
  gets_by_slug : {db : Db} (slug : Bytes) → Sends db (Shares.get_by_slug slug db).1
  gets_by_key : {db : Db} (key : Bytes) → Sends db (Shares.get_by_storage_key key db).1
  lists_owned : {db : Db} (owner : Bytes) → Sends db (Shares.list_by_owner owner db).1
  lists_expired : {db : Db} (now : Time) (limit : ℕ) → Sends db (Shares.list_expired now limit db).1
  deletes_slug : {db : Db} (slug : Bytes) → Sends db (Shares.delete_by_slug slug db).1
  deletes_key : {db : Db} (key : Bytes) → Sends db (Shares.delete_by_storage_key key db).1
  revokes : {db : Db} (slug owner : Bytes) → Sends db (Shares.delete slug owner db).1
  records_upload : {db : Db} (up : Upload) → Sends db (Uploads.create up db).1
  lists_due : {db : Db} (a b : Time) (limit : ℕ) → Sends db (Uploads.list_expired a b limit db).1
  gets_upload : {db : Db} (key : Bytes) → Sends db (Uploads.get_by_storage_key key db).1
  deletes_upload : {db : Db} (key : Bytes) → Sends db (Uploads.delete key db).1
  marks_failed :
      {db : Db} (key message : Bytes) → Sends db (Uploads.mark_delete_failed key message db).1
  records_action :
      {db : Db} (action subject : Bytes) (detail : Detail)
      → Sends db (record_action action subject detail db).1
  records_run :
      {db : Db} (job : Bytes) (start end : Time) (r : Result (Unit {0}))
      → Sends db (record_run job start end r db)

pub data Reaches : Db → Db → Type 0 where
  stops : {db : Db} → Reaches db db
  goes : {a b c : Db} → Sends a b → Reaches b c → Reaches a c

insert_audit-IsConsistent :
    (row : AuditRow) (t : Tables) → IsConsistent t → IsConsistent (insert_audit row t).1
insert_audit-IsConsistent row t h = record {
  slugs = h.slugs;
  keys = h.keys;
  sound = h.sound;
  upload_keys = h.upload_keys;
}

insert_run-IsConsistent :
    (row : JobRun) (t : Tables) → IsConsistent t → IsConsistent (insert_run row t).1
insert_run-IsConsistent row t h = record {
  slugs = h.slugs;
  keys = h.keys;
  sound = h.sound;
  upload_keys = h.upload_keys;
}

record_action-Keeps :
    (action subject : Bytes) (detail : Detail)
    → Preserves (Holds IsConsistent) (record_action action subject detail)
unfolding record_action
record_action-Keeps action subject detail db h =
    let row : AuditRow = record { action = action; subject = subject; detail = detail } in
    let written =
      wrap-Preserves (Holds IsConsistent) (codes "write audit log: ") (statement (insert_audit row))
        (statement-Preserves IsConsistent (insert_audit row) (insert_audit-IsConsistent row)) db
        h in
    elim (Bool-cases (marshals detail)) [ inl e ↦ rw e written | inr e ↦ rw e h ]

record_run-Keeps :
    (job : Bytes) (start end : Time) (r : Result (Unit {0})) (db : Db)
    → IsConsistent db.tables
    → IsConsistent (record_run job start end r db).tables
unfolding record_run
record_run-Keeps job start end r db h =
    let row : JobRun = record {
      job = job;
      started_at = to_micros start;
      finished_at = to_micros end;
      status = (run_status r).0;
      error = nullable (run_status r).1;
    } in
    statement-Preserves IsConsistent (insert_run row) (insert_run-IsConsistent row) db h

pub Sends-IsConsistent : {a b : Db} → Sends a b → IsConsistent a.tables → IsConsistent b.tables
Sends-IsConsistent {a} (creates sh good) h = Keeps.create-Keeps sh good a h
Sends-IsConsistent {a} (rotates sh good) h = Keeps.rotate_code-Keeps sh good a h
Sends-IsConsistent {a} (gets_by_slug slug) h = Keeps.get_by_slug-Keeps slug a h
Sends-IsConsistent {a} (gets_by_key key) h = Keeps.get_by_storage_key-Keeps key a h
Sends-IsConsistent {a} (lists_owned owner) h = Keeps.list_by_owner-Keeps owner a h
Sends-IsConsistent {a} (lists_expired now limit) h = Keeps.list_expired-Keeps now limit a h
Sends-IsConsistent {a} (deletes_slug slug) h = Keeps.delete_by_slug-Keeps slug a h
Sends-IsConsistent {a} (deletes_key key) h = Keeps.delete_by_storage_key-Keeps key a h
Sends-IsConsistent {a} (revokes slug owner) h = Keeps.delete-Keeps slug owner a h
Sends-IsConsistent {a} (records_upload up) h = Keeps.upload_create-Keeps up a h
Sends-IsConsistent {a} (lists_due since until limit) h =
    Keeps.upload_list_expired-Keeps since until limit a h
Sends-IsConsistent {a} (gets_upload key) h = Keeps.upload_get-Keeps key a h
Sends-IsConsistent {a} (deletes_upload key) h = Keeps.upload_delete-Keeps key a h
Sends-IsConsistent {a} (marks_failed key message) h = Keeps.mark_delete_failed-Keeps key message a h
Sends-IsConsistent {a} (records_action action subject detail) h =
    record_action-Keeps action subject detail a h
Sends-IsConsistent {a} (records_run job start end r) h = record_run-Keeps job start end r a h

-- Whatever statements of the stores are sent, in whatever order, and whichever of them or of their
-- answers are lost: no two shares have one slug or one file, no upload is recorded twice, and every
-- share has a valid slug and one to three codes, if this held at the start and if every share that
-- is sent to be created or rotated has a valid slug and one to three codes.
pub Reaches-IsConsistent : {a b : Db} → Reaches a b → IsConsistent a.tables → IsConsistent b.tables
Reaches-IsConsistent stops h = h
Reaches-IsConsistent (goes step steps) h = Reaches-IsConsistent steps (Sends-IsConsistent step h)
