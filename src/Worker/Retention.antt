-- ===== src/Worker/Retention.antt =====
-- internal/worker/retention.go: the job that removes uploads past their window from the bucket, with
-- the shares of the file and the row of the upload.
pub mod Due
use lapis_archive_file_servi.Prelude.{ℕ, ◌+◌, [], ◌∷◌, List, Bytes, codes, Bool, ltb, if◌then◌else◌}
use lapis_archive_file_servi.Prelude.Int.{◌-ℤ◌}
use lapis_archive_file_servi.Result.{Error, Result, ok, err, object_not_found, error_text}
use lapis_archive_file_servi.Act.{Act}
use lapis_archive_file_servi.Time.{Time, Duration}
use lapis_archive_file_servi.Domain.{Upload}
use lapis_archive_file_servi.Store.{Detail, purged_upload, purge_failure, Db}
use lapis_archive_file_servi.Store.Shares
use lapis_archive_file_servi.Store.Uploads
use lapis_archive_file_servi.Audit.{record_action}
use lapis_archive_file_servi.Handlers.World.{Storage}
use lapis_archive_file_servi.Worker.Purge.{sweep_batch_size}

-- the database and the bucket
pub record Kept (O : Type 0) : Type 0 where
  pub db : Db
  pub objects : O

abbrev pub upload_snapshot : Upload → ℕ → List Bytes → Detail
upload_snapshot up size slugs = purged_upload up.owner_id up.file_name size up.created_at slugs

-- the slugs that `DeleteByStorageKey` returns: none with an error
abbrev pub slugs_of : Result (List Bytes) → List Bytes
slugs_of (ok slugs) = slugs
slugs_of (err e) = []

-- `MarkDeleteFailed`, whose own failure is only logged
unfoldable pub mark_failed : Upload → Error → Db → Db
mark_failed up e db = (Uploads.mark_delete_failed up.storage_key (error_text e) db).1

unfoldable pub record_purge : Upload → ℕ → List Bytes → Db → Db
record_purge up size slugs db =
    (record_action (codes "purge_upload") up.storage_key (upload_snapshot up size slugs) db).1

-- the bucket has no object for this row
unfoldable pub drop_orphan : Upload → Db → Db
drop_orphan up db =
    let (r, db₁) = Uploads.delete up.storage_key db in
    elim r [
      | err e ↦ mark_failed up e db₁
      | ok done ↦ if ltb 0 up.delete_attempts then record_purge up up.size_bytes [] db₁ else db₁
    ]

-- `DeleteFile` failed
unfoldable pub keep_for_retry : Upload → Error → Db → Db
keep_for_retry up e db =
    let db₁ = mark_failed up e db in
    (record_action (codes "purge_upload_failed") up.storage_key
      (purge_failure (up.delete_attempts + 1) (error_text e)) db₁).1

-- the object has just been deleted; `size` is what the bucket said of it
unfoldable pub drop_rows : Upload → ℕ → Db → Db
drop_rows up size db =
    let (slugs, db₁) = Shares.delete_by_storage_key up.storage_key db in
    let (r, db₂) = Uploads.delete up.storage_key db₁ in
    elim r [ err e ↦ mark_failed up e db₂ | ok done ↦ record_purge up size (slugs_of slugs) db₂ ]

module _ {O : Type 0} (files : Storage O) where
  unfoldable pub delete_object : Upload → ℕ → Kept O → Kept O
  delete_object up size w =
      let (r, objects) = files.delete_file up.storage_key w.objects in
      elim r [
        | err e ↦ record { db = keep_for_retry up e w.db; objects = objects }
        | ok done ↦ record { db = drop_rows up size w.db; objects = objects }
      ]

  -- one round of the loop
  unfoldable pub purge_upload : Upload → Kept O → Kept O
  purge_upload up w =
      let (r, objects) = files.get_file_size up.storage_key w.objects in
      elim r [
        | err object_not_found ↦ record { db = drop_orphan up w.db; objects = objects }
        | err e ↦ record { db = mark_failed up e w.db; objects = objects }
        | ok size ↦ delete_object up size (record { db = w.db; objects = objects })
      ]

  unfoldable pub purge_uploads : List Upload → Kept O → Kept O
  purge_uploads [] w = w
  purge_uploads (up ∷ list) w = purge_uploads list (purge_upload up w)

  -- `Run` at an instant
  unfoldable pub purge_expired_uploads : Duration → Duration → Time → Act (Kept O) (Unit {0})
  purge_expired_uploads anon_ttl owned_ttl now w =
      let (r, db) =
        Uploads.list_expired (now -ℤ anon_ttl) (now -ℤ owned_ttl) sweep_batch_size w.db in
      let w₁ : Kept O = record { db = db; objects = w.objects } in
      elim r [ err e ↦ (err e, w₁) | ok list ↦ (ok tt, purge_uploads list w₁) ]
