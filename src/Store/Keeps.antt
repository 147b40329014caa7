-- ===== src/Store/Keeps.antt =====
-- The statements of internal/store, one by one, and the consistency of the tables.
use lapis_archive_file_servi.Prelude.{
  ℕ, Bytes, codes, Bool, true, false, is_empty, ◌||◌, not, Option, any_of, arith, Bool-cases, inl,
  inr,
}
use lapis_archive_file_servi.Result.{Result}
use lapis_archive_file_servi.Act.{Act, wrap, ◌>>=◌, Preserves, wrap-Preserves, >>=-Preserves}
use lapis_archive_file_servi.Time.{Time, to_micros}
use lapis_archive_file_servi.Domain.{Share, Upload}
use lapis_archive_file_servi.Store.{ShareRow, UploadRow, Tables, Db, statement, is_uuid, checked}
use lapis_archive_file_servi.Store.Distinct.{
  append_one-IsDistinct, keep_if-IsDistinct, map-IsDistinct,
}
use lapis_archive_file_servi.Store.Invariant.{
  SoundShare, IsConsistent, Holds, statement-Preserves, insert_share-IsConsistent,
  update_code-IsConsistent, delete_shares-IsConsistent,
}
use lapis_archive_file_servi.Store.Shares
use lapis_archive_file_servi.Store.Uploads

abbrev pub Keeps : {A : Type 0} → Act Db A → Type 0
Keeps m = Preserves (Holds IsConsistent) m

run-Keeps :
    {A : Type 0} (context : Bytes) (q : Tables → Result A × Tables)
    → ((t : Tables) → IsConsistent t → IsConsistent (q t).1)
    → Keeps (wrap context (statement q))
run-Keeps context q keep =
    wrap-Preserves (Holds IsConsistent) context (statement q)
      (statement-Preserves IsConsistent q keep)

checked-IsConsistent :
    {A : Type 0} (valid : Bool) (q : Tables → Result A × Tables)
    → ((t : Tables) → IsConsistent t → IsConsistent (q t).1)
    → (t : Tables) → IsConsistent t
    → IsConsistent (checked valid q t).1
checked-IsConsistent true q keep t h = keep t h
checked-IsConsistent false q keep t h = h

affected-Keeps : (hit : Bool) → Keeps (Shares.affected hit)
affected-Keeps hit db h = ground arith

found-Keeps : (row : Option ShareRow) → Keeps (Shares.found row)
found-Keeps row db h = ground arith

upload_found-Keeps : (row : Option UploadRow) → Keeps (Uploads.found row)
upload_found-Keeps row db h = ground arith

-- a query, and what is done with its answer
query-Keeps :
    {A B : Type 0} (context : Bytes) (q : Tables → Result A × Tables) (f : A → Act Db B)
    → ((t : Tables) → IsConsistent t → IsConsistent (q t).1)
    → ((a : A) → Keeps (f a))
    → Keeps (wrap context (statement q) >>= f)
query-Keeps context q f keep next =
    >>=-Preserves (Holds IsConsistent) (wrap context (statement q)) f (run-Keeps context q keep)
      next

pub create-Keeps : (sh : Share) → SoundShare sh → Keeps (Shares.create sh)
unfolding Shares.create
create-Keeps sh good =
    run-Keeps (codes "insert share: ")
      (checked (is_empty sh.owner_id || is_uuid sh.owner_id)
        (Shares.insert_share (Shares.share_row sh)))
      (checked-IsConsistent _ (Shares.insert_share (Shares.share_row sh))
        (λ t. insert_share-IsConsistent sh t good))

pub rotate_code-Keeps : (sh : Share) → SoundShare sh → Keeps (Shares.rotate_code sh)
unfolding Shares.rotate_code
rotate_code-Keeps sh good =
    query-Keeps (codes "rotate share: ") (Shares.update_code sh) Shares.affected
      (λ t. update_code-IsConsistent sh t good) affected-Keeps

pub get_by_slug-Keeps : (slug : Bytes) → Keeps (Shares.get_by_slug slug)
unfolding Shares.get_by_slug
get_by_slug-Keeps slug =
    query-Keeps (codes "get share: ") (Shares.select_one (Shares.has_slug slug)) Shares.found
      (λ t h. h) found-Keeps

pub get_by_storage_key-Keeps : (key : Bytes) → Keeps (Shares.get_by_storage_key key)
unfolding Shares.get_by_storage_key
get_by_storage_key-Keeps key =
    query-Keeps (codes "get share by key: ") (Shares.select_one (Shares.has_key key)) Shares.found
      (λ t h. h) found-Keeps

pub list_by_owner-Keeps : (owner : Bytes) → Keeps (Shares.list_by_owner owner)
unfolding Shares.list_by_owner
list_by_owner-Keeps owner =
    run-Keeps (codes "list shares: ")
      (checked (is_uuid owner) (Shares.select_rows (Shares.owned_rows owner)))
      (checked-IsConsistent (is_uuid owner) (Shares.select_rows (Shares.owned_rows owner))
        (λ t h. h))

pub list_expired-Keeps : (now : Time) (limit : ℕ) → Keeps (Shares.list_expired now limit)
unfolding Shares.list_expired
list_expired-Keeps now limit =
    run-Keeps (codes "list expired: ") (Shares.select_rows (Shares.expired_rows now limit))
      (λ t h. h)

pub delete_by_slug-Keeps : (slug : Bytes) → Keeps (Shares.delete_by_slug slug)
unfolding Shares.delete_by_slug
delete_by_slug-Keeps slug =
    run-Keeps (codes "delete share: ") (Shares.delete_all (Shares.has_slug slug))
      (delete_shares-IsConsistent (Shares.has_slug slug))

pub delete_by_storage_key-Keeps : (key : Bytes) → Keeps (Shares.delete_by_storage_key key)
unfolding Shares.delete_by_storage_key
delete_by_storage_key-Keeps key =
    run-Keeps (codes "delete shares by key: ") (Shares.delete_returning (Shares.has_key key))
      (delete_shares-IsConsistent (Shares.has_key key))

pub delete-Keeps : (slug owner : Bytes) → Keeps (Shares.delete slug owner)
unfolding Shares.delete
delete-Keeps slug owner =
    query-Keeps (codes "delete share: ")
      (checked (is_uuid owner) (Shares.delete_found (Shares.is_owned slug owner))) Shares.affected
      (checked-IsConsistent (is_uuid owner) (Shares.delete_found (Shares.is_owned slug owner))
        (delete_shares-IsConsistent (Shares.is_owned slug owner)))
      affected-Keeps

insert_upload-IsConsistent :
    (row : UploadRow) (t : Tables) → IsConsistent t → IsConsistent (Uploads.insert_upload row t).1
unfolding Uploads.insert_upload
insert_upload-IsConsistent row t h =
    elim (Bool-cases (any_of (Uploads.has_key row.storage_key) t.uploads)) [
      | inl taken ↦ rw taken h
      | inr new ↦ rw new (record {
        slugs = h.slugs;
        keys = h.keys;
        sound = h.sound;
        upload_keys = append_one-IsDistinct _ t.uploads row new h.upload_keys;
      })
    ]

pub upload_create-Keeps : (up : Upload) → Keeps (Uploads.create up)
unfolding Uploads.create
upload_create-Keeps up =
    run-Keeps (codes "insert upload: ")
      (checked (is_empty up.owner_id || is_uuid up.owner_id)
        (Uploads.insert_upload (Uploads.upload_row up)))
      (checked-IsConsistent _ (Uploads.insert_upload (Uploads.upload_row up))
        (insert_upload-IsConsistent (Uploads.upload_row up)))

pub upload_list_expired-Keeps : (a b : Time) (limit : ℕ) → Keeps (Uploads.list_expired a b limit)
unfolding Uploads.list_expired
upload_list_expired-Keeps a b limit =
    run-Keeps (codes "list expired uploads: ")
      (Uploads.select_rows (Uploads.due_rows (to_micros a) (to_micros b) limit)) (λ t h. h)

pub upload_get-Keeps : (key : Bytes) → Keeps (Uploads.get_by_storage_key key)
unfolding Uploads.get_by_storage_key
upload_get-Keeps key =
    query-Keeps (codes "get upload: ") (Uploads.select_one (Uploads.has_key key)) Uploads.found
      (λ t h. h) upload_found-Keeps

pub upload_delete-Keeps : (key : Bytes) → Keeps (Uploads.delete key)
unfolding Uploads.delete
upload_delete-Keeps key = run-Keeps (codes "delete upload: ") (Uploads.delete_upload key) (λ t h.
    record {
      slugs = h.slugs;
      keys = h.keys;
      sound = h.sound;
      upload_keys =
          keep_if-IsDistinct _ (λ row. not (Uploads.has_key key row)) t.uploads h.upload_keys;
    })

pub mark_delete_failed-Keeps :
    (key message : Bytes) → Keeps (Uploads.mark_delete_failed key message)
unfolding Uploads.mark_delete_failed
mark_delete_failed-Keeps key message =
    run-Keeps (codes "mark delete failed: ") (Uploads.update_failed key message) (λ t h. record {
      slugs = h.slugs;
      keys = h.keys;
      sound = h.sound;
      upload_keys =
          map-IsDistinct _ (Uploads.failed_row key message) (λ r. ground arith) t.uploads
            h.upload_keys;
    })
