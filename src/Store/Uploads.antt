-- ===== src/Store/Uploads.antt =====
-- internal/store/uploads.go
use lapis_archive_file_servi.Prelude.{
  ℕ, ◌+◌, [], ◌∷◌, ◌++◌, List, Bytes, codes, Bool, not, Option, none, some, ◌≟◌, if◌then◌else◌, map,
  take, keep_if, any_of, find_if, is_empty, ◌||◌,
}
use lapis_archive_file_servi.Prelude.Int.{ltb_ℤ}
use lapis_archive_file_servi.Result.{Result, ok, not_found}
use lapis_archive_file_servi.Act.{Act, pure, raise, wrap, ◌>>=◌}
use lapis_archive_file_servi.Time.{Time, to_micros}
use lapis_archive_file_servi.Sort.{sort_by}
use lapis_archive_file_servi.Domain.{Upload}
use lapis_archive_file_servi.Store.{
  UploadRow, Tables, Db, statement, nullable_uuid, is_uuid, checked, or_empty,
}

unfoldable pub upload_row : Upload → UploadRow
upload_row up = record {
  storage_key = up.storage_key;
  owner_id = nullable_uuid up.owner_id;
  file_name = up.file_name;
  size_bytes = up.size_bytes;
  created_at = to_micros up.created_at;
  delete_attempts = 0;
  last_delete_error = none;
}

unfoldable pub scan_upload : UploadRow → Upload
scan_upload row = record {
  storage_key = row.storage_key;
  owner_id = or_empty row.owner_id;
  file_name = row.file_name;
  size_bytes = row.size_bytes;
  created_at = row.created_at;
  delete_attempts = row.delete_attempts;
}

abbrev pub has_key : Bytes → UploadRow → Bool
has_key key row = row.storage_key ≟ key

-- `on conflict (storage_key) do nothing`
unfoldable pub insert_upload : UploadRow → Tables → Result (Unit {0}) × Tables
insert_upload row t =
    if any_of (has_key row.storage_key) t.uploads
    then (ok tt, t)
    else (ok tt, record t { uploads = t.uploads ++ row ∷ [] })

unfoldable pub create : Upload → Act Db (Unit {0})
unfolding insert_upload upload_row
create up = wrap (codes "insert upload: ") (
    statement
      (checked (is_empty up.owner_id || is_uuid up.owner_id) (insert_upload (upload_row up))))

-- the `where` of `ListExpired`
abbrev pub is_due : Time → Time → UploadRow → Bool
is_due anon_before owned_before row = elim row.owner_id [
  | none ↦ ltb_ℤ row.created_at anon_before
  | some id ↦ ltb_ℤ row.created_at owned_before
]

-- `order by created_at asc`
abbrev pub older : UploadRow → UploadRow → Bool
older a b = ltb_ℤ a.created_at b.created_at

abbrev pub due_rows : Time → Time → ℕ → List UploadRow → List UploadRow
due_rows anon_before owned_before limit rows =
    take limit (sort_by older (keep_if (is_due anon_before owned_before) rows))

abbrev pub select_rows : (List UploadRow → List UploadRow) → Tables → Result (List Upload) × Tables
select_rows pick t = (ok (map scan_upload (pick t.uploads)), t)

unfoldable pub list_expired : Time → Time → ℕ → Act Db (List Upload)
unfolding scan_upload
list_expired anon_before owned_before limit =
    wrap (codes "list expired uploads: ")
      (statement (select_rows (due_rows (to_micros anon_before) (to_micros owned_before) limit)))

abbrev pub found : Option UploadRow → Act Db Upload
found none = raise not_found
found (some row) = pure (scan_upload row)

abbrev pub select_one : (UploadRow → Bool) → Tables → Result (Option UploadRow) × Tables
select_one p t = (ok (find_if p t.uploads), t)

unfoldable pub get_by_storage_key : Bytes → Act Db Upload
unfolding scan_upload
get_by_storage_key key = do
  row ← wrap (codes "get upload: ") (statement (select_one (has_key key)))
  found row

abbrev pub delete_upload : Bytes → Tables → Result (Unit {0}) × Tables
delete_upload key t =
    (ok tt, record t { uploads = keep_if (λ row. not (has_key key row)) t.uploads })

unfoldable pub delete : Bytes → Act Db (Unit {0})
delete key = wrap (codes "delete upload: ") (statement (delete_upload key))

abbrev pub failed_row : Bytes → Bytes → UploadRow → UploadRow
failed_row key message row =
    if has_key key row
    then record row { delete_attempts = row.delete_attempts + 1; last_delete_error = some message }
    else row

abbrev pub update_failed : Bytes → Bytes → Tables → Result (Unit {0}) × Tables
update_failed key message t = (ok tt, record t { uploads = map (failed_row key message) t.uploads })

unfoldable pub mark_delete_failed : Bytes → Bytes → Act Db (Unit {0})
mark_delete_failed key message =
    wrap (codes "mark delete failed: ") (statement (update_failed key message))
