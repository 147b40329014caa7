-- ===== src/Handlers/Tracked.antt =====
-- `PresignUpload` and `Init` of internal/handlers: what is announced, and what is recorded.
use lapis_archive_file_servi.Prelude.{
  is_empty, ◌||◌, ℕ, [], ◌∷◌, ◌++◌, List, Bytes, codes, true, false, Option, some, ≟_refl, any_of,
  ◌≡◌, refl, arith, Bool-cases, inl, inr,
}
use lapis_archive_file_servi.Prelude.Int.{ℤ, pos, ltb_ℤ}
use lapis_archive_file_servi.Result.{Result-cases, ok}
use lapis_archive_file_servi.Act.{wrap-eq-ok, wrap-state}
use lapis_archive_file_servi.Storagekey.{build}
use lapis_archive_file_servi.Domain.{Upload, User}
use lapis_archive_file_servi.Store.{UploadRow, Db, is_uuid, checked, statement}
use lapis_archive_file_servi.Store.Statements.{checked-ok, statement-ok}
use lapis_archive_file_servi.Store.Uploads
use lapis_archive_file_servi.Handlers.World.{World, success, Storage, on_objects, read_clock}
use lapis_archive_file_servi.Handlers.Names.{sanitize_filename}
use lapis_archive_file_servi.Handlers.Files.{
  UploadRequest, Presigned, content_type_of, uploader_of, record_upload_for, presign_key,
  presign_upload,
}
use lapis_archive_file_servi.Handlers.Multipart.{
  MultipartStorage, Session, part_count_of, max_parts, record_session, open_session, init,
}

-- The upload with this key is in the table.
abbrev pub IsRecorded : Bytes → Db → Type 0
IsRecorded key db = any_of (Uploads.has_key key) db.tables.uploads ≡ true

any_of-append_one :
    (key : Bytes) (rows : List UploadRow) (row : UploadRow)
    → row.storage_key ≡ key
    → any_of (Uploads.has_key key) (rows ++ row ∷ []) ≡ true
unfolding any_of
any_of-append_one key [] row e = ground (arith, ≟_refl key)
any_of-append_one key (r ∷ rows) row e = ground (arith, any_of-append_one key rows row e)

create-IsRecorded :
    (up : Upload) (db : Db)
    → (Uploads.create up db).0 ≡ ok tt
    → IsRecorded up.storage_key (Uploads.create up db).1
unfolding Uploads.create Uploads.insert_upload Uploads.upload_row
create-IsRecorded up db e =
    let valid = is_empty up.owner_id || is_uuid up.owner_id in
    let insert = Uploads.insert_upload (Uploads.upload_row up) in
    let q = checked valid insert in
    let context = codes "insert upload: " in
    let (ran, after) = statement-ok q db (wrap-eq-ok context (statement q) db e) in
    rw (wrap-state context (statement q) db, after, checked-ok valid insert db.tables ran)
      (elim (Bool-cases (any_of (Uploads.has_key up.storage_key) db.tables.uploads)) [
        | inl there ↦ rw there there
        | inr new ↦
            rw new (any_of-append_one up.storage_key db.tables.uploads (Uploads.upload_row up) refl)
      ])

module _ {O : Type 0} where
  record_upload_for-IsRecorded :
      (user : Option User) (key name : Bytes) (size : ℕ) (w : World O)
      → let r = record_upload_for (some Uploads.create) user key name size w in
        r.0 ≡ ok tt → IsRecorded key r.1.db
  unfolding record_upload_for
  record_upload_for-IsRecorded user key name size w e =
      let (t, w₁) = read_clock w in
      create-IsRecorded
        (record {
          storage_key = key;
          owner_id = uploader_of user;
          file_name = name;
          size_bytes = size;
          created_at = t;
          delete_attempts = 0;
        })
        w₁.db e

  -- On a server with a database, a URL to upload to is given out only for a key that was built from
  -- the file id and the cleaned name, within the size limit, and only once the upload is in the
  -- table.
  pub presign_upload-IsRecorded :
      (files : Storage O) (max_upload_bytes : ℤ) (user : Option User) (file_id : Bytes)
      (req : UploadRequest) (w : World O) {p : Presigned}
      → let after =
          presign_upload files (some Uploads.create) max_upload_bytes user file_id (some req) w in
        after.0 ≡ success p
        → IsRecorded p.storage_key after.1.db
          × (p.storage_key ≡ build file_id (sanitize_filename req.name))
          × (ltb_ℤ max_upload_bytes (pos req.size) ≡ false)
  unfolding presign_upload presign_key
  presign_upload-IsRecorded files max_upload_bytes user file_id req w {p} e =
      let name = sanitize_filename req.name in
      let key = build file_id name in
      let sign = files.get_presigned_upload_url key req.size (content_type_of req.content_type) in
      let w₁ = (on_objects sign w).1 in
      elim (Bool-cases (ltb_ℤ max_upload_bytes (pos req.size))) [
        | inl large ↦ ground arith
        | inr fits ↦ elim (Result-cases (sign w.objects).0) [
          | inr (x, failed) ↦ ground arith
          | inl (url, signed) ↦
              ground (arith, record_upload_for-IsRecorded user key name req.size w₁)
        ]
      ]

  -- On a server with a database, a session is announced only once its upload is in the table, within
  -- the size limit, and with at most 10000 parts.
  pub init-IsRecorded :
      (files : MultipartStorage O) (max_upload_bytes : ℤ) (user : Option User) (file_id : Bytes)
      (req : UploadRequest) (w : World O) {s : Session}
      → let after = init files (some Uploads.create) max_upload_bytes user file_id (some req) w in
        after.0 ≡ success s
        → IsRecorded s.storage_key after.1.db
          × (s.storage_key ≡ build file_id (sanitize_filename req.name))
          × (ltb_ℤ max_upload_bytes (pos req.size) ≡ false)
          × (ltb_ℤ (pos max_parts) s.part_count ≡ false)
          × (s.part_count ≡ part_count_of req.size)
  unfolding init open_session record_session
  init-IsRecorded files max_upload_bytes user file_id req w {s} e =
      let name = sanitize_filename req.name in
      let key = build file_id name in
      let start = files.create_multipart_upload key (content_type_of req.content_type) in
      let w₁ = (on_objects start w).1 in
      elim (Bool-cases
        (ltb_ℤ max_upload_bytes (pos req.size) || ltb_ℤ (pos max_parts) (part_count_of req.size))) [
          | inl large ↦ ground arith
          | inr fits ↦ elim (Result-cases (start w.objects).0) [
            | inr (x, failed) ↦ ground arith
            | inl (id, opened) ↦
                ground (arith, record_upload_for-IsRecorded user key name req.size w₁)
          ]
        ]
