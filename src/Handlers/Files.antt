-- ===== src/Handlers/Files.antt =====
-- internal/handlers/file.go: presigned uploads and downloads.
use lapis_archive_file_servi.Prelude.{
  ℕ, [], Bytes, codes, Bool, not, Option, none, some, is_empty, if◌then◌else◌,
}
use lapis_archive_file_servi.Prelude.Int.{ℤ, pos, ltb_ℤ}
use lapis_archive_file_servi.Result.{Result, ok, err}
use lapis_archive_file_servi.Act.{Step, Act}
use lapis_archive_file_servi.Storagekey.{build}
use lapis_archive_file_servi.Domain.{Upload, User}
use lapis_archive_file_servi.Store.{Db}
use lapis_archive_file_servi.Handlers.World.{
  World, Reply, success, failure, Storage, on_db, on_objects, read_clock,
}
use lapis_archive_file_servi.Handlers.Keys.{valid_key}
use lapis_archive_file_servi.Handlers.Names.{sanitize_filename}
use lapis_archive_file_servi.Handlers.Reshare.{size_failure}

-- `PresignUploadRequest`, also of a multipart upload, and `PresignUploadResponse`
pub record UploadRequest : Type 0 where
  pub name : Bytes
  pub size : ℕ
  pub content_type : Bytes

pub record Presigned : Type 0 where
  pub upload_url : Bytes
  pub storage_key : Bytes
  pub id : Bytes
  pub name : Bytes
  pub expires_in : ℕ

-- `FileDownloadResponse`
pub record Download : Type 0 where
  pub url : Bytes
  pub expires_in : ℕ
  pub download : Bool

-- `UploadRecorder`
abbrev pub UploadRecorder : Type 0
UploadRecorder = Upload → Act Db (Unit {0})

abbrev pub content_type_of : Bytes → Bytes
content_type_of kind = if is_empty kind then codes "application/octet-stream" else kind

abbrev pub uploader_of : Option User → Bytes
uploader_of none = []
uploader_of (some user) = user.id

module _ {O : Type 0} where
  unfoldable pub record_upload_for :
      Option UploadRecorder → Option User → Bytes → Bytes → ℕ → Step (World O) (Result (Unit {0}))
  record_upload_for none user key name size w = (ok tt, w)
  record_upload_for (some recorder) user key name size w =
      let (t, w₁) = read_clock w in
      on_db
        (recorder (record {
          storage_key = key;
          owner_id = uploader_of user;
          file_name = name;
          size_bytes = size;
          created_at = t;
          delete_attempts = 0;
        }))
        w₁

  module _ (files : Storage O) where
    -- the upload has its key; `file_id` is what `uuid.New` returned
    unfoldable pub presign_key :
        Option UploadRecorder
        → Option User
        → Bytes
        → UploadRequest
        → Step (World O) (Reply Presigned)
    presign_key recorder user file_id req w =
        let name = sanitize_filename req.name in
        let key = build file_id name in
        let (url, w₁) =
          on_objects
            (files.get_presigned_upload_url key req.size (content_type_of req.content_type)) w in
        elim url [
          | err e ↦ (failure 500 (codes "Could not prepare upload"), w₁)
          | ok upload_url ↦
              let (r, w₂) = record_upload_for recorder user key name req.size w₁ in
              elim r [
                | err e ↦ (failure 500 (codes "Could not prepare upload"), w₂)
                | ok done ↦ (
                  success (record {
                    upload_url = upload_url;
                    storage_key = key;
                    id = file_id;
                    name = name;
                    expires_in = 900;
                  }),
                  w₂,
                )
              ]
        ]

    -- `POST /files/presign`
    unfoldable pub presign_upload :
        Option UploadRecorder
        → ℤ
        → Option User
        → Bytes
        → Option UploadRequest
        → Step (World O) (Reply Presigned)
    presign_upload recorder max_upload_bytes user file_id none w =
        (failure 400 (codes "name and size are required"), w)
    presign_upload recorder max_upload_bytes user file_id (some req) w =
        if ltb_ℤ max_upload_bytes (pos req.size)
        then (failure 413 (codes "File too large"), w)
        else presign_key recorder user file_id req w

    -- `GET /files/:id`
    unfoldable pub get_file : Bytes → Bool → Step (World O) (Reply Download)
    get_file key force_download w =
        if not (valid_key key)
        then (failure 400 (codes "Invalid file ID"), w)
        else let (size, w₁) = on_objects (files.get_file_size key) w in
          elim size [
            | err e ↦ (size_failure e, w₁)
            | ok bytes ↦
                let (url, w₂) = on_objects (files.get_presigned_url key force_download) w₁ in
                elim url [
                  | err e ↦ (failure 404 (codes "File not found"), w₂)
                  | ok signed ↦ (
                    success (record { url = signed; expires_in = 3600; download = force_download }),
                    w₂,
                  )
                ]
          ]
