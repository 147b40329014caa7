-- ===== src/Handlers/Keeping.antt =====
-- The handlers of internal/handlers besides `CreateShare`, and the consistency of the tables.
use lapis_archive_file_servi.Prelude.{ℕ, List, Bytes, Bool, Option, none, some, sym, subst, arith}
use lapis_archive_file_servi.Prelude.Int.{ℤ}
use lapis_archive_file_servi.Act.{Step}
use lapis_archive_file_servi.Domain.{User, Upload}
use lapis_archive_file_servi.Store.{Db}
use lapis_archive_file_servi.Store.Invariant.{IsConsistent}
use lapis_archive_file_servi.Store.Keeps
use lapis_archive_file_servi.Handlers.World.{World, Storage, db_shares, on_objects, read_clock}
use lapis_archive_file_servi.Storagekey.{build}
use lapis_archive_file_servi.Handlers.Names.{sanitize_filename}
use lapis_archive_file_servi.Handlers.Health.{health_handler}
use lapis_archive_file_servi.Handlers.Files.{UploadRecorder, UploadRequest, record_upload_for}
use lapis_archive_file_servi.Handlers.Files
use lapis_archive_file_servi.Handlers.Multipart.{Part, MultipartRef, MultipartStorage}
use lapis_archive_file_servi.Handlers.Multipart
use lapis_archive_file_servi.Handlers.Share
use lapis_archive_file_servi.Handlers.ReadOnly.{read_clock-db}
use lapis_archive_file_servi.Handlers.Consistent.{Consistent}

-- a recorder whose statement keeps the tables consistent
abbrev pub IsRecorder : Option UploadRecorder → Type 0
IsRecorder none = Unit
IsRecorder (some recorder) =
    (up : Upload) (db : Db) → IsConsistent db.tables → IsConsistent (recorder up db).1.tables

abbrev pub Preserving : {O A : Type 0} → Step (World O) A → Type 0
Preserving {O} m = (w : World O) → Consistent w → Consistent (m w).1

module _ {O : Type 0} where
  record_upload_for-Keeps :
      (recorder : Option UploadRecorder) (user : Option User) (key name : Bytes) (size : ℕ)
      → IsRecorder recorder
      → Preserving {O = O} (record_upload_for recorder user key name size)
  unfolding record_upload_for
  record_upload_for-Keeps none user key name size l w h = h
  record_upload_for-Keeps (some recorder) user key name size l w h =
      l _ (read_clock w).1.db (subst (λ db. IsConsistent db.tables) (sym (read_clock-db w)) h)

  pub presign_upload-Keeps :
      (files : Storage O) (recorder : Option UploadRecorder) (max : ℤ) (user : Option User)
      (id : Bytes) (body : Option UploadRequest)
      → IsRecorder recorder
      → Preserving (Files.presign_upload files recorder max user id body)
  unfolding Files.presign_upload Files.presign_key
  presign_upload-Keeps files recorder max user id none l w h = h
  presign_upload-Keeps files recorder max user id (some req) l w h =
      let name = sanitize_filename req.name in
      let key = build id name in
      let w₁ =
        (on_objects
          (files.get_presigned_upload_url key req.size (Files.content_type_of req.content_type))
          w).1 in
      ground (arith, record_upload_for-Keeps recorder user key name req.size l w₁ h)

  pub init-Keeps :
      (files : MultipartStorage O) (recorder : Option UploadRecorder) (max : ℤ) (user : Option User)
      (id : Bytes) (body : Option UploadRequest)
      → IsRecorder recorder
      → Preserving (Multipart.init files recorder max user id body)
  unfolding Multipart.init Multipart.open_session Multipart.record_session
  init-Keeps files recorder max user id none l w h = h
  init-Keeps files recorder max user id (some req) l w h =
      let name = sanitize_filename req.name in
      let key = build id name in
      let w₁ =
        (on_objects (files.create_multipart_upload key (Files.content_type_of req.content_type))
          w).1 in
      ground (arith, record_upload_for-Keeps recorder user key name req.size l w₁ h)

  pub revoke_share-Keeps :
      (user : Option User) (slug : Bytes)
      → Preserving {O = O} (Share.revoke_share db_shares user slug)
  unfolding Share.revoke_share
  revoke_share-Keeps none slug w h = h
  revoke_share-Keeps (some user) slug w h = ground (arith, Keeps.delete-Keeps slug user.id w.db h)

module _ {O : Type 0} where
  pub health_handler-Keeps : Preserving {O = O} health_handler
  unfolding health_handler
  health_handler-Keeps w h = subst (λ db. IsConsistent db.tables) (sym (read_clock-db w)) h

  pub get_file-Keeps :
      (files : Storage O) (key : Bytes) (force : Bool) → Preserving (Files.get_file files key force)
  unfolding Files.get_file
  get_file-Keeps files key force w h = ground arith

  module _ (files : MultipartStorage O) where
    pub presign_part-Keeps :
        (body : Option (MultipartRef × ℕ)) → Preserving (Multipart.presign_part files body)
    unfolding Multipart.presign_part
    presign_part-Keeps none w h = h
    presign_part-Keeps (some body) w h = ground arith

    pub status-Keeps : (body : Option MultipartRef) → Preserving (Multipart.status files body)
    unfolding Multipart.status
    status-Keeps none w h = h
    status-Keeps (some ref) w h = ground arith

    pub complete-Keeps :
        (max : ℤ) (body : Option (MultipartRef × List Part))
        → Preserving (Multipart.complete files max body)
    unfolding Multipart.complete Multipart.complete_held Multipart.complete_parts
    complete-Keeps max none w h = h
    complete-Keeps max (some body) w h = ground arith

    pub abort-Keeps : (body : Option MultipartRef) → Preserving (Multipart.abort files body)
    unfolding Multipart.abort
    abort-Keeps none w h = h
    abort-Keeps (some ref) w h = ground arith
