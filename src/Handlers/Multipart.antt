-- ===== src/Handlers/Multipart.antt =====
-- internal/handlers/multipart.go: uploads in parts. Sizes and part numbers are what the JSON has or
-- the bucket says; sums wrap around as an int64 does.
use lapis_archive_file_servi.Prelude.{
  ℕ, suc, ◌+◌, ◌-◌, ◌/◌, [], ◌∷◌, List, Bytes, codes, Bool, not, ◌||◌, Option, none, some, ltb,
  if◌then◌else◌,
}
use lapis_archive_file_servi.Prelude.Int.{ℤ, pos, negsuc, sub_ℕ, ◌+ℤ◌, ltb_ℤ}
use lapis_archive_file_servi.Result.{Error, Result, ok, err, no_such_upload}
use lapis_archive_file_servi.Act.{Step, Act}
use lapis_archive_file_servi.Time.{wrap_int64}
use lapis_archive_file_servi.Sort.{sort_by}
use lapis_archive_file_servi.Storagekey.{build, split}
use lapis_archive_file_servi.Domain.{User}
use lapis_archive_file_servi.Handlers.World.{World, Reply, success, failure, on_objects}
use lapis_archive_file_servi.Handlers.Keys.{valid_key}
use lapis_archive_file_servi.Handlers.Names.{sanitize_filename}
use lapis_archive_file_servi.Handlers.Files.{
  UploadRequest, UploadRecorder, content_type_of, record_upload_for,
}

abbrev pub part_size : ℕ
part_size = 8388608

abbrev pub max_parts : ℕ
max_parts = 10000

-- `storage.Part` of internal/storage/s3.go
pub record Part : Type 0 where
  pub part_number : ℤ
  pub etag : Bytes
  pub size : ℤ

-- `MultipartStorage`
pub record MultipartStorage (O : Type 0) : Type 0 where
  pub create_multipart_upload : Bytes → Bytes → Act O Bytes
  pub presign_upload_part : Bytes → Bytes → ℕ → Act O Bytes
  pub list_parts : Bytes → Bytes → Act O (List Part)
  pub complete_multipart_upload : Bytes → Bytes → List Part → Act O (Unit {0})
  pub abort_multipart_upload : Bytes → Bytes → Act O (Unit {0})

pub record Session : Type 0 where
  pub storage_key : Bytes
  pub upload_id : Bytes
  pub name : Bytes
  pub part_size : ℕ
  pub part_count : ℤ
  pub expires_in : ℕ

-- `MultipartRef`
pub record MultipartRef : Type 0 where
  pub storage_key : Bytes
  pub upload_id : Bytes

-- `MultipartCompleteResponse`
pub record Completed : Type 0 where
  pub storage_key : Bytes
  pub id : Bytes
  pub name : Bytes

-- division of an int64, towards zero
unfoldable pub quotient : ℤ → ℕ → ℤ
quotient (pos n) d = pos (n / d)
quotient (negsuc n) d = sub_ℕ 0 (suc n / d)

-- `int((req.Size + PartSize - 1) / PartSize)`
unfoldable pub part_count_of : ℕ → ℤ
part_count_of size = quotient (wrap_int64 (pos (size + part_size - 1))) part_size

abbrev pub multipart_error : {A : Type 0} → Error → Reply A
multipart_error no_such_upload =
    failure 404 (codes "Upload session no longer exists, start it again")
multipart_error e = failure 500 (codes "Could not finish upload")

-- the reply to an error of `AbortMultipartUpload`; a session that is gone is as good as cancelled
abbrev pub abort_reply : Bytes → Result (Unit {0}) → Reply Bytes
abort_reply key (ok done) = success key
abort_reply key (err no_such_upload) = success key
abort_reply key (err e) = failure 500 (codes "Could not cancel upload")

-- the bytes that the bucket holds of a session
unfoldable pub total_size : List Part → ℤ → ℤ
total_size [] total = total
total_size (p ∷ parts) total = total_size parts (wrap_int64 (total +ℤ p.size))

abbrev pub before_part : Part → Part → Bool
before_part p q = ltb_ℤ p.part_number q.part_number

module _ {O : Type 0} (files : MultipartStorage O) where
  -- the session is open; one that cannot be recorded is aborted
  unfoldable pub record_session :
      Option UploadRecorder
      → Option User
      → Bytes
      → Bytes
      → Bytes
      → ℕ
      → Step (World O) (Reply Session)
  record_session recorder user key name upload_id size w =
      let (r, w₁) = record_upload_for recorder user key name size w in
      elim r [
        | err e ↦
            let (aborted, w₂) = on_objects (files.abort_multipart_upload key upload_id) w₁ in
            (failure 500 (codes "Could not prepare upload"), w₂)
        | ok done ↦ (
          success (record {
            storage_key = key;
            upload_id = upload_id;
            name = name;
            part_size = part_size;
            part_count = part_count_of size;
            expires_in = 900;
          }),
          w₁,
        )
      ]

  unfoldable pub open_session :
      Option UploadRecorder → Option User → Bytes → UploadRequest → Step (World O) (Reply Session)
  open_session recorder user file_id req w =
      let name = sanitize_filename req.name in
      let key = build file_id name in
      let (r, w₁) =
        on_objects (files.create_multipart_upload key (content_type_of req.content_type)) w in
      elim r [
        | err e ↦ (failure 500 (codes "Could not prepare upload"), w₁)
        | ok upload_id ↦ record_session recorder user key name upload_id req.size w₁
      ]

  -- `Init`
  unfoldable pub init :
      Option UploadRecorder
      → ℤ
      → Option User
      → Bytes
      → Option UploadRequest
      → Step (World O) (Reply Session)
  init recorder max_upload_bytes user file_id none w =
      (failure 400 (codes "name and size are required"), w)
  init recorder max_upload_bytes user file_id (some req) w =
      if ltb_ℤ max_upload_bytes (pos req.size) || ltb_ℤ (pos max_parts) (part_count_of req.size)
      then (failure 413 (codes "File too large"), w)
      else open_session recorder user file_id req w

  -- `PresignPart`
  unfoldable pub presign_part : Option (MultipartRef × ℕ) → Step (World O) (Reply Bytes)
  presign_part none w =
      (failure 400 (codes "storage_key, upload_id and part_number are required"), w)
  presign_part (some (ref, part_number)) w =
      if not (valid_key ref.storage_key) || ltb max_parts part_number
      then (failure 400 (codes "Invalid storage key or part number"), w)
      else let (r, w₁) =
          on_objects (files.presign_upload_part ref.storage_key ref.upload_id part_number) w in
        elim r [
          | err e ↦ (failure 500 (codes "Could not prepare upload"), w₁)
          | ok url ↦ (success url, w₁)
        ]

  -- `Status`
  unfoldable pub status : Option MultipartRef → Step (World O) (Reply (List Part))
  status none w = (failure 400 (codes "storage_key and upload_id are required"), w)
  status (some ref) w =
      if not (valid_key ref.storage_key)
      then (failure 400 (codes "Invalid storage key"), w)
      else let (r, w₁) = on_objects (files.list_parts ref.storage_key ref.upload_id) w in
        elim r [ err e ↦ (multipart_error e, w₁) | ok parts ↦ (success parts, w₁) ]

  -- the parts that the bucket holds are not too large together
  unfoldable pub complete_parts : MultipartRef → List Part → Step (World O) (Reply Completed)
  complete_parts ref parts w =
      let (r, w₁) =
        on_objects
          (files.complete_multipart_upload ref.storage_key ref.upload_id
            (sort_by before_part parts))
          w in
      let (id, name) = split ref.storage_key in
      elim r [
        | err e ↦ (multipart_error e, w₁)
        | ok done ↦ (success (record { storage_key = ref.storage_key; id = id; name = name }), w₁)
      ]

  unfoldable pub complete_held :
      ℤ → MultipartRef → List Part → List Part → Step (World O) (Reply Completed)
  complete_held max_upload_bytes ref parts held w =
      if ltb_ℤ max_upload_bytes (total_size held (pos 0))
      then (let (aborted, w₁) =
            on_objects (files.abort_multipart_upload ref.storage_key ref.upload_id) w in
          (failure 413 (codes "File too large"), w₁))
      else complete_parts ref parts w

  -- `Complete`
  unfoldable pub complete : ℤ → Option (MultipartRef × List Part) → Step (World O) (Reply Completed)
  complete max_upload_bytes none w =
      (failure 400 (codes "storage_key, upload_id and parts are required"), w)
  complete max_upload_bytes (some (ref, parts)) w =
      if not (valid_key ref.storage_key)
      then (failure 400 (codes "Invalid storage key"), w)
      else let (held, w₁) = on_objects (files.list_parts ref.storage_key ref.upload_id) w in
        elim held [
          | err e ↦ (multipart_error e, w₁)
          | ok there ↦ complete_held max_upload_bytes ref parts there w₁
        ]

  -- `Abort`
  unfoldable pub abort : Option MultipartRef → Step (World O) (Reply Bytes)
  abort none w = (failure 400 (codes "storage_key and upload_id are required"), w)
  abort (some ref) w =
      if not (valid_key ref.storage_key)
      then (failure 400 (codes "Invalid storage key"), w)
      else let (r, w₁) =
          on_objects (files.abort_multipart_upload ref.storage_key ref.upload_id) w in
        (abort_reply ref.storage_key r, w₁)
