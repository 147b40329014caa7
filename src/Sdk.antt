-- ===== src/Sdk.antt =====
-- The AWS SDK that internal/storage/s3.go calls, as an interface: the inputs that the program fills
-- in, the outputs that it reads, and the client's operations on a bucket's state. A pointer that may
-- be nil is an `Option`.
use lapis_archive_file_servi.Prelude.{ℕ, List, Bytes, Bool, Option}
use lapis_archive_file_servi.Prelude.Int.{ℤ}
use lapis_archive_file_servi.Act.{Step}
use lapis_archive_file_servi.Time.{Duration}

-- An error of the SDK: `code` is what `ErrorCode` returns, if `errors.As` finds an `APIError`.
pub record Fault : Type 0 where
  pub code : Option Bytes
  pub message : Bytes

pub data Answer (A : Type 0) : Type 0 where
  answer : A → Answer A
  fault : Fault → Answer A

-- `s3.PutObjectInput`
pub record PutObject : Type 0 where
  pub bucket : Bytes
  pub key : Bytes
  pub content_length : ℕ
  pub content_type : Bytes

-- `s3.GetObjectInput`
pub record GetObject : Type 0 where
  pub bucket : Bytes
  pub key : Bytes
  pub response_content_type : Option Bytes
  pub response_content_disposition : Option Bytes

-- `types.Part`
pub record ListedPart : Type 0 where
  pub part_number : Option ℤ
  pub etag : Option Bytes
  pub size : Option ℤ

-- `s3.ListPartsOutput`
pub record PartsPage : Type 0 where
  pub parts : List ListedPart
  pub is_truncated : Option Bool
  pub next_part_number_marker : Option Bytes

-- `types.CompletedPart`
pub record CompletedPart : Type 0 where
  pub part_number : ℤ
  pub etag : Bytes

-- The client with its presign client; the first two texts are the bucket and the key, a third is the
-- id of a multipart upload.
pub record Client (O : Type 0) : Type 0 where
  pub delete_object : Bytes → Bytes → Step O (Answer (Unit {0}))
  -- its `ContentLength`
  pub head_object : Bytes → Bytes → Step O (Answer (Option ℕ))
  pub presign_put_object : PutObject → Duration → Step O (Answer Bytes)
  pub presign_get_object : GetObject → Duration → Step O (Answer Bytes)
  pub presign_upload_part : Bytes → Bytes → Bytes → ℕ → Duration → Step O (Answer Bytes)
  -- its `UploadId`; the last text is the content type
  pub create_multipart_upload : Bytes → Bytes → Bytes → Step O (Answer (Option Bytes))
  -- from a part number marker
  pub list_parts : Bytes → Bytes → Bytes → Option Bytes → Step O (Answer PartsPage)
  pub complete_multipart_upload :
      Bytes → Bytes → Bytes → List CompletedPart → Step O (Answer (Unit {0}))
  pub abort_multipart_upload : Bytes → Bytes → Bytes → Step O (Answer (Unit {0}))
