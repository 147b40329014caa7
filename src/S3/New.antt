-- ===== src/S3/New.antt =====
-- `NewS3Storage` of internal/storage/s3.go, and the storage for the sessions of multipart uploads.
use lapis_archive_file_servi.Prelude.{
  ℕ, ◌++◌, List, Bytes, codes, Bool, Option, none, some, is_empty, if◌then◌else◌,
}
use lapis_archive_file_servi.Result.{Result, ok, err, failed, wrapped}
use lapis_archive_file_servi.Act.{Act}
use lapis_archive_file_servi.Sdk.{Client}
use lapis_archive_file_servi.Quote.{Unicode}
use lapis_archive_file_servi.Config.{S3Config}
use lapis_archive_file_servi.Handlers.World.{Storage}
use lapis_archive_file_servi.Handlers.Multipart.{Part, MultipartStorage}
use lapis_archive_file_servi.S3.{
  list_parts, create_multipart_upload, presign_upload_part, complete_multipart_upload,
  abort_multipart_upload, s3_storage,
}

-- what the SDK makes a client of
pub record ClientOptions : Type 0 where
  pub region : Bytes
  pub access_key_id : Bytes
  pub secret_access_key : Bytes
  pub use_path_style : Bool
  pub base_endpoint : Option Bytes

unfoldable pub base_endpoint_of : S3Config → Option Bytes
base_endpoint_of cfg =
    let scheme = if cfg.use_ssl then codes "https://" else codes "http://" in
    if is_empty cfg.endpoint then none else some (scheme ++ cfg.endpoint)

unfoldable pub options_of : S3Config → ClientOptions
options_of cfg = record {
  region = cfg.region;
  access_key_id = cfg.access_key_id;
  secret_access_key = cfg.secret_access_key;
  use_path_style = cfg.force_path_style;
  base_endpoint = base_endpoint_of cfg;
}

-- `S3Storage` behind both of its interfaces
pub record Bucket (O : Type 0) : Type 0 where
  pub files : Storage O
  pub sessions : MultipartStorage O

module _ (unicode : Unicode) {O : Type 0} (rounds : ℕ) where
  -- A listing that runs out of rounds counts as failed.
  unfoldable pub listed : Client O → Bytes → Bytes → Bytes → Act O (List Part)
  listed client bucket key upload_id o =
      let (r, o₁) = list_parts unicode client bucket rounds key upload_id o in
      elim r [ none ↦ (err (failed (codes "listing parts")), o₁) | some list ↦ (list, o₁) ]

  unfoldable pub bucket_of : Client O → Bytes → Bucket O
  bucket_of client bucket = record {
    files = s3_storage unicode client bucket;
    sessions = record {
      create_multipart_upload = create_multipart_upload unicode client bucket;
      presign_upload_part = presign_upload_part unicode client bucket;
      list_parts = listed client bucket;
      complete_multipart_upload = complete_multipart_upload unicode client bucket;
      abort_multipart_upload = abort_multipart_upload unicode client bucket;
    };
  }

  -- `NewS3Storage`, where `connect` is the SDK
  unfoldable pub new_s3_storage : (ClientOptions → Result (Client O)) → S3Config → Result (Bucket O)
  new_s3_storage connect cfg = elim (connect (options_of cfg)) [
    | err e ↦ err (wrapped (codes "loading AWS config: ") e)
    | ok client ↦ ok (bucket_of client cfg.bucket_name)
  ]
