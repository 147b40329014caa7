-- ===== src/S3.antt =====
-- internal/storage/s3.go: the bucket, over the client of the SDK.
pub mod Listing
pub mod Missing
pub mod Inline
pub mod New
use lapis_archive_file_servi.Prelude.{
  ℕ, zero, suc, [], ◌∷◌, ◌++◌, List, Bytes, codes, Bool, true, false, ◌||◌, Option, none, some,
  any_of, map, ◌≟◌, if◌then◌else◌,
}
use lapis_archive_file_servi.Prelude.Int.{ℤ, pos, ltb_ℤ}
use lapis_archive_file_servi.Result.{
  Error, Result, ok, err, failed, object_not_found, no_such_upload,
}
use lapis_archive_file_servi.Act.{Step, Act}
use lapis_archive_file_servi.Time.{Duration, hour}
use lapis_archive_file_servi.Sort.{sort_by}
use lapis_archive_file_servi.Storagekey.{split}
use lapis_archive_file_servi.Decimal.{print_nat}
use lapis_archive_file_servi.Sdk.{
  Fault, Answer, answer, fault, PutObject, GetObject, ListedPart, PartsPage, CompletedPart, Client,
}
use lapis_archive_file_servi.Quote.{Unicode, quote, to_lower}
use lapis_archive_file_servi.Handlers.World.{Storage}
use lapis_archive_file_servi.Handlers.Names.{path_ext}
use lapis_archive_file_servi.Handlers.Multipart.{Part, before_part}

abbrev pub presign_ttl : Duration
presign_ttl = hour

abbrev pub upload_presign_ttl : Duration
upload_presign_ttl = pos 900000000000

-- `aws.ToString` and the like: what nil stands for
abbrev pub or_else : {A : Type 0} → A → Option A → A
or_else a none = a
or_else a (some b) = b

-- whether the error has one of these codes
abbrev pub has_code : List Bytes → Fault → Bool
has_code names f = elim f.code [ none ↦ false | some c ↦ any_of (λ n. c ≟ n) names ]

-- `inlineRiskyExt`
abbrev pub inline_risky_ext : List Bytes
inline_risky_ext =
    codes ".html"
    ∷ codes ".htm"
    ∷ codes ".xhtml"
    ∷ codes ".xht"
    ∷ codes ".shtml"
    ∷ codes ".svg"
    ∷ codes ".svgz"
    ∷ codes ".xml"
    ∷ []

-- one part of a page
unfoldable pub to_part : ListedPart → Part
to_part p = record {
  part_number = or_else (pos 0) p.part_number;
  etag = or_else [] p.etag;
  size = or_else (pos 0) p.size;
}

unfoldable pub to_completed : Part → CompletedPart
to_completed p = record { part_number = p.part_number; etag = p.etag }

module _ (unicode : Unicode) where
  -- `fmt.Errorf(format+": %w", key, err)`, where the format is a text and `%q`
  unfoldable pub about_key : Bytes → Bytes → Fault → Error
  about_key doing key f = failed (doing ++ (quote unicode key ++ (codes ": " ++ f.message)))

  unfoldable pub wrap_not_found : Bytes → Bytes → Fault → Error
  wrap_not_found doing key f =
      if has_code (codes "NotFound" ∷ codes "NoSuchKey" ∷ []) f
      then object_not_found
      else about_key doing key f

  unfoldable pub wrap_no_such_upload : Bytes → Bytes → Fault → Error
  wrap_no_such_upload doing key f =
      if has_code (codes "NoSuchUpload" ∷ []) f then no_such_upload else about_key doing key f

  unfoldable pub inline_risky : Bytes → Bool
  inline_risky key =
      any_of (λ ext. to_lower unicode (path_ext (split key).1) ≟ ext) inline_risky_ext

  -- `fmt.Sprintf("attachment; filename=%q", original)`
  unfoldable pub attachment : Bytes → Bytes
  attachment key = codes "attachment; filename=" ++ quote unicode (split key).1

  -- what `GetPresignedURL` asks to be signed
  unfoldable pub get_input : Bytes → Bytes → Bool → GetObject
  get_input bucket key force_download =
      if force_download
      then record {
        bucket = bucket;
        key = key;
        response_content_type = none;
        response_content_disposition = some (attachment key);
      }
      else if inline_risky key
      then record {
        bucket = bucket;
        key = key;
        response_content_type = some (codes "application/octet-stream");
        response_content_disposition = some (attachment key);
      }
      else record {
        bucket = bucket;
        key = key;
        response_content_type = none;
        response_content_disposition = none;
      }

  module _ {O : Type 0} (client : Client O) (bucket : Bytes) where
    unfoldable pub delete_file : Bytes → Act O (Unit {0})
    delete_file key o =
        let (r, o₁) = client.delete_object bucket key o in
        elim r [
          | fault f ↦ (err (about_key (codes "deleting ") key f), o₁)
          | answer done ↦ (ok tt, o₁)
        ]

    unfoldable pub get_file_size : Bytes → Act O ℕ
    get_file_size key o =
        let (r, o₁) = client.head_object bucket key o in
        elim r [
          | fault f ↦ (err (wrap_not_found (codes "sizing ") key f), o₁)
          | answer size ↦ (ok (or_else 0 size), o₁)
        ]

    unfoldable pub get_presigned_upload_url : Bytes → ℕ → Bytes → Act O Bytes
    get_presigned_upload_url key size content_type o =
        let input : PutObject = record {
          bucket = bucket;
          key = key;
          content_length = size;
          content_type = content_type;
        } in
        let (r, o₁) = client.presign_put_object input upload_presign_ttl o in
        elim r [
          | fault f ↦ (err (about_key (codes "presigning upload ") key f), o₁)
          | answer url ↦ (ok url, o₁)
        ]

    unfoldable pub get_presigned_url : Bytes → Bool → Act O Bytes
    get_presigned_url key force_download o =
        let (r, o₁) =
          client.presign_get_object (get_input bucket key force_download) presign_ttl o in
        elim r [
          | fault f ↦ (err (about_key (codes "presigning ") key f), o₁)
          | answer url ↦ (ok url, o₁)
        ]

    unfoldable pub create_multipart_upload : Bytes → Bytes → Act O Bytes
    create_multipart_upload key content_type o =
        let (r, o₁) = client.create_multipart_upload bucket key content_type o in
        elim r [
          | fault f ↦ (err (about_key (codes "creating multipart upload ") key f), o₁)
          | answer id ↦ (ok (or_else [] id), o₁)
        ]

    unfoldable pub presign_upload_part : Bytes → Bytes → ℕ → Act O Bytes
    presign_upload_part key upload_id part_number o =
        let (r, o₁) =
          client.presign_upload_part bucket key upload_id part_number upload_presign_ttl o in
        elim r [
          | fault f ↦ (
            err (
                about_key (codes "presigning part " ++ (print_nat part_number ++ codes " of ")) key
                  f),
            o₁,
          )
          | answer url ↦ (ok url, o₁)
        ]

    -- The loop of `ListParts`, from a marker and the parts so far; none if the fuel runs out.
    unfoldable pub list_from :
        ℕ → Bytes → Bytes → Option Bytes → List Part → Step O (Option (Result (List Part)))
    list_from zero key upload_id marker parts o = (none, o)
    list_from (suc fuel) key upload_id marker parts o =
        let (r, o₁) = client.list_parts bucket key upload_id marker o in
        elim r [
          | fault f ↦ (some (err (wrap_no_such_upload (codes "listing parts of ") key f)), o₁)
          | answer page ↦ elim (or_else false page.is_truncated) [
            | false ↦ (some (ok (parts ++ map to_part page.parts)), o₁)
            | true ↦
                list_from fuel key upload_id page.next_part_number_marker
                  (parts ++ map to_part page.parts) o₁
          ]
        ]

    unfoldable pub list_parts : ℕ → Bytes → Bytes → Step O (Option (Result (List Part)))
    list_parts fuel key upload_id = list_from fuel key upload_id none []

    unfoldable pub complete_multipart_upload : Bytes → Bytes → List Part → Act O (Unit {0})
    complete_multipart_upload key upload_id parts o =
        let (r, o₁) =
          client.complete_multipart_upload bucket key upload_id
            (map to_completed (sort_by before_part parts)) o in
        elim r [
          | fault f ↦ (err (wrap_no_such_upload (codes "completing multipart upload ") key f), o₁)
          | answer done ↦ (ok tt, o₁)
        ]

    unfoldable pub abort_multipart_upload : Bytes → Bytes → Act O (Unit {0})
    abort_multipart_upload key upload_id o =
        let (r, o₁) = client.abort_multipart_upload bucket key upload_id o in
        elim r [
          | fault f ↦ (err (wrap_no_such_upload (codes "aborting multipart upload ") key f), o₁)
          | answer done ↦ (ok tt, o₁)
        ]

    -- `S3Storage` as the handlers and the jobs see it
    abbrev pub s3_storage : Storage O
    s3_storage = record {
      get_presigned_upload_url = get_presigned_upload_url;
      get_presigned_url = get_presigned_url;
      delete_file = delete_file;
      get_file_size = get_file_size;
    }
