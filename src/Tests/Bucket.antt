-- ===== src/Tests/Bucket.antt =====
-- internal/storage/s3.go over a small bucket: one session with two parts, listed a page at a time.
use lapis_archive_file_servi.Prelude.{
  ℕ, [], ◌∷◌, ◌++◌, List, Bytes, codes, true, false, Option, none, some, map, any_of, ◌≟◌, ◌≡◌, ◌↔◌,
  refl, inr, arith,
}
use lapis_archive_file_servi.Prelude.Int.{pos}
use lapis_archive_file_servi.Result.{ok, err, object_not_found, no_such_upload}
use lapis_archive_file_servi.Sort.{sort_by}
use lapis_archive_file_servi.Storagekey.{build, split}
use lapis_archive_file_servi.Utf8.{string_of, runes, encode_rune, decode_rune}
use lapis_archive_file_servi.Handlers.Names.{path_ext}
use lapis_archive_file_servi.Sdk.{Fault, answer, fault, GetObject, ListedPart, PartsPage, Client}
use lapis_archive_file_servi.Quote.{Unicode, to_lower}
use lapis_archive_file_servi.Handlers.Multipart.{before_part}
use lapis_archive_file_servi.S3.{
  inline_risky, get_input, to_part, list_parts, get_presigned_url, get_file_size,
  complete_multipart_upload, abort_multipart_upload, to_completed,
}
use lapis_archive_file_servi.S3.Listing.{Continues, last, more, IsPaged, list_parts_complete}
use lapis_archive_file_servi.S3.Missing.{SaysNotFound, SaysNoSuchUpload, FaultOf, sentinels_iff}
use lapis_archive_file_servi.S3.Inline.{IsDownload, get_presigned_url-IsDownload}

abbrev pub ascii_only : Unicode
ascii_only = record { printable = λ r. false; lower = λ r. r }

abbrev part_of : ℕ → ListedPart
part_of n = record { part_number = some (pos n); etag = some (codes "e"); size = some (pos 7) }

-- what is left from a marker
abbrev left : Option Bytes → List ListedPart
left none = part_of 1 ∷ part_of 2 ∷ []
left (some marker) = part_of 2 ∷ []

abbrev page_from : Option Bytes → PartsPage
page_from none = record {
  parts = part_of 1 ∷ [];
  is_truncated = some true;
  next_part_number_marker = some (codes "1");
}
page_from (some marker) = record {
  parts = part_of 2 ∷ [];
  is_truncated = none;
  next_part_number_marker = none;
}

abbrev gone : Fault
gone = record { code = some (codes "NoSuchKey"); message = codes "gone" }

-- a bucket that has the session only
abbrev pub small : Client (Unit {0})
small = record {
  delete_object = λ bucket key o. (answer tt, o);
  head_object = λ bucket key o. (fault gone, o);
  presign_put_object = λ input ttl o. (answer input.key, o);
  presign_get_object = λ input ttl o. (answer input.key, o);
  presign_upload_part = λ bucket key upload_id n ttl o. (answer key, o);
  create_multipart_upload = λ bucket key content_type o. (answer (some (codes "u")), o);
  list_parts = λ bucket key upload_id marker o. (answer (page_from marker), o);
  complete_multipart_upload = λ bucket key upload_id parts o. (answer tt, o);
  abort_multipart_upload = λ bucket key upload_id o. (answer tt, o);
}

abbrev bucket_name : Bytes
bucket_name = codes "oss-archive"

small-IsPaged : IsPaged small bucket_name (codes "k_f") (codes "u") left tt
small-IsPaged = record { page = λ marker. of_marker marker }
  where
    of_marker :
        (marker : Option Bytes)
        → (p : PartsPage) × ((small.list_parts bucket_name (codes "k_f") (codes "u") marker tt).0
            ≡ answer p)
          × ((small.list_parts bucket_name (codes "k_f") (codes "u") marker tt).1 ≡ tt)
          × Continues left marker p
    of_marker none = (page_from none, refl, refl, more refl refl (omega arith))
    of_marker (some m) = (page_from (some m), refl, refl, last refl refl)

list_parts_complete_example :
    list_parts ascii_only small bucket_name 3 (codes "k_f") (codes "u") tt
    ≡ (some (ok (map to_part (left none))), tt)
list_parts_complete_example =
    list_parts_complete ascii_only small bucket_name (codes "k_f") (codes "u") small-IsPaged 3
      (omega arith)

abbrev SignedFor : GetObject → Bytes → Type 0
SignedFor i url = i.key ≡ url

get_presigned_url-IsDownload_example :
    (i : GetObject) × SignedFor i (build (codes "id") (codes "page" ++ codes ".HtMl"))
    × IsDownload ascii_only bucket_name (build (codes "id") (codes "page" ++ codes ".HtMl")) false i
unfolding get_presigned_url get_input build ◌≟◌ any_of inline_risky to_lower string_of runes
    path_ext split encode_rune decode_rune
get_presigned_url-IsDownload_example =
    get_presigned_url-IsDownload ascii_only bucket_name small {Signed = SignedFor}
      (λ i ttl o url e. cc) (codes "id") (codes "page") (codes ".HtMl") false tt
      (build (codes "id") (codes "page" ++ codes ".HtMl")) (omega arith) (inr refl) refl

sentinels_iff_example :
    (((get_file_size ascii_only small bucket_name (codes "k_f") tt).0 ≡ err object_not_found)
      ↔ FaultOf SaysNotFound (small.head_object bucket_name (codes "k_f") tt).0)
    × (((complete_multipart_upload ascii_only small bucket_name (codes "k_f") (codes "u") [] tt).0
          ≡ err no_such_upload)
        ↔ FaultOf SaysNoSuchUpload
            (small.complete_multipart_upload bucket_name
              (codes "k_f")
              (codes "u")
              (map to_completed (sort_by before_part []))
              tt).0)
    × (((abort_multipart_upload ascii_only small bucket_name (codes "k_f") (codes "u") tt).0
          ≡ err no_such_upload)
        ↔ FaultOf SaysNoSuchUpload
            (small.abort_multipart_upload bucket_name (codes "k_f") (codes "u") tt).0)
sentinels_iff_example = sentinels_iff ascii_only small bucket_name (codes "k_f") tt (codes "u") []
