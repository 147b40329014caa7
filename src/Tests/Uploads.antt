-- ===== src/Tests/Uploads.antt =====
-- internal/handlers: file names, presigned uploads and uploads in parts.
use lapis_archive_file_servi.Prelude.{
  ℕ, ◌+◌, ◌*◌, ◌^◌, ◌≤◌, ◌<◌, [], ◌∷◌, List, codes, true, false, none, some, any_of, keep_if, ◌≟◌,
  ◌≡◌, refl, arith,
}
use mathlib.Core.List.{Perm}
use lapis_archive_file_servi.Prelude.Int.{pos, ◌+ℤ◌, ◌≤ℤ◌, ltb_ℤ}
use lapis_archive_file_servi.Utf8.{string_of, runes, runes_after, decode_rune, encode_rune}
use lapis_archive_file_servi.Result.{ok}
use lapis_archive_file_servi.Time.{wrap_int64, signed}
use lapis_archive_file_servi.Sort.{sort_by, insert_by, IsSortedBy}
use lapis_archive_file_servi.Storagekey.{build, split, cut}
use lapis_archive_file_servi.Store.{statement, run_fated}
use lapis_archive_file_servi.Store.Uploads
use lapis_archive_file_servi.Handlers.World.{success, read_clock}
use lapis_archive_file_servi.Handlers.Keys.{valid_key}
use lapis_archive_file_servi.Handlers.Names.{
  sanitize_filename, cleaned_runes, shortened, short_ext, path_base, path_ext, last_segment,
  drop_last_slashes, trim_left, trim_right,
}
use lapis_archive_file_servi.Handlers.Files.{
  UploadRequest, Presigned, presign_upload, presign_key, record_upload_for,
}
use lapis_archive_file_servi.Handlers.Multipart.{
  Part, MultipartRef, MultipartStorage, Session, part_size, max_parts, part_count_of, quotient,
  init, open_session, record_session, complete, complete_held, complete_parts, total_size,
  before_part,
}
use lapis_archive_file_servi.Handlers.Parts.{
  sum_of, HasSizes, part_count_of-bounds, complete-success,
}
use lapis_archive_file_servi.Handlers.Tracked.{
  IsRecorded, presign_upload-IsRecorded, init-IsRecorded,
}
use lapis_archive_file_servi.Tests.Handlers.{files, world}

path_is_cut : sanitize_filename (codes "C:\\dir\\a b.txt") ≡ codes "a b.txt"
unfolding sanitize_filename cleaned_runes shortened short_ext path_base path_ext last_segment
    drop_last_slashes trim_left trim_right any_of keep_if runes runes_after decode_rune string_of
    encode_rune ◌≟◌
path_is_cut = refl

-- a name that is only slashes stays a slash, and its key is refused by `validKey`
only_slashes : sanitize_filename (codes "//") ≡ codes "/"
unfolding sanitize_filename cleaned_runes shortened short_ext path_base path_ext last_segment
    drop_last_slashes trim_left trim_right any_of keep_if runes runes_after decode_rune string_of
    encode_rune ◌≟◌
only_slashes = refl

slash_key : valid_key (build (codes "id") (codes "/")) ≡ false
unfolding valid_key build any_of runes runes_after decode_rune
slash_key = refl

abbrev request : UploadRequest
request = record { name = codes "a.txt"; size = 20000000; content_type = [] }

abbrev presigned : Presigned
presigned = record {
  upload_url = codes "id_a.txt";
  storage_key = codes "id_a.txt";
  id = codes "id";
  name = codes "a.txt";
  expires_in = 900;
}

presigned_ok :
    (presign_upload files
      (some Uploads.create)
      (pos 30000000)
      none
      (codes "id")
      (some request)
      world).0
    ≡ success presigned
unfolding presign_upload presign_key record_upload_for Uploads.create Uploads.insert_upload
    statement run_fated build sanitize_filename cleaned_runes shortened short_ext path_base path_ext
    last_segment drop_last_slashes trim_left trim_right any_of keep_if runes runes_after decode_rune
    string_of encode_rune ◌≟◌ read_clock Uploads.upload_row
presigned_ok = refl

presign_upload-IsRecorded_example :
    IsRecorded
      (codes "id_a.txt")
      (presign_upload files
        (some Uploads.create)
        (pos 30000000)
        none
        (codes "id")
        (some request)
        world).1.db
    × (codes "id_a.txt" ≡ build (codes "id") (sanitize_filename (codes "a.txt")))
    × (ltb_ℤ (pos 30000000) (pos 20000000) ≡ false)
presign_upload-IsRecorded_example =
    presign_upload-IsRecorded files (pos 30000000) none (codes "id") request world presigned_ok

-- a bucket that accepts every part and holds two of them
abbrev held : List Part
held =
    record { part_number = pos 1; etag = []; size = pos 8388608 }
    ∷ record { part_number = pos 2; etag = []; size = pos 5 }
    ∷ []

abbrev buckets : MultipartStorage (Unit {0})
buckets = record {
  create_multipart_upload = λ key kind o. (ok (codes "u"), o);
  presign_upload_part = λ key id n o. (ok key, o);
  list_parts = λ key id o. (ok held, o);
  complete_multipart_upload = λ key id parts o. (ok tt, o);
  abort_multipart_upload = λ key id o. (ok tt, o);
}

abbrev session : Session
session = record {
  storage_key = codes "id_a.txt";
  upload_id = codes "u";
  name = codes "a.txt";
  part_size = part_size;
  part_count = pos 3;
  expires_in = 900;
}

session_ok :
    (init buckets (some Uploads.create) (pos 30000000) none (codes "id") (some request) world).0
    ≡ success session
unfolding init open_session record_session record_upload_for Uploads.create Uploads.insert_upload
    statement run_fated build sanitize_filename cleaned_runes shortened short_ext path_base path_ext
    last_segment drop_last_slashes trim_left trim_right any_of keep_if runes runes_after decode_rune
    string_of encode_rune ◌≟◌ read_clock Uploads.upload_row part_count_of quotient wrap_int64 signed
session_ok = refl

init-IsRecorded_example :
    IsRecorded
      (codes "id_a.txt")
      (init buckets
        (some Uploads.create)
        (pos 30000000)
        none
        (codes "id")
        (some request)
        world).1.db
    × (codes "id_a.txt" ≡ build (codes "id") (sanitize_filename (codes "a.txt")))
    × (ltb_ℤ (pos 30000000) (pos 20000000) ≡ false)
    × (ltb_ℤ (pos max_parts) (pos 3) ≡ false)
    × (pos 3 ≡ part_count_of 20000000)
init-IsRecorded_example =
    init-IsRecorded buckets (pos 30000000) none (codes "id") request world session_ok

part_count_of-bounds_example :
    (k : ℕ) × (part_count_of 20000000 ≡ pos k)
    × (20000000 ≤ k * part_size)
    × (k * part_size < 20000000 + part_size)
part_count_of-bounds_example = part_count_of-bounds 20000000 (omega arith) (omega arith)

abbrev ref : MultipartRef
ref = record { storage_key = codes "id_a.txt"; upload_id = codes "u" }

completed_ok :
    (complete buckets (pos 30000000) (some (ref, held)) world).0
    ≡ success (record { storage_key = codes "id_a.txt"; id = codes "id"; name = codes "a.txt" })
unfolding complete complete_held complete_parts valid_key any_of runes runes_after decode_rune
    total_size wrap_int64 signed ◌+ℤ◌ split cut sort_by insert_by
completed_ok = refl

complete-success_example :
    (valid_key (codes "id_a.txt") ≡ true)
    × ((there : List Part) × (ok held ≡ ok there)
        × ((sizes : List ℕ)
            → HasSizes there sizes
            → sum_of sizes < 2 ^ 63
            → pos (sum_of sizes) ≤ℤ pos 30000000))
    × ((sent : List Part) × Perm sent held
        × IsSortedBy before_part sent
        × ((buckets.complete_multipart_upload (codes "id_a.txt") (codes "u") sent tt).0 ≡ ok tt))
complete-success_example = complete-success buckets (pos 30000000) ref held world completed_ok
