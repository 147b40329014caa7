-- ===== src/S3/Listing.antt =====
-- `ListParts` of internal/storage/s3.go against a bucket that pages as it documents to.
use lapis_archive_file_servi.Prelude.{
  ℕ, zero, suc, ◌<◌, [], List, Bytes, ◌++◌, append_assoc, map, length, length-append, Option, none,
  some, true, false, ◌≡◌, ap, arith,
}
use mathlib.Core.List.{map-append}
use lapis_archive_file_servi.Result.{ok}
use lapis_archive_file_servi.Sdk.{answer, ListedPart, PartsPage, Client}
use lapis_archive_file_servi.Quote.{Unicode}
use lapis_archive_file_servi.Handlers.Multipart.{Part}
use lapis_archive_file_servi.S3.{list_from, list_parts, to_part, or_else}

-- A page lists all that is left from its marker; or it is truncated and not empty, and what is left
-- goes on from the marker that it names.
pub data Continues (left : Option Bytes → List ListedPart) (marker : Option Bytes)
    (page : PartsPage) : Type 0 where
  last :
      or_else false page.is_truncated ≡ false
      → left marker ≡ page.parts
      → Continues left marker page
  more :
      or_else false page.is_truncated ≡ true
      → left marker ≡ page.parts ++ left page.next_part_number_marker
      → 0 < length page.parts
      → Continues left marker page

module _ {O : Type 0} (client : Client O) (bucket key upload_id : Bytes) where
  -- Listing the parts of a session changes nothing, and its pages continue one another.
  pub record IsPaged (left : Option Bytes → List ListedPart) (o : O) : Type 0 where
    pub page :
        (marker : Option Bytes)
        → (p : PartsPage) × ((client.list_parts bucket key upload_id marker o).0 ≡ answer p)
          × ((client.list_parts bucket key upload_id marker o).1 ≡ o)
          × Continues left marker p

module _ (unicode : Unicode) {O : Type 0} (client : Client O) (bucket key upload_id : Bytes)
    {left : Option Bytes → List ListedPart} {o : O}
    (paged : IsPaged client bucket key upload_id left o) where
  list_from_complete :
      (fuel : ℕ) (marker : Option Bytes) (parts : List Part)
      → length (left marker) < fuel
      → list_from unicode client bucket fuel key upload_id marker parts o
        ≡ (some (ok (parts ++ map to_part (left marker))), o)
  unfolding list_from
  list_from_complete zero marker parts h = elim h [ ]
  list_from_complete (suc fuel) marker parts h =
      let (p, e, same, c) = paged.page marker in
      elim c [
        | last l all ↦ ground arith
        | more m split some_part ↦
            rw (split, map-append, ← append_assoc)
              (let rest =
                  list_from_complete fuel p.next_part_number_marker (parts ++ map to_part p.parts) (
                    omega (
                      arith,
                      h,
                      ap length split,
                      length-append p.parts (left p.next_part_number_marker),
                    )) in
                ground arith)
      ]

  -- The listing of a session ends and returns every part that the bucket holds, in its order and
  -- once each, if the pages of the bucket continue one another and a truncated page is not empty;
  -- one round more than there are parts is enough.
  pub list_parts_complete :
      (fuel : ℕ)
      → length (left none) < fuel
      → list_parts unicode client bucket fuel key upload_id o
        ≡ (some (ok (map to_part (left none))), o)
  unfolding list_parts
  list_parts_complete fuel h = list_from_complete fuel none [] h
