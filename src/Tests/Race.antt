-- ===== src/Tests/Race.antt =====
-- internal/handlers/share.go: two requests that share one file again, one between the other's statements.
use lapis_archive_file_servi.Prelude.{
  true, [], ◌∷◌, codes, none, ◌+◌, any_of, ◌≟◌, find_if, ◌≡◌, refl,
}
use lapis_archive_file_servi.Prelude.Int.{pos, ◌+ℤ◌, ◌*ℤ◌}
use lapis_archive_file_servi.Result.{ok}
use lapis_archive_file_servi.Time.{hour, times, wrap_int64, signed, to_micros}
use lapis_archive_file_servi.Domain.{
  Share, rotate, random_string, random_letters, draw_code, rand_read, bound_ttl,
}
use lapis_archive_file_servi.Store.{Db, statement, run_fated}
use lapis_archive_file_servi.Store.Shares
use lapis_archive_file_servi.Store.Uploads
use lapis_archive_file_servi.Handlers.World.{World, success, db_shares, read_clock}
use lapis_archive_file_servi.Handlers.Race.{Rotated, lookup, two_requests_count_one}
use lapis_archive_file_servi.Handlers.Reshare.{
  Created, cap_to_retention, cap, cap_to, rotate_share, rotate_stored, store_rotated,
}
use lapis_archive_file_servi.Tests.Domain.{digest, the_share, the_slug}
use lapis_archive_file_servi.Tests.Handlers.{files, world, request}
use lapis_archive_file_servi.Tests.Store.{no_tables}

abbrev shared : Db
shared = record {
  tables = record no_tables { shares = Shares.share_row the_share ∷ [] };
  fates = [];
}

abbrev first : World (Unit {0})
first = record world { db = shared }

abbrev after_first : World (Unit {0})
after_first = (rotate_share db_shares lookup hour hour digest files none the_share request first).1

abbrev second : World (Unit {0})
second = record world { db = after_first.db }

abbrev reply : Created
reply = record {
  slug = the_slug;
  code = codes "BCDEFG";
  file_name = codes "f";
  file_size = 3;
  share_count = 2;
  rotated = true;
  expires_at = pos 3600000000000;
}

was_read : (Shares.get_by_storage_key (codes "k_f") shared).0 ≡ ok the_share
unfolding Shares.get_by_storage_key statement run_fated find_if ◌≟◌ Shares.share_row
    Shares.scan_share to_micros
was_read = refl

first_succeeds :
    (rotate_share db_shares lookup hour hour digest files none the_share request first).0
    ≡ success reply
unfolding rotate_share rotate_stored store_rotated rotate random_string random_letters read_clock
    draw_code rand_read bound_ttl Shares.rotate_code Shares.update_code statement run_fated find_if
    any_of cap_to_retention cap cap_to times wrap_int64 signed ◌*ℤ◌ ◌+ℤ◌ ◌≟◌
    Uploads.get_by_storage_key Shares.share_row to_micros
first_succeeds = refl

second_succeeds :
    (rotate_share db_shares lookup hour hour digest files none the_share request second).0
    ≡ success reply
unfolding rotate_share rotate_stored store_rotated rotate random_string random_letters read_clock
    draw_code rand_read bound_ttl Shares.rotate_code Shares.update_code statement run_fated find_if
    any_of cap_to_retention cap cap_to times wrap_int64 signed ◌*ℤ◌ ◌+ℤ◌ ◌≟◌
    Uploads.get_by_storage_key Shares.share_row to_micros
second_succeeds = refl

two_requests_count_one_example :
    (reply.share_count ≡ the_share.share_count + 1)
    × (reply.share_count ≡ the_share.share_count + 1)
    × ((kept : Share) × ((Shares.get_by_slug the_slug
            (rotate_share db_shares lookup hour hour digest files none the_share request
              second).1.db).0
          ≡ ok kept)
        × Rotated digest the_share (the_share.share_count + 1) (codes "BCDEFG") kept)
two_requests_count_one_example =
    two_requests_count_one digest hour hour files (codes "k_f") shared the_share none none request
      request first second refl was_read refl first_succeeds refl second_succeeds
