-- ===== src/Tests/Store.antt =====
-- internal/store, on tables of one share.
use lapis_archive_file_servi.Prelude.{[], any_of, ◌≟◌, ◌≡◌, refl, arith}
use lapis_archive_file_servi.Result.{ok, err}
use lapis_archive_file_servi.Store.{Tables, Db, statement, run_fated}
use lapis_archive_file_servi.Store.Invariant.{IsConsistent, SoundShare}
use lapis_archive_file_servi.Store.Reach.{
  Reaches, stops, goes, creates, rotates, Reaches-IsConsistent,
}
use lapis_archive_file_servi.Store.Reads.{
  as_stored, calmed, renewed, get_by_slug-create, get_by_slug-rotate_code,
}
use lapis_archive_file_servi.Store.Shares
use lapis_archive_file_servi.Tests.Domain.{the_share, the_share_again, the_slug}

abbrev pub no_tables : Tables
no_tables = record { shares = []; uploads = []; audit_log = []; job_runs = [] }

abbrev empty_db : Db
empty_db = record { tables = no_tables; fates = [] }

pub no_tables-IsConsistent : IsConsistent no_tables
no_tables-IsConsistent = record { slugs = tt; keys = tt; sound = tt; upload_keys = tt }

abbrev filled : Db
filled = (Shares.create the_share empty_db).1

abbrev again : Db
again = (Shares.rotate_code the_share_again filled).1

share-Sound : SoundShare the_share
share-Sound = ground arith

share_again-Sound : SoundShare the_share_again
share_again-Sound = ground arith

steps : Reaches empty_db again
steps =
    goes (creates the_share share-Sound) (goes (rotates the_share_again share_again-Sound) stops)

Reaches-IsConsistent_example : IsConsistent again.tables
Reaches-IsConsistent_example = Reaches-IsConsistent steps no_tables-IsConsistent

created : (Shares.create the_share empty_db).0 ≡ ok tt
unfolding Shares.create Shares.insert_share statement run_fated any_of ◌≟◌
created = refl

calm_after_create : filled.fates ≡ []
unfolding Shares.create Shares.insert_share statement run_fated any_of ◌≟◌
calm_after_create = refl

rotated : (Shares.rotate_code the_share_again filled).0 ≡ ok tt
unfolding Shares.create Shares.insert_share Shares.rotate_code Shares.update_code statement
    run_fated any_of ◌≟◌
rotated = refl

calm_after_rotation : again.fates ≡ []
unfolding Shares.create Shares.insert_share Shares.rotate_code Shares.update_code statement
    run_fated any_of ◌≟◌
calm_after_rotation = refl

get_by_slug-create_example : (Shares.get_by_slug the_slug filled).0 ≡ ok (as_stored the_share)
get_by_slug-create_example = get_by_slug-create the_share empty_db created calm_after_create

get_by_slug-rotate_code_example :
    (Shares.get_by_slug the_slug again).0 ≡ elim (Shares.get_by_slug the_slug (calmed filled)).0 [
      | err e ↦ err e
      | ok old ↦ ok (renewed the_share_again old)
    ]
get_by_slug-rotate_code_example =
    get_by_slug-rotate_code the_share_again filled the_slug rotated calm_after_rotation
