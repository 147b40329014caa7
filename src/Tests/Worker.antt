-- ===== src/Tests/Worker.antt =====
-- internal/worker: a share that is past its expiry and one that is not, and one upload that is due.
use lapis_archive_file_servi.Prelude.{
  List, Bytes, [], ◌∷◌, codes, length, keep_if, ◌≤◌, All, ◌≟◌, ≟_iff, false, ◌≡◌, ◌≢◌, refl, arith,
}
use lapis_archive_file_servi.Prelude.Int.{pos}
use lapis_archive_file_servi.Domain.{Share}
use lapis_archive_file_servi.Store.{Db}
use lapis_archive_file_servi.Store.Shares
use lapis_archive_file_servi.Store.Uploads
use lapis_archive_file_servi.Worker.Purge.Stale.{entry, purge_share_stale}
use lapis_archive_file_servi.Worker.Purge.{sweep_batch_size, purge_share, purge_expired_shares}
use lapis_archive_file_servi.Worker.Purge.Sweep.{purge_expired_shares-live_only}
use lapis_archive_file_servi.Time.{to_micros}
use lapis_archive_file_servi.Worker.Purge.Live.{is_past, live, purge_expired_shares-live}
use lapis_archive_file_servi.Worker.Retention.{purge_expired_uploads}
use lapis_archive_file_servi.Worker.Retention.Due.{purge_expired_uploads-due}
use lapis_archive_file_servi.Tests.Domain.{the_share, the_slug}
use lapis_archive_file_servi.Tests.Handlers.{upload}
use lapis_archive_file_servi.Handlers.World.{Storage}
use lapis_archive_file_servi.Result.{ok, err, not_found}
use lapis_archive_file_servi.Tests.Store.{no_tables}

abbrev other_share : Share
other_share = record the_share {
  slug = codes "abcdefghij";
  storage_key = codes "k_g";
  expires_at = pos 5;
}

abbrev pub two_shares : Db
two_shares = record {
  tables = record no_tables {
    shares = Shares.share_row the_share ∷ Shares.share_row other_share ∷ [];
    uploads = Uploads.upload_row upload ∷ [];
  };
  fates = [];
}

differ : (other_share.slug ≟ the_share.slug) ≡ false
unfolding ◌≟◌
differ = refl

other_slug : (Shares.share_row other_share).slug ≢ (Shares.share_row the_share).slug
unfolding Shares.share_row
other_slug e = ground (arith, ≟_iff other_share.slug the_share.slug, differ)

purge_expired_shares-live_example :
    (live (pos 6) (purge_expired_shares (pos 6) two_shares).1.tables.shares
      ≡ live (pos 6) two_shares.tables.shares)
    × ((purge_expired_shares (pos 6) two_shares).1.tables.uploads ≡ two_shares.tables.uploads)
purge_expired_shares-live_example =
    purge_expired_shares-live (pos 6) two_shares ((other_slug, tt), (tt, tt))

-- a bucket that lists what was deleted from it
abbrev pub logging : Storage (List Bytes)
logging = record {
  get_presigned_upload_url = λ key size kind o. (ok key, o);
  get_presigned_url = λ key download o. (ok key, o);
  delete_file = λ key o. (ok tt, key ∷ o);
  get_file_size = λ key o. (ok 3, o);
}

abbrev IsTheFile : Bytes → Type 0
IsTheFile key = key ≡ codes "k_f"

purge_expired_uploads-due_example :
    All IsTheFile
      (purge_expired_uploads logging
        (pos 5)
        (pos 9)
        (pos 6)
        (record { db = two_shares; objects = [] })).1.objects
unfolding Uploads.upload_row
purge_expired_uploads-due_example =
    purge_expired_uploads-due logging (All IsTheFile) (pos 5) (pos 9) (pos 6)
      (record { db = two_shares; objects = [] }) (λ key o h. h) ((λ e o h. (refl, h)), tt) tt

purge_share_stale_example :
    ((Shares.get_by_slug the_slug (purge_share the_share two_shares)).0 ≡ err not_found)
    × ((purge_share the_share two_shares).tables.audit_log ≡ entry the_share ∷ [])
purge_share_stale_example = purge_share_stale the_share two_shares refl refl

calm : two_shares.fates ≡ []
calm = refl

few : length (keep_if (is_past (pos 6)) two_shares.tables.shares) ≤ sweep_batch_size
unfolding keep_if Shares.share_row to_micros
few = omega arith

purge_expired_shares-live_only_example :
    (purge_expired_shares (pos 6) two_shares).1.tables.shares
    ≡ live (pos 6) two_shares.tables.shares
purge_expired_shares-live_only_example =
    purge_expired_shares-live_only (pos 6) two_shares calm ((other_slug, tt), (tt, tt)) few
