-- ===== src/Worker/Purge.antt =====
-- internal/worker/purge.go: the job that removes shares past their expiry.
pub mod Live
pub mod Stale
pub mod Sweep
use lapis_archive_file_servi.Prelude.{ℕ, [], ◌∷◌, List, codes}
use lapis_archive_file_servi.Result.{Result, ok, err}
use lapis_archive_file_servi.Act.{Act}
use lapis_archive_file_servi.Time.{Time}
use lapis_archive_file_servi.Domain.{Share}
use lapis_archive_file_servi.Store.{Detail, purged_share, Db}
use lapis_archive_file_servi.Store.Shares
use lapis_archive_file_servi.Audit.{record_action}

abbrev pub sweep_batch_size : ℕ
sweep_batch_size = 200

-- `PurgedShare`: what is kept of a share that is removed, without its hash and its salt
abbrev pub share_snapshot : Share → Detail
share_snapshot s =
    purged_share s.storage_key s.file_name s.file_size s.owner_email s.created_at s.expires_at

-- one round of the loop; a removal that fails is not recorded, a failed record is only logged
unfoldable pub purge_share : Share → Db → Db
purge_share s db =
    let (r, db₁) = Shares.delete_by_slug s.slug db in
    elim r [
      | err e ↦ db₁
      | ok done ↦ (record_action (codes "purge_share") s.slug (share_snapshot s) db₁).1
    ]

unfoldable pub purge_shares : List Share → Db → Db
purge_shares [] db = db
purge_shares (s ∷ list) db = purge_shares list (purge_share s db)

-- `Run`, where the clock of the database shows `now`
unfoldable pub purge_expired_shares : Time → Act Db (Unit {0})
purge_expired_shares now db =
    let (r, db₁) = Shares.list_expired now sweep_batch_size db in
    elim r [ err e ↦ (err e, db₁) | ok list ↦ (ok tt, purge_shares list db₁) ]
