-- ===== src/Handlers/Again.antt =====
-- `UnlockShare` of internal/handlers/share.go again: what an unlock that succeeded leaves for the next.
use lapis_archive_file_servi.Prelude.{Bytes, [], none, some, ◌≡◌, sym, subst, arith}
use lapis_archive_file_servi.Prelude.Int.{◌≤ℤ◌}
use lapis_archive_file_servi.Result.{ok}
use lapis_archive_file_servi.Time.{Time}
use lapis_archive_file_servi.Domain.{Share, verify}
use lapis_archive_file_servi.Store.{Tables, Db}
use lapis_archive_file_servi.Store.Shares
use lapis_archive_file_servi.Store.Statements.{statement_calm}
use lapis_archive_file_servi.Store.Reads.{calmed, get_by_slug-ok}
use lapis_archive_file_servi.Handlers.World.{World, success, Storage, db_shares, on_db, read_clock}
use lapis_archive_file_servi.Handlers.Share.{Unlock, Unlocked, allow_unlock, unlock_share}
use lapis_archive_file_servi.Handlers.Unlock.{unlock_share-success}
use lapis_archive_file_servi.Handlers.ReadOnly.{allow_unlock-db, reading-tables}

-- A code that opened a share once opens it until the share's expiry.
verify_again :
    (sha256 : Bytes → Bytes) (s : Share) (t t' : Time) (code : Bytes)
    → verify sha256 s t code ≡ ok tt
    → t' ≤ℤ s.expires_at
    → verify sha256 s t' code ≡ ok tt
unfolding verify
verify_again sha256 s t t' code h live = ground arith

-- A share that was read is read again from the same tables.
read_again :
    (slug : Bytes) (db : Db) (s : Share)
    → (Shares.get_by_slug slug db).0 ≡ ok s
    → (Shares.get_by_slug slug (calmed db)).0 ≡ ok s
unfolding Shares.get_by_slug
read_again slug db s e =
    let (row, found, is) = get_by_slug-ok slug db e in
    ground (arith, statement_calm (Shares.select_one (Shares.has_slug slug)) (calmed db))

-- An unlock that succeeds does not use the code up: no table changes, the share is read as before from
-- the tables that it leaves, over a connection that holds, and the same code passes its check at every
-- instant until the share's expiry.
pub unlock_share-reusable :
    {O : Type 0} (sha256 : Bytes → Bytes) (files : Storage O) (client slug : Bytes) (req : Unlock)
    (w : World O) {u : Unlocked}
    → let after = unlock_share db_shares sha256 files client slug (some req) w in
      after.0 ≡ success u
      → (after.1.db.tables ≡ w.db.tables)
        × ((share : Share) × ((Shares.get_by_slug slug w.db).0 ≡ ok share)
            × ((Shares.get_by_slug slug (calmed after.1.db)).0 ≡ ok share)
            × ((t : Time) → t ≤ℤ share.expires_at → verify sha256 share t req.code ≡ ok tt))
unlock_share-reusable sha256 files client slug req w {u} e =
    let after = (unlock_share db_shares sha256 files client slug (some req) w).1 in
    let (valid, admitted, behind) =
      unlock_share-success db_shares sha256 files client slug (some req) w {u = u} e in
    let (body, is, opened) = behind in
    let same : after.db.tables ≡ w.db.tables =
      (reading-tables sha256 files client slug none (some req) w).2 in
    let stored : (Shares.get_by_slug slug w.db).0 ≡ ok opened.share =
      subst (λ db. (Shares.get_by_slug slug db).0 ≡ ok opened.share) (allow_unlock-db slug client w)
        opened.stored in
    let now =
      (read_clock (on_db (db_shares.get_by_slug slug) (allow_unlock slug client w).1).1).0 in
    let code : body.code ≡ req.code = ground arith in
    (
      same,
      (
        opened.share,
        stored,
        subst
            (λ (t : Tables).
              (Shares.get_by_slug slug (record { tables = t; fates = [] })).0 ≡ ok opened.share)
            (sym same) (read_again slug w.db opened.share stored),
        λ t live.
            verify_again sha256 opened.share now t req.code
              (subst (λ c. verify sha256 opened.share now c ≡ ok tt) code opened.verified) live,
      ),
    )
