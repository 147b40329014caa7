-- ===== src/Worker/Purge/Stale.antt =====
-- A round of internal/worker/purge.go, some time after the share was listed.
use lapis_archive_file_servi.Prelude.{
  [], ◌∷◌, ◌++◌, List, Bytes, codes, true, not, none, find_if, keep_if, ◌≡◌, refl, ap, ◌∙◌, arith,
}
use lapis_archive_file_servi.Result.{Result, ok, err, not_found}
use lapis_archive_file_servi.Domain.{Share}
use lapis_archive_file_servi.Store.{ShareRow, AuditRow, Db}
use lapis_archive_file_servi.Store.Shares
use lapis_archive_file_servi.Store.Statements.{statement_calm}
use lapis_archive_file_servi.Store.Reads.{get_by_slug_calm}
use lapis_archive_file_servi.Audit.{marshals, insert_audit, record_action}
use lapis_archive_file_servi.Worker.Purge.{share_snapshot, purge_share}

none_found :
    (slug : Bytes) (rows : List ShareRow)
    → find_if (Shares.has_slug slug) (keep_if (λ row. not (Shares.has_slug slug row)) rows) ≡ none
unfolding find_if keep_if
none_found slug [] = refl
none_found slug (row ∷ rows) = ground (arith, none_found slug rows)

abbrev removed : Share → Db → Db
removed s db = record {
  tables = Shares.delete_shares (Shares.has_slug s.slug) db.tables;
  fates = [];
}

delete_by_slug_calm :
    (s : Share) (db : Db) → db.fates ≡ [] → Shares.delete_by_slug s.slug db ≡ (ok tt, removed s db)
unfolding Shares.delete_by_slug
delete_by_slug_calm s db calm =
    ground (arith, statement_calm (Shares.delete_all (Shares.has_slug s.slug)) db calm)

abbrev pub entry : Share → AuditRow
entry s = record { action = codes "purge_share"; subject = s.slug; detail = share_snapshot s }

record_action_calm :
    (s : Share) (db : Db)
    → db.fates ≡ []
    → marshals (share_snapshot s) ≡ true
    → record_action (codes "purge_share") s.slug (share_snapshot s) db
      ≡ (ok tt, record { tables = (insert_audit (entry s) db.tables).1; fates = [] })
unfolding record_action
record_action_calm s db calm fits =
    ground (arith, fits, statement_calm (insert_audit (entry s)) db calm)

-- Over a connection that holds, a round of the purge removes the share of the listed slug, whatever
-- its row has become since it was listed: also if it was rotated and has not expired. What is
-- recorded is the share as it was listed, if its instants are in the years 0 to 9999.
pub purge_share_stale :
    (s : Share) (db : Db)
    → db.fates ≡ []
    → marshals (share_snapshot s) ≡ true
    → ((Shares.get_by_slug s.slug (purge_share s db)).0 ≡ err not_found)
      × ((purge_share s db).tables.audit_log ≡ db.tables.audit_log ++ entry s ∷ [])
unfolding purge_share
purge_share_stale s db calm fits =
    let after : Db = record {
      tables = (insert_audit (entry s) (removed s db).tables).1;
      fates = [];
    } in
    let done : purge_share s db ≡ after =
      ap
        (λ (p : Result (Unit {0}) × Db). elim p.0 [
          | err e ↦ p.1
          | ok deleted ↦ (record_action (codes "purge_share") s.slug (share_snapshot s) p.1).1
        ])
        (delete_by_slug_calm s db calm)
      ∙ ap (λ (x : Result (Unit {0}) × Db). x.1) (record_action_calm s (removed s db) refl fits) in
    rw done (rw (get_by_slug_calm s.slug after refl, none_found s.slug db.tables.shares) refl, refl)
