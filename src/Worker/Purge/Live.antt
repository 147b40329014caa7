-- ===== src/Worker/Purge/Live.antt =====
-- The run of internal/worker/purge.go, and the shares that have not expired.
use lapis_archive_file_servi.Prelude.{
  ℕ, [], ◌∷◌, List, Bytes, codes, All, All-take, All-keep_if, All-kept, All-map, All-imp, keep_if,
  take, Bool, true, not, ≟_sound, ◌≡◌, refl, sym, ap, subst, ◌∙◌, ◌⊎◌, arith, inl, inr,
}
use lapis_archive_file_servi.Prelude.Int.{ltb_ℤ}
use lapis_archive_file_servi.Result.{Result-cases, ok}
use lapis_archive_file_servi.Act.{wrap-eq-ok, wrap-state}
use lapis_archive_file_servi.Time.{Time}
use lapis_archive_file_servi.Sort.{sort_by, All-sort_by}
use lapis_archive_file_servi.Domain.{Share}
use lapis_archive_file_servi.Store.{ShareRow, Detail, Tables, Db, statement}
use lapis_archive_file_servi.Store.Shares
use lapis_archive_file_servi.Store.Distinct.{IsDistinct, IsDistinct-SameKey}
use lapis_archive_file_servi.Store.Statements.{statement-ok, statement-either, list_expired-tables}
use lapis_archive_file_servi.Audit.{record_action, insert_audit}
use lapis_archive_file_servi.Worker.Purge.{
  sweep_batch_size, share_snapshot, purge_share, purge_shares, purge_expired_shares,
}

abbrev pub is_past : Time → ShareRow → Bool
is_past now row = ltb_ℤ row.expires_at now

-- the shares that have not expired
abbrev pub live : Time → List ShareRow → List ShareRow
live now = keep_if (λ row. not (is_past now row))

-- every row of this slug has expired
abbrev Gone : Time → List ShareRow → Bytes → Type 0
Gone now rows slug = All (λ (row : ShareRow). row.slug ≡ slug → is_past now row ≡ true) rows

live-delete :
    (now : Time) (slug : Bytes) (rows : List ShareRow)
    → Gone now rows slug
    → live now (keep_if (λ row. not (Shares.has_slug slug row)) rows) ≡ live now rows
unfolding keep_if
live-delete now slug [] h = refl
live-delete now slug (row ∷ rows) h =
    ground (arith, ≟_sound row.slug slug, h.0, live-delete now slug rows h.1)

record_action-shares :
    (action subject : Bytes) (detail : Detail) (db : Db)
    → ((record_action action subject detail db).1.tables.shares ≡ db.tables.shares)
      × ((record_action action subject detail db).1.tables.uploads ≡ db.tables.uploads)
unfolding record_action
record_action-shares action subject detail db = ground (
  arith,
  statement-either (insert_audit (record { action = action; subject = subject; detail = detail }))
      db,
)

-- The tables after a removal: without the rows of the slug, or as they were.
delete_by_slug-either :
    (slug : Bytes) (db : Db)
    → ((Shares.delete_by_slug slug db).1.tables
        ≡ Shares.delete_shares (Shares.has_slug slug) db.tables)
      ⊎ ((Shares.delete_by_slug slug db).1.tables ≡ db.tables)
unfolding Shares.delete_by_slug
delete_by_slug-either slug db =
    ground (arith, statement-either (Shares.delete_all (Shares.has_slug slug)) db)

-- What a run keeps: the live shares, the uploads, and that the listed slugs have expired.
record Spares (now : Time) (before after : Tables) : Type 0 where
  lives : live now after.shares ≡ live now before.shares
  uploads : after.uploads ≡ before.uploads
  gone : (slug : Bytes) → Gone now before.shares slug → Gone now after.shares slug

delete_by_slug-Spares :
    (now : Time) (slug : Bytes) (db : Db)
    → Gone now db.tables.shares slug
    → Spares now db.tables (Shares.delete_by_slug slug db).1.tables
delete_by_slug-Spares now slug db h = elim (delete_by_slug-either slug db) [
  | inr kept ↦ rw kept (record { lives = refl; uploads = refl; gone = λ other g. g })
  | inl ran ↦ rw ran (record {
    lives = live-delete now slug db.tables.shares h;
    uploads = refl;
    gone = λ other g. All-keep_if _ (λ row. not (Shares.has_slug slug row)) db.tables.shares g;
  })
]

purge_share-Spares :
    (now : Time) (s : Share) (db : Db)
    → Gone now db.tables.shares s.slug
    → Spares now db.tables (purge_share s db).tables
unfolding purge_share
purge_share-Spares now s db h =
    let db₁ = (Shares.delete_by_slug s.slug db).1 in
    let spared = delete_by_slug-Spares now s.slug db h in
    let (shares, uploads) =
      record_action-shares (codes "purge_share") s.slug (share_snapshot s) db₁ in
    elim (Result-cases (Shares.delete_by_slug s.slug db).0) [
      | inr (x, failed) ↦ rw (purge_share, failed) spared
      | inl (done, deleted) ↦
          rw (purge_share, deleted)
            (record {
              lives = ap (live now) shares ∙ spared.lives;
              uploads = uploads ∙ spared.uploads;
              gone = λ slug g. subst (λ rows. Gone now rows slug) (sym shares) (spared.gone slug g);
            })
    ]

purge_shares-Spares :
    (now : Time) (list : List Share) (db : Db)
    → All (λ (s : Share). Gone now db.tables.shares s.slug) list
    → Spares now db.tables (purge_shares list db).tables
unfolding purge_shares
purge_shares-Spares now [] db h = record { lives = refl; uploads = refl; gone = λ slug g. g }
purge_shares-Spares now (s ∷ list) db h =
    let first = purge_share-Spares now s db h.0 in
    let rest = purge_shares-Spares now list (purge_share s db) (
      All-imp (λ (t : Share). Gone now db.tables.shares t.slug)
        (λ (t : Share). Gone now (purge_share s db).tables.shares t.slug) (λ t. first.gone t.slug)
        list h.1) in
    record {
      lives = rest.lives ∙ first.lives;
      uploads = rest.uploads ∙ first.uploads;
      gone = λ slug g. rest.gone slug (first.gone slug g);
    }

-- Of the listed shares, every row of their slug has expired, since slugs are distinct.
list_expired-Gone :
    (now : Time) (limit : ℕ) (db : Db) {list : List Share}
    → IsDistinct (λ (row : ShareRow). row.slug) db.tables.shares
    → (Shares.list_expired now limit db).0 ≡ ok list
    → ((Shares.list_expired now limit db).1.tables ≡ db.tables)
      × All (λ (s : Share). Gone now db.tables.shares s.slug) list
unfolding Shares.list_expired Shares.scan_share
list_expired-Gone now limit db {list} d e =
    let q = Shares.select_rows (Shares.expired_rows now limit) in
    let context = codes "list expired: " in
    let (listed, same) = statement-ok q db (wrap-eq-ok context (statement q) db e) in
    let R = λ (row : ShareRow). Gone now db.tables.shares row.slug in
    let rows = sort_by Shares.sooner (keep_if (is_past now) db.tables.shares) in
    let expired =
      All-kept R (is_past now) db.tables.shares
        (IsDistinct-SameKey (λ (row : ShareRow). row.slug) (is_past now) db.tables.shares d) in
    let kept : All R (take limit rows) =
      All-take R limit rows (All-sort_by Shares.sooner R _ expired) in
    (
      ap (λ (x : Db). x.tables) (wrap-state context (statement q) db) ∙ same,
      subst (All (λ (s : Share). Gone now db.tables.shares s.slug)) (inj listed) (
          All-map (λ (s : Share). Gone now db.tables.shares s.slug) Shares.scan_share
            (take limit rows) kept),
    )
  where
    inj : {xs ys : List Share} → ok xs ≡ ok ys → xs ≡ ys
    inj e = cc

-- A purge removes no share that has not expired, and no upload, whatever statement of it is lost on
-- the way, if the slugs are distinct and no other statement comes in between.
pub purge_expired_shares-live :
    (now : Time) (db : Db)
    → IsDistinct (λ (row : ShareRow). row.slug) db.tables.shares
    → let after = (purge_expired_shares now db).1.tables in
      (live now after.shares ≡ live now db.tables.shares) × (after.uploads ≡ db.tables.uploads)
unfolding purge_expired_shares
purge_expired_shares-live now db d =
    elim (Result-cases (Shares.list_expired now sweep_batch_size db).0) [
      | inr (x, failed) ↦ ground (arith, list_expired-tables now sweep_batch_size db)
      | inl (list, got) ↦
          let (same, gone) = list_expired-Gone now sweep_batch_size db d got in
          let db₁ = (Shares.list_expired now sweep_batch_size db).1 in
          let spared = purge_shares-Spares now list db₁ (
            subst (λ (t : Tables). All (λ (s : Share). Gone now t.shares s.slug) list) (sym same)
              gone) in
          rw (purge_expired_shares, got)
            (
              spared.lives ∙ ap (λ (t : Tables). live now t.shares) same,
              spared.uploads ∙ ap (λ (t : Tables). t.uploads) same,
            )
    ]
