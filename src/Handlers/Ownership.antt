-- ===== src/Handlers/Ownership.antt =====
-- `CreateShare` and `RevokeShare` of internal/handlers/share.go: who may change a share.
use lapis_archive_file_servi.Prelude.{
  ◌⊎◌, ◌∙◌, sym, ap, [], ◌∷◌, List, Bytes, Bool, true, false, not, Option, none, some, ◌≟◌, ≟_sound,
  keep_if, any_of, ◌≡◌, ◌≢◌, refl, arith, Bool-cases, inl, inr,
}
use lapis_archive_file_servi.Result.{Result, ok}
use lapis_archive_file_servi.Time.{Duration}
use lapis_archive_file_servi.Domain.{Share, User}
use lapis_archive_file_servi.Store.{ShareRow, Tables, Db, is_uuid, checked, statement}
use lapis_archive_file_servi.Store.Shares
use lapis_archive_file_servi.Store.Statements.{
  checked-ok, checked-either, get_by_storage_key-tables, statement-ok, statement-either,
}
use lapis_archive_file_servi.Handlers.World.{
  World, success, UploadLookup, Storage, db_shares, on_db,
}
use lapis_archive_file_servi.Handlers.Reshare.{
  CreateShare, Created, may_rotate, forbidden, rotate_share, share_file, create_share,
}
use lapis_archive_file_servi.Handlers.Share.{revoke_share}

-- The request carries a verified token of this user.
abbrev pub IsSignedIn : Option User → Bytes → Type 0
IsSignedIn user id = (u : User) × (user ≡ some u) × (u.id ≡ id)

may_rotate_owned :
    (user : Option User) (owner : Bytes)
    → owner ≢ []
    → ¬ IsSignedIn user owner
    → may_rotate user owner ≡ false
may_rotate_owned none [] owned other = absurd (owned refl)
may_rotate_owned none (c ∷ owner) owned other = refl
may_rotate_owned (some user) [] owned other = absurd (owned refl)
may_rotate_owned (some user) (c ∷ owner) owned other = elim (Bool-cases (user.id ≟ (c ∷ owner))) [
  | inl same ↦ absurd (other (user, refl, ≟_sound user.id (c ∷ owner) same))
  | inr differ ↦ differ
]

module _ {O : Type 0} (sha256 : Bytes → Bytes) (uploads : Option UploadLookup)
    (anon_ttl owned_ttl : Duration) (files : Storage O) where
  share_file_owned :
      (user : Option User) (req : CreateShare) (w : World O) (s : Share)
      → (Shares.get_by_storage_key req.storage_key w.db).0 ≡ ok s
      → may_rotate user s.owner_id ≡ false
      → share_file db_shares uploads anon_ttl owned_ttl sha256 files user req w
        ≡ (forbidden, (on_db (Shares.get_by_storage_key req.storage_key) w).1)
  unfolding share_file rotate_share
  share_file_owned user req w s got may_not = rw (share_file, got, rotate_share, may_not) refl

-- A file whose share is owned is not shared again by anyone else, signed in or not: whatever the
-- request, no code is given out and no table changes.
pub create_share_owned :
    {O : Type 0} (sha256 : Bytes → Bytes) (uploads : Option UploadLookup)
    (anon_ttl owned_ttl : Duration) (files : Storage O) (user : Option User) (req : CreateShare)
    (w : World O) (s : Share)
    → (Shares.get_by_storage_key req.storage_key w.db).0 ≡ ok s
    → s.owner_id ≢ []
    → ¬ IsSignedIn user s.owner_id
    → let after =
        create_share db_shares uploads anon_ttl owned_ttl sha256 files user (some req) w in
      ((c : Created) → ¬ (after.0 ≡ success c)) × (after.1.db.tables ≡ w.db.tables)
unfolding create_share
create_share_owned sha256 uploads anon_ttl owned_ttl files user req w s got owned other =
    let may_not = may_rotate_owned user s.owner_id owned other in
    let fails = share_file_owned sha256 uploads anon_ttl owned_ttl files user req w s got may_not in
    (
      λ c. ground (arith, fails),
      ground (arith, fails, get_by_storage_key-tables req.storage_key w.db),
    )

-- the shares that somebody else owns, or nobody
abbrev pub others : Bytes → List ShareRow → List ShareRow
others id = keep_if (λ (row : ShareRow). not (Shares.has_owner id row))

others-delete :
    (slug id : Bytes) (rows : List ShareRow)
    → others id (keep_if (λ row. not (Shares.is_owned slug id row)) rows) ≡ others id rows
unfolding keep_if
others-delete slug id [] = refl
others-delete slug id (row ∷ rows) = ground (arith, others-delete slug id rows)

none_left :
    (p : ShareRow → Bool) (rows : List ShareRow)
    → any_of p (keep_if (λ row. not (p row)) rows) ≡ false
unfolding keep_if any_of
none_left p [] = refl
none_left p (row ∷ rows) = ground (arith, none_left p rows)

abbrev delete_hits : Bytes → Bytes → Tables → Result Bool × Tables
delete_hits slug id = Shares.delete_found (Shares.is_owned slug id)

abbrev delete_query : Bytes → Bytes → Tables → Result Bool × Tables
delete_query slug id = checked (is_uuid id) (delete_hits slug id)

-- the tables are those after the deletion, or as they were
delete_query-either :
    (slug id : Bytes) (db : Db)
    → ((statement (delete_query slug id) db).1.tables ≡ (delete_hits slug id db.tables).1)
      ⊎ ((statement (delete_query slug id) db).1.tables ≡ db.tables)
delete_query-either slug id db = elim (statement-either (delete_query slug id) db) [
  | inr not_run ↦ inr not_run
  | inl ran ↦ elim (checked-either (is_uuid id) (delete_hits slug id) db.tables) [
    | inl hits ↦ inl (ran ∙ hits)
    | inr refused ↦ inr (ran ∙ refused)
  ]
]

delete-state :
    (slug id : Bytes) (db : Db)
    → (Shares.delete slug id db).1 ≡ (statement (delete_query slug id) db).1
unfolding Shares.delete
delete-state slug id db = ground arith

delete-ok :
    (slug id : Bytes) (db : Db)
    → (Shares.delete slug id db).0 ≡ ok tt
    → (statement (delete_query slug id) db).0 ≡ ok true
unfolding Shares.delete
delete-ok slug id db e = ground arith

delete-others :
    (slug id : Bytes) (db : Db)
    → let after = (Shares.delete slug id db).1.tables in
      (others id after.shares ≡ others id db.tables.shares)
      × (after.uploads ≡ db.tables.uploads)
      × ((Shares.delete slug id db).0 ≡ ok tt
          → (any_of (Shares.is_owned slug id) db.tables.shares ≡ true)
            × (any_of (Shares.is_owned slug id) after.shares ≡ false))
delete-others slug id db =
    let q = delete_query slug id in
    rw (delete-state slug id db) (
      elim (delete_query-either slug id db) [
        | inl ran ↦ rw ran (others-delete slug id db.tables.shares)
        | inr not_run ↦ rw not_run refl
      ],
      elim (delete_query-either slug id db) [
        | inl ran ↦ rw ran refl
        | inr not_run ↦ rw not_run refl
      ],
      λ e.
          let (hit, after) = statement-ok q db (delete-ok slug id db e) in
          let same = checked-ok (is_uuid id) (delete_hits slug id) db.tables hit in
          (
            ground (arith, ap (λ (x : Result Bool × Tables). x.0) (sym same) ∙ hit),
            rw (after, same) (none_left (Shares.is_owned slug id) db.tables.shares),
          ),
    )

-- A revocation, successful or not, leaves every share that the caller does not own as it was, and
-- the uploads too. One that is reported done found a share of this slug that the caller owned, and
-- no such share is left.
pub revoke_share-others :
    {O : Type 0} (user : User) (slug : Bytes) (w : World O)
    → let after = (revoke_share db_shares (some user) slug w).1.db.tables in
      (others user.id after.shares ≡ others user.id w.db.tables.shares)
      × (after.uploads ≡ w.db.tables.uploads)
      × ((revoke_share db_shares (some user) slug w).0 ≡ success slug
          → (any_of (Shares.is_owned slug user.id) w.db.tables.shares ≡ true)
            × (any_of (Shares.is_owned slug user.id) after.shares ≡ false))
unfolding revoke_share
revoke_share-others user slug w = ground (arith, delete-others slug user.id w.db)
