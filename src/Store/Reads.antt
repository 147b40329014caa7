-- ===== src/Store/Reads.antt =====
-- What the store reads back after a write.
use lapis_archive_file_servi.Prelude.{
  [], ◌∷◌, ◌++◌, Bytes, codes, Bool, true, ◌||◌, none, some, ◌≟◌, ≟_refl, if◌then◌else◌, map,
  any_of, find_if, ◌≡◌, refl, sym, is_empty, ap, ◌∙◌, arith, Bool-cases, Option-cases, inl, inr,
}
use lapis_archive_file_servi.Result.{Result, ok, err, not_found, failed}
use lapis_archive_file_servi.Act.{wrap, ◌>>=◌, >>=-eq-ok, wrap-eq-ok, wrap-state}
use lapis_archive_file_servi.Time.{to_micros}
use lapis_archive_file_servi.Domain.{Share}
use lapis_archive_file_servi.Store.{
  ShareRow, Tables, Db, statement, nullable, nullable_uuid, is_uuid, checked, or_empty,
}
use lapis_archive_file_servi.Store.Distinct.{
  find_if-append_one, find_if-map, find_if-none, find_if-any_of, any_of-or,
}
use lapis_archive_file_servi.Store.Shares.{
  share_row, scan_share, has_slug, has_key, insert_share, create, rotated_row, update_code,
  rotate_code, found, select_one, get_by_slug, get_by_storage_key,
}
use lapis_archive_file_servi.Store.Statements.{checked-ok, statement-ok, statement_calm}

or_empty-nullable : (s : Bytes) → or_empty (nullable s) ≡ s
or_empty-nullable [] = refl
or_empty-nullable (c ∷ s) = refl

-- what a column of type uuid and the columns of type timestamptz keep of a share
abbrev pub as_stored : Share → Share
as_stored sh = record sh {
  owner_id = or_empty (nullable_uuid sh.owner_id);
  created_at = to_micros sh.created_at;
  expires_at = to_micros sh.expires_at;
}

pub scan_share-share_row : (sh : Share) → scan_share (share_row sh) ≡ as_stored sh
unfolding scan_share share_row
scan_share-share_row sh =
    simp (or_empty-nullable sh.owner_email, or_empty-nullable sh.recipient_email)

pub get_by_slug_calm :
    (slug : Bytes) (db : Db)
    → db.fates ≡ []
    → (get_by_slug slug db).0 ≡ elim (find_if (has_slug slug) db.tables.shares) [
      | none ↦ err not_found
      | some row ↦ ok (scan_share row)
    ]
unfolding get_by_slug
get_by_slug_calm slug db e = ground (arith, statement_calm (select_one (has_slug slug)) db e)

insert_share-ok :
    (row : ShareRow) (t : Tables)
    → (insert_share row t).0 ≡ ok tt
    → (find_if (has_slug row.slug) t.shares ≡ none)
      × ((insert_share row t).1.shares ≡ t.shares ++ row ∷ [])
unfolding insert_share
insert_share-ok row t e =
    elim (Bool-cases (any_of (λ r. has_slug row.slug r || has_key row.storage_key r) t.shares)) [
      | inl taken ↦ ground arith
      | inr new ↦
          let (no_slug, no_key) =
            any_of-or (has_slug row.slug) (has_key row.storage_key) t.shares new in
          (
            find_if-none (has_slug row.slug) t.shares no_slug,
            ap (λ (x : Result (Unit {0}) × Tables). x.1.shares)
                (ap
                  (λ b.
                    if b
                    then (err (failed (codes "duplicate key value violates unique constraint")), t)
                    else (ok tt, record t { shares = t.shares ++ row ∷ [] }))
                  new),
          )
    ]

create-ok :
    (sh : Share) (db : Db)
    → (create sh db).0 ≡ ok tt
    → (find_if (has_slug sh.slug) db.tables.shares ≡ none)
      × ((create sh db).1.tables.shares ≡ db.tables.shares ++ share_row sh ∷ [])
unfolding create share_row
create-ok sh db e =
    let valid = is_empty sh.owner_id || is_uuid sh.owner_id in
    let q = checked valid (insert_share (share_row sh)) in
    let (ran, after) = statement-ok q db (wrap-eq-ok (codes "insert share: ") (statement q) db e) in
    let same = checked-ok valid (insert_share (share_row sh)) db.tables ran in
    let (absent, stored) =
      insert_share-ok (share_row sh) db.tables
        (ap (λ (x : Result (Unit {0}) × Tables). x.0) (sym same) ∙ ran) in
    (
      absent,
      ap (λ (x : Db). x.tables.shares) (wrap-state (codes "insert share: ") (statement q) db)
          ∙ ap (λ (x : Tables). x.shares) after
          ∙ ap (λ (x : Result (Unit {0}) × Tables). x.1.shares) same
          ∙ stored,
    )

own_slug : (sh : Share) → ((share_row sh).slug ≟ sh.slug) ≡ true
unfolding share_row
own_slug sh = ≟_refl sh.slug

-- A share that was created is read back by its slug as its columns keep it, if the connection holds:
-- its two instants rounded down to the microsecond, the id of its owner as the canonical text of the
-- uuid, and all else as it was.
pub get_by_slug-create :
    (sh : Share) (db : Db)
    → (create sh db).0 ≡ ok tt
    → (create sh db).1.fates ≡ []
    → (get_by_slug sh.slug (create sh db).1).0 ≡ ok (as_stored sh)
get_by_slug-create sh db e calm =
    let (absent, stored) = create-ok sh db e in
    rw (get_by_slug_calm sh.slug (create sh db).1 calm, stored)
      (rw
        (
          find_if-append_one (λ (row : ShareRow). row.slug) sh.slug db.tables.shares (share_row sh),
          absent,
          own_slug sh,
        )
        (ap ok (scan_share-share_row sh)))

-- the tables as they are, with a connection that holds
abbrev pub calmed : Db → Db
calmed db = record { tables = db.tables; fates = [] }

-- what a rotation stores of the share that it is given
abbrev pub renewed : Share → Share → Share
renewed sh old =
    if old.slug ≟ sh.slug
    then record old {
      code_hash = sh.code_hash;
      code_salt = sh.code_salt;
      expires_at = to_micros sh.expires_at;
      share_count = sh.share_count;
      recipient_email = sh.recipient_email;
    }
    else old

scan_share-rotated_row :
    (sh : Share) (row : ShareRow) → scan_share (rotated_row sh row) ≡ renewed sh (scan_share row)
unfolding scan_share
scan_share-rotated_row sh row = ground (arith, or_empty-nullable sh.recipient_email)

rotate_code-ok :
    (sh : Share) (db : Db)
    → (rotate_code sh db).0 ≡ ok tt
    → (any_of (has_slug sh.slug) db.tables.shares ≡ true)
      × ((rotate_code sh db).1.tables.shares ≡ map (rotated_row sh) db.tables.shares)
unfolding rotate_code update_code
rotate_code-ok sh db e = ground (arith, statement-ok (update_code sh) db {a = true})

-- After a rotation that was stored, every slug is read as before, but that the share of this slug
-- has the new hash, salt, count and recipient, and the new expiry rounded down to the microsecond,
-- if the connection holds; no owner, file or other share changes.
pub get_by_slug-rotate_code :
    (sh : Share) (db : Db) (slug : Bytes)
    → (rotate_code sh db).0 ≡ ok tt
    → (rotate_code sh db).1.fates ≡ []
    → (get_by_slug slug (rotate_code sh db).1).0
      ≡ elim (get_by_slug slug (calmed db)).0 [ err e ↦ err e | ok old ↦ ok (renewed sh old) ]
get_by_slug-rotate_code sh db slug e calm =
    let (hit, stored) = rotate_code-ok sh db e in
    rw
      (
        get_by_slug_calm slug (rotate_code sh db).1 calm,
        get_by_slug_calm slug (calmed db) refl,
        stored,
        find_if-map (λ (row : ShareRow). row.slug) (rotated_row sh) (λ r. ground arith) slug
            db.tables.shares,
      )
      (elim (Option-cases (find_if (has_slug slug) db.tables.shares)) [
        | inl none_there ↦ rw none_there refl
        | inr (row, there) ↦ rw there (ap ok (scan_share-rotated_row sh row))
      ])

selected :
    (context : Bytes) (p : ShareRow → Bool) (db : Db) {s : Share}
    → (◌>>=◌ (wrap context (statement (select_one p))) found db).0 ≡ ok s
    → (row : ShareRow) × (find_if p db.tables.shares ≡ some row) × (s ≡ scan_share row)
selected context p db {s} e =
    let (row, ran, rest) = >>=-eq-ok (wrap context (statement (select_one p))) found db e in
    let (asked, same) =
      statement-ok (select_one p) db (wrap-eq-ok context (statement (select_one p)) db ran) in
    elim (Option-cases row) [
      | inl absent ↦ ground arith
      | inr (r, there) ↦ (r, ground arith, ground arith)
    ]

-- A share that was read is a row of the table.
pub get_by_slug-ok :
    (slug : Bytes) (db : Db) {s : Share}
    → (get_by_slug slug db).0 ≡ ok s
    → (row : ShareRow) × (find_if (has_slug slug) db.tables.shares ≡ some row)
      × (s ≡ scan_share row)
unfolding get_by_slug
get_by_slug-ok slug db e = selected (codes "get share: ") (has_slug slug) db e

pub get_by_storage_key-ok :
    (key : Bytes) (db : Db) {s : Share}
    → (get_by_storage_key key db).0 ≡ ok s
    → (row : ShareRow) × (find_if (has_key key) db.tables.shares ≡ some row) × (s ≡ scan_share row)
unfolding get_by_storage_key
get_by_storage_key-ok key db e = selected (codes "get share by key: ") (has_key key) db e

-- After a rotation that was stored, the share of this slug is there with what was stored.
pub get_by_slug-rotated :
    (sh : Share) (db : Db)
    → (rotate_code sh db).0 ≡ ok tt
    → (rotate_code sh db).1.fates ≡ []
    → (old : Share) × ((get_by_slug sh.slug (rotate_code sh db).1).0 ≡ ok (renewed sh old))
      × ((old.slug ≟ sh.slug) ≡ true)
unfolding scan_share
get_by_slug-rotated sh db e calm =
    let (hit, stored) = rotate_code-ok sh db e in
    let (row, there, same) = find_if-any_of (has_slug sh.slug) db.tables.shares hit in
    (
      scan_share row,
      rw
          (
            get_by_slug-rotate_code sh db sh.slug e calm,
            get_by_slug_calm sh.slug (calmed db) refl,
            there,
          )
          refl,
      same,
    )
