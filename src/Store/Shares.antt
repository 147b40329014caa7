-- ===== src/Store/Shares.antt =====
-- internal/store/store.go
use lapis_archive_file_servi.Prelude.{
  ℕ, [], ◌∷◌, ◌++◌, List, Bytes, codes, Bool, true, false, not, ◌&&◌, ◌||◌, Option, none, some, ◌≟◌,
  if◌then◌else◌, map, take, keep_if, any_of, find_if, is_empty,
}
use lapis_archive_file_servi.Prelude.Int.{ltb_ℤ}
use lapis_archive_file_servi.Result.{Result, ok, err, not_found, failed}
use lapis_archive_file_servi.Act.{Act, pure, raise, wrap, ◌>>=◌}
use lapis_archive_file_servi.Time.{Time, to_micros}
use lapis_archive_file_servi.Uuid.{canonical}
use lapis_archive_file_servi.Sort.{sort_by}
use lapis_archive_file_servi.Domain.{Share}
use lapis_archive_file_servi.Store.{
  ShareRow, Tables, Db, statement, nullable, nullable_uuid, is_uuid, checked, or_empty,
}

-- the values of the insert, and `scanShare`
unfoldable pub share_row : Share → ShareRow
share_row sh = record {
  slug = sh.slug;
  owner_id = nullable_uuid sh.owner_id;
  owner_email = nullable sh.owner_email;
  recipient_email = nullable sh.recipient_email;
  storage_key = sh.storage_key;
  file_name = sh.file_name;
  file_size = sh.file_size;
  code_hash = sh.code_hash;
  code_salt = sh.code_salt;
  share_count = sh.share_count;
  created_at = to_micros sh.created_at;
  expires_at = to_micros sh.expires_at;
}

unfoldable pub scan_share : ShareRow → Share
scan_share row = record {
  slug = row.slug;
  storage_key = row.storage_key;
  file_name = row.file_name;
  file_size = row.file_size;
  owner_id = or_empty row.owner_id;
  owner_email = or_empty row.owner_email;
  recipient_email = or_empty row.recipient_email;
  code_salt = row.code_salt;
  code_hash = row.code_hash;
  share_count = row.share_count;
  created_at = row.created_at;
  expires_at = row.expires_at;
}

abbrev pub has_slug : Bytes → ShareRow → Bool
has_slug slug row = row.slug ≟ slug

abbrev pub has_key : Bytes → ShareRow → Bool
has_key key row = row.storage_key ≟ key

-- `owner_id = $1`, which is not true of NULL
abbrev pub same_uuid : Option Bytes → Option Bytes → Bool
same_uuid (some owner) (some id) = id ≟ owner
same_uuid (some owner) none = false
same_uuid none id = false

abbrev pub has_owner : Bytes → ShareRow → Bool
has_owner owner row = same_uuid (canonical owner) row.owner_id

-- insert into shares: `slug` and `storage_key` are unique
unfoldable pub insert_share : ShareRow → Tables → Result (Unit {0}) × Tables
insert_share row t =
    if any_of (λ r. has_slug row.slug r || has_key row.storage_key r) t.shares
    then (err (failed (codes "duplicate key value violates unique constraint")), t)
    else (ok tt, record t { shares = t.shares ++ row ∷ [] })

unfoldable pub create : Share → Act Db (Unit {0})
unfolding insert_share share_row
create sh = wrap (codes "insert share: ") (
    statement (checked (is_empty sh.owner_id || is_uuid sh.owner_id) (insert_share (share_row sh))))

-- one row of `update shares set … where slug = $6`
abbrev pub rotated_row : Share → ShareRow → ShareRow
rotated_row sh row =
    if has_slug sh.slug row
    then record row {
      code_hash = sh.code_hash;
      code_salt = sh.code_salt;
      expires_at = to_micros sh.expires_at;
      share_count = sh.share_count;
      recipient_email = nullable sh.recipient_email;
    }
    else row

-- the result is whether a row was affected
unfoldable pub update_code : Share → Tables → Result Bool × Tables
update_code sh t =
    (ok (any_of (has_slug sh.slug) t.shares), record t { shares = map (rotated_row sh) t.shares })

abbrev pub affected : Bool → Act Db (Unit {0})
affected true = pure tt
affected false = raise not_found

unfoldable pub rotate_code : Share → Act Db (Unit {0})
unfolding update_code
rotate_code sh = do hit ← wrap (codes "rotate share: ") (statement (update_code sh)); affected hit

abbrev pub found : Option ShareRow → Act Db Share
found none = raise not_found
found (some row) = pure (scan_share row)

abbrev pub select_one : (ShareRow → Bool) → Tables → Result (Option ShareRow) × Tables
select_one p t = (ok (find_if p t.shares), t)

unfoldable pub get_by_slug : Bytes → Act Db Share
unfolding scan_share
get_by_slug slug = do
  row ← wrap (codes "get share: ") (statement (select_one (has_slug slug)))
  found row

unfoldable pub get_by_storage_key : Bytes → Act Db Share
unfolding scan_share
get_by_storage_key key = do
  row ← wrap (codes "get share by key: ") (statement (select_one (has_key key)))
  found row

-- `order by created_at desc`
abbrev pub newer : ShareRow → ShareRow → Bool
newer a b = ltb_ℤ b.created_at a.created_at

-- `order by expires_at asc`
abbrev pub sooner : ShareRow → ShareRow → Bool
sooner a b = ltb_ℤ a.expires_at b.expires_at

-- a `select` of many rows, scanned
abbrev pub select_rows : (List ShareRow → List ShareRow) → Tables → Result (List Share) × Tables
select_rows pick t = (ok (map scan_share (pick t.shares)), t)

abbrev pub owned_rows : Bytes → List ShareRow → List ShareRow
owned_rows owner rows = sort_by newer (keep_if (has_owner owner) rows)

abbrev pub expired_rows : Time → ℕ → List ShareRow → List ShareRow
expired_rows now limit rows =
    take limit (sort_by sooner (keep_if (λ (row : ShareRow). ltb_ℤ row.expires_at now) rows))

unfoldable pub list_by_owner : Bytes → Act Db (List Share)
unfolding scan_share
list_by_owner owner =
    wrap (codes "list shares: ")
      (statement (checked (is_uuid owner) (select_rows (owned_rows owner))))

-- `now()` is the clock of the database.
unfoldable pub list_expired : Time → ℕ → Act Db (List Share)
unfolding scan_share
list_expired now limit =
    wrap (codes "list expired: ") (statement (select_rows (expired_rows now limit)))

-- `delete from shares where …`
abbrev pub delete_shares : (ShareRow → Bool) → Tables → Tables
delete_shares p t = record t { shares = keep_if (λ row. not (p row)) t.shares }

abbrev pub delete_all : (ShareRow → Bool) → Tables → Result (Unit {0}) × Tables
delete_all p t = (ok tt, delete_shares p t)

unfoldable pub delete_by_slug : Bytes → Act Db (Unit {0})
delete_by_slug slug = wrap (codes "delete share: ") (statement (delete_all (has_slug slug)))

-- `returning slug`
abbrev pub delete_returning : (ShareRow → Bool) → Tables → Result (List Bytes) × Tables
delete_returning p t =
    (ok (map (λ (row : ShareRow). row.slug) (keep_if p t.shares)), delete_shares p t)

unfoldable pub delete_by_storage_key : Bytes → Act Db (List Bytes)
delete_by_storage_key key =
    wrap (codes "delete shares by key: ") (statement (delete_returning (has_key key)))

abbrev pub is_owned : Bytes → Bytes → ShareRow → Bool
is_owned slug owner row = has_slug slug row && has_owner owner row

abbrev pub delete_found : (ShareRow → Bool) → Tables → Result Bool × Tables
delete_found p t = (ok (any_of p t.shares), delete_shares p t)

unfoldable pub delete : Bytes → Bytes → Act Db (Unit {0})
delete slug owner = do
  hit ←
      wrap (codes "delete share: ")
        (statement (checked (is_uuid owner) (delete_found (is_owned slug owner))))
  affected hit
