-- ===== src/Store/Statements.antt =====
-- What a statement can do to the tables: run, or not run.
use lapis_archive_file_servi.Prelude.{
  ℕ, [], ◌∷◌, List, Bytes, codes, map, find_if, Bool, true, false, ◌≡◌, ◌∙◌, refl, ap, arith, inl,
  inr, ◌⊎◌,
}
use lapis_archive_file_servi.Result.{Result, ok}
use lapis_archive_file_servi.Act.{wrap-state}
use lapis_archive_file_servi.Store.{
  Tables, is_uuid, checked, Fate, answered, lost, unacknowledged, Db, run_fated, statement,
}
use lapis_archive_file_servi.Store.Uploads
use lapis_archive_file_servi.Time.{Time}
use lapis_archive_file_servi.Store.Shares.{
  scan_share, has_slug, has_key, get_by_slug, get_by_storage_key, list_by_owner, owned_rows,
  select_rows, list_expired, expired_rows,
}

-- A statement that returned a value ran on the tables.
pub statement-ok :
    {A : Type 0} (q : Tables → Result A × Tables) (db : Db) {a : A}
    → (statement q db).0 ≡ ok a
    → ((q db.tables).0 ≡ ok a) × ((statement q db).1.tables ≡ (q db.tables).1)
unfolding statement
statement-ok q db {a} e = by_fate db.fates e
  where
    by_fate :
        (fates : List Fate)
        → (run_fated q db.tables fates).0 ≡ ok a
        → ((q db.tables).0 ≡ ok a) × ((run_fated q db.tables fates).1.tables ≡ (q db.tables).1)
    by_fate [] e = (e, refl)
    by_fate (answered ∷ fates) e = (e, refl)
    by_fate (lost x ∷ fates) e = cc
    by_fate (unacknowledged x ∷ fates) e = cc

-- A statement runs or does not run, whatever it returns.
pub statement-either :
    {A : Type 0} (q : Tables → Result A × Tables) (db : Db)
    → ((statement q db).1.tables ≡ (q db.tables).1) ⊎ ((statement q db).1.tables ≡ db.tables)
unfolding statement
statement-either q db = by_fate db.fates
  where
    by_fate :
        (fates : List Fate)
        → ((run_fated q db.tables fates).1.tables ≡ (q db.tables).1)
          ⊎ ((run_fated q db.tables fates).1.tables ≡ db.tables)
    by_fate [] = inl refl
    by_fate (answered ∷ fates) = inl refl
    by_fate (lost x ∷ fates) = inr refl
    by_fate (unacknowledged x ∷ fates) = inl refl

-- A statement that the connection does not touch.
pub statement_calm :
    {A : Type 0} (q : Tables → Result A × Tables) (db : Db)
    → db.fates ≡ []
    → statement q db ≡ ((q db.tables).0, record { tables = (q db.tables).1; fates = [] })
unfolding statement run_fated
statement_calm q db e = ap (run_fated q db.tables) e

-- A query that reads leaves the tables as they are, even if it is lost.
pub statement-tables :
    {A : Type 0} (q : Tables → Result A) (db : Db)
    → (statement (λ t. (q t, t)) db).1.tables ≡ db.tables
unfolding statement
statement-tables q db = by_fate db.fates
  where
    by_fate : (fates : List Fate) → (run_fated (λ t. (q t, t)) db.tables fates).1.tables ≡ db.tables
    by_fate [] = refl
    by_fate (answered ∷ fates) = refl
    by_fate (lost x ∷ fates) = refl
    by_fate (unacknowledged x ∷ fates) = refl

checked-same :
    {A : Type 0} (valid : Bool) (q : Tables → Result A × Tables)
    → ((t : Tables) → (q t).1 ≡ t)
    → (t : Tables) → (checked valid q t).1 ≡ t
checked-same true q same t = same t
checked-same false q same t = refl

-- A checked query that returned a value had a valid parameter.
pub checked-ok :
    {A : Type 0} (valid : Bool) (q : Tables → Result A × Tables) (t : Tables) {a : A}
    → (checked valid q t).0 ≡ ok a
    → checked valid q t ≡ q t
checked-ok true q t e = refl
checked-ok false q t e = cc

-- A checked query that is refused leaves the tables as they are.
pub checked-either :
    {A : Type 0} (valid : Bool) (q : Tables → Result A × Tables) (t : Tables)
    → ((checked valid q t).1 ≡ (q t).1) ⊎ ((checked valid q t).1 ≡ t)
checked-either true q t = inl refl
checked-either false q t = inr refl

pub get_by_slug-tables : (slug : Bytes) (db : Db) → (get_by_slug slug db).1.tables ≡ db.tables
unfolding get_by_slug
get_by_slug-tables slug db =
    ground (arith, statement-tables (λ t. ok (find_if (has_slug slug) t.shares)) db)

pub get_by_storage_key-tables :
    (key : Bytes) (db : Db) → (get_by_storage_key key db).1.tables ≡ db.tables
unfolding get_by_storage_key
get_by_storage_key-tables key db =
    ground (arith, statement-tables (λ t. ok (find_if (has_key key) t.shares)) db)

pub list_by_owner-tables : (owner : Bytes) (db : Db) → (list_by_owner owner db).1.tables ≡ db.tables
unfolding list_by_owner
list_by_owner-tables owner db =
    let q = select_rows (owned_rows owner) in
    ap (λ (x : Db). x.tables)
      (wrap-state (codes "list shares: ") (statement (checked (is_uuid owner) q)) db)
    ∙ (elim (statement-either (checked (is_uuid owner) q) db) [
      | inl ran ↦ ran ∙ checked-same (is_uuid owner) q (λ t. refl) db.tables
      | inr not_run ↦ not_run
    ])

pub upload_get-tables :
    (key : Bytes) (db : Db) → (Uploads.get_by_storage_key key db).1.tables ≡ db.tables
unfolding Uploads.get_by_storage_key
upload_get-tables key db =
    ground (arith, statement-tables (λ t. ok (find_if (Uploads.has_key key) t.uploads)) db)

pub list_expired-tables :
    (now : Time) (limit : ℕ) (db : Db) → (list_expired now limit db).1.tables ≡ db.tables
unfolding list_expired
list_expired-tables now limit db =
    ground (arith, statement-tables (λ t. ok (map scan_share (expired_rows now limit t.shares))) db)
