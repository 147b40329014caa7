-- ===== src/Migrate.antt =====
-- internal/migrate/migrate.go: the embedded SQL files, applied once each and in order. The schema is a
-- state of any type, on which Postgres executes the text of a file; the embedded files are what
-- db/embed.go has. A connection may lose any statement, or run it and lose the answer.
pub mod Statements
pub mod Transaction
pub mod Progress
pub mod Order
pub mod Again
use lapis_archive_file_servi.Prelude.{
  [], ◌∷◌, ◌++◌, List, Bytes, codes, Bool, true, false, not, ◌&&◌, ◌||◌, Option, none, some, ltb,
  ◌==◌, ◌≟◌, if◌then◌else◌, keep_if, any_of, map,
}
use lapis_archive_file_servi.Result.{Error, Result, ok, err, failed, wrapped}
use lapis_archive_file_servi.Act.{Act, wrap, pure, raise, ◌>>=◌, ◌>>◌}
use lapis_archive_file_servi.Sort.{sort_by}
use lapis_archive_file_servi.Store.{Fate, answered, lost, unacknowledged}

-- `fs.DirEntry`
pub record Entry : Type 0 where
  pub name : Bytes
  pub is_dir : Bool

-- `db.Migrations`: its directory, and the text of a file below it
pub record Embedded : Type 0 where
  pub read_dir : Result (List Entry)
  pub read_file : Bytes → Result Bytes

-- `versions` is the table `schema_migrations`, if there is one.
pub record Catalog (S : Type 0) : Type 0 where
  pub schema : S
  pub versions : Option (List Bytes)
  pub locked : Bool

pub record Conn (S : Type 0) : Type 0 where
  pub catalog : Catalog S
  pub fates : List Fate

abbrev pub versions_of : Option (List Bytes) → List Bytes
versions_of none = []
versions_of (some vs) = vs

module _ {S A : Type 0} where
  unfoldable pub send_fated :
      (Catalog S → Result A × Catalog S) → Catalog S → List Fate → Result A × Conn S
  send_fated q c [] = ((q c).0, record { catalog = (q c).1; fates = [] })
  send_fated q c (answered ∷ fates) = ((q c).0, record { catalog = (q c).1; fates = fates })
  send_fated q c (lost e ∷ fates) = (err (failed e), record { catalog = c; fates = fates })
  send_fated q c (unacknowledged e ∷ fates) =
      (err (failed e), record { catalog = (q c).1; fates = fates })

  -- `conn.Exec`, `conn.Query`, `conn.Begin` and the like
  unfoldable pub send : (Catalog S → Result A × Catalog S) → Act (Conn S) A
  unfolding send_fated
  send q conn = send_fated q conn.catalog conn.fates

-- `strings.HasSuffix`
unfoldable pub has_suffix : Bytes → Bytes → Bool
has_suffix [] suffix = [] ≟ suffix
has_suffix (c ∷ s) suffix = let rest = has_suffix s suffix in (c ∷ s ≟ suffix) || rest

-- `a < b` on strings
unfoldable pub less : Bytes → Bytes → Bool
less a [] = false
less [] (d ∷ t) = true
less (c ∷ s) (d ∷ t) = let rest = less s t in if ltb c d then true else ((c == d) && rest)

abbrev pub is_migration : Entry → Bool
is_migration e = not e.is_dir && has_suffix e.name (codes ".sql")

unfoldable pub names_of : List Entry → List Bytes
names_of entries = map (λ (e : Entry). e.name) (keep_if is_migration entries)

-- `migrationFiles`
unfoldable pub migration_files : Embedded → Result (List Bytes)
unfolding names_of
migration_files fs = elim fs.read_dir [
  | err e ↦ err (wrapped (codes "read migrations dir: ") e)
  | ok entries ↦ ok (sort_by less (names_of entries))
]

-- `applied[name]`
abbrev pub is_applied : List Bytes → Bytes → Bool
is_applied applied name = any_of (λ v. v ≟ name) applied

module _ {S : Type 0} where
  -- a call that the state of the database does not depend on
  abbrev pub ask : Act (Conn S) (Unit {0})
  ask = send (λ c. (ok tt, c))

  abbrev pub set_locked : Bool → Catalog S → Result (Unit {0}) × Catalog S
  set_locked held c = (ok tt, record c { locked = held })

  -- `create table if not exists schema_migrations`
  abbrev pub ensure_versions : Catalog S → Result (Unit {0}) × Catalog S
  ensure_versions c = (ok tt, record c { versions = some (versions_of c.versions) })

  abbrev pub select_versions : Catalog S → Result (List Bytes) × Catalog S
  select_versions c = (ok (versions_of c.versions), c)

  -- a statement of a transaction, which is rolled back if it fails
  unfoldable pub or_rollback : {A : Type 0} → Act (Conn S) A → Act (Conn S) A
  or_rollback m conn =
      let (r, conn₁) = m conn in elim r [ ok a ↦ (ok a, conn₁) | err e ↦ (err e, (ask conn₁).1) ]

  -- `insert into schema_migrations`, refused if the version is there; nothing is written before the
  -- transaction commits
  abbrev pub check_version : Bytes → Catalog S → Result (Unit {0}) × Catalog S
  check_version name c =
      if is_applied (versions_of c.versions) name
      then (err (failed (codes "duplicate key value violates unique constraint")), c)
      else (ok tt, c)

  abbrev pub commit : S → Bytes → Catalog S → Result (Unit {0}) × Catalog S
  commit schema name c =
      (ok tt, record c { schema = schema; versions = some (versions_of c.versions ++ name ∷ []) })

  -- the end of the transaction of a file
  unfoldable pub finish : Bytes → S → Act (Conn S) (Unit {0})
  finish name schema = do
    wrap (codes "record " ++ (name ++ codes ": ")) (or_rollback (send (check_version name)))
    wrap (codes "commit " ++ (name ++ codes ": ")) (send (commit schema name))

  -- the deferred `pg_advisory_unlock`, whose failure is ignored
  abbrev pub unlocking : Act (Conn S) (Unit {0}) → Act (Conn S) (Unit {0})
  unlocking m conn = let (r, conn₁) = m conn in (r, (send (set_locked false) conn₁).1)

  module _ (fs : Embedded) (exec : Bytes → S → Result S) where
    -- what the text of the file makes of the schema, seen inside the transaction only
    abbrev pub exec_file : Bytes → Catalog S → Result S × Catalog S
    exec_file sql c = (exec sql c.schema, c)

    unfoldable pub transact : Bytes → Bytes → Act (Conn S) (Unit {0})
    transact name sql = do
      wrap (codes "begin " ++ (name ++ codes ": ")) ask
      schema ← wrap (codes "apply " ++ (name ++ codes ": ")) (or_rollback (send (exec_file sql)))
      finish name schema

    -- one round of the loop, for a file that is not applied
    unfoldable pub apply_one : Bytes → Act (Conn S) (Unit {0})
    apply_one name conn = elim (fs.read_file name) [
      | err e ↦ (err (wrapped (codes "read " ++ (name ++ codes ": ")) e), conn)
      | ok sql ↦ transact name sql conn
    ]

    unfoldable pub apply_pending : List Bytes → List Bytes → Act (Conn S) (Unit {0})
    apply_pending applied [] conn = (ok tt, conn)
    apply_pending applied (name ∷ files) conn =
        let skipped = apply_pending applied files conn in
        let next = (apply_one name >> apply_pending applied files) conn in
        if is_applied applied name then skipped else next

    -- what `Run` does while it holds the lock
    unfoldable pub run_locked : Act (Conn S) (Unit {0})
    run_locked = do
      wrap (codes "ensure schema_migrations: ") (send ensure_versions)
      applied ← wrap (codes "read applied migrations: ") (send select_versions)
      files ← λ conn. (migration_files fs, conn)
      apply_pending applied files

    unfoldable pub run : Act (Conn S) (Unit {0})
    run = do
      wrap (codes "acquire connection: ") ask
      wrap (codes "acquire migration lock: ") (send (set_locked true))
      unlocking run_locked
