-- ===== src/Tests/Migrate.antt =====
-- internal/migrate/migrate.go with two files, one of which is recorded already; the schema is the list
-- of the texts that were executed.
use lapis_archive_file_servi.Prelude.{
  [], ◌∷◌, ◌++◌, List, Bytes, codes, false, none, keep_if, any_of, ◌≟◌, ◌≡◌, refl,
}
use lapis_archive_file_servi.Result.{Result, ok}
use lapis_archive_file_servi.Sort.{IsSortedBy, sort_by, insert_by}
use lapis_archive_file_servi.Store.{answered, lost, unacknowledged}
use lapis_archive_file_servi.Migrate.{
  Embedded, Conn, less, send, or_rollback, finish, transact, apply_one, apply_pending,
  migration_files, has_suffix, run_locked, run,
}
use lapis_archive_file_servi.Migrate.Transaction.{view}
use lapis_archive_file_servi.Migrate.Progress.{Progress, due}
use lapis_archive_file_servi.Migrate.Order.{run_in_order}
use lapis_archive_file_servi.Migrate.Again.{run_again}

abbrev pub embedded : Embedded
embedded = record {
  read_dir = ok (
      record { name = codes "0002.sql"; is_dir = false }
      ∷ record { name = codes "README"; is_dir = false }
      ∷ record { name = codes "0001.sql"; is_dir = false }
      ∷ []);
  read_file = λ name. ok name;
}

abbrev pub exec : Bytes → List Bytes → Result (List Bytes)
exec sql texts = ok (texts ++ sql ∷ [])

abbrev pub fresh : Conn (List Bytes)
fresh = record { catalog = record { schema = []; versions = none; locked = false }; fates = [] }

-- after the first file, the answer of whose commit was lost
abbrev broken : Conn (List Bytes)
broken = record fresh {
  fates =
      answered
      ∷ answered
      ∷ answered
      ∷ answered
      ∷ answered
      ∷ answered
      ∷ answered
      ∷ unacknowledged (codes "broken pipe")
      ∷ [];
}

after_fresh :
    view (run embedded exec fresh).1.catalog
    ≡ (codes "0001.sql" ∷ codes "0002.sql" ∷ [], codes "0001.sql" ∷ codes "0002.sql" ∷ [])
unfolding run send run_locked migration_files apply_pending sort_by keep_if has_suffix ◌≟◌ insert_by
    less any_of apply_one transact or_rollback finish
after_fresh = refl

after_broken :
    view (run embedded exec broken).1.catalog ≡ (codes "0001.sql" ∷ [], codes "0001.sql" ∷ [])
unfolding run send run_locked migration_files apply_pending sort_by keep_if has_suffix ◌≟◌ insert_by
    less any_of apply_one transact or_rollback finish
after_broken = refl

run_in_order_example :
    (p : Progress embedded exec
      (due embedded exec [])
      ([], [])
      (view (run embedded exec broken).1.catalog)
      (run embedded exec broken).0)
    × IsSortedBy less p.done
run_in_order_example = run_in_order embedded exec broken

done_once : (run embedded exec fresh).0 ≡ ok tt
unfolding run send run_locked migration_files apply_pending sort_by keep_if has_suffix ◌≟◌ insert_by
    less any_of apply_one transact or_rollback finish
done_once = refl

abbrev later : Conn (List Bytes)
later = record { catalog = (run embedded exec fresh).1.catalog; fates = lost (codes "late") ∷ [] }

run_again_example : view (run embedded exec later).1.catalog ≡ view later.catalog
run_again_example = run_again embedded exec fresh later done_once refl
