-- ===== src/Tests/Runner.antt =====
-- internal/worker/worker.go with a job that always panics, and with the jobs of the program.
use lapis_archive_file_servi.Prelude.{
  [], ◌∷◌, ◌++◌, List, Bytes, codes, some, true, ◌≡◌, refl, arith,
}
use lapis_archive_file_servi.Prelude.Int.{pos}
use lapis_archive_file_servi.Result.{Result}
use lapis_archive_file_servi.Time.{Time, minute}
use lapis_archive_file_servi.Store.{JobRun, Db}
use lapis_archive_file_servi.Store.Statements.{statement_calm}
use lapis_archive_file_servi.Audit.{record_run, insert_run}
use lapis_archive_file_servi.Worker.Retention.{Kept}
use lapis_archive_file_servi.Worker.Runner.{Job, panicked, Machine, Event, ticked, cancelled, loop}
use lapis_archive_file_servi.Worker.Runner.History.{run_row, Leaves, loop-history}
use lapis_archive_file_servi.Worker.Jobs.{db_recorder}
use lapis_archive_file_servi.Tests.Worker.{two_shares}

abbrev Calm : Kept (List Bytes) → Type 0
Calm w = w.db.fates ≡ []

abbrev history : Kept (List Bytes) → List JobRun
history w = w.db.tables.job_runs

abbrev crashing : Job (Kept (List Bytes))
crashing = record {
  name = codes "crash";
  interval = minute;
  run = λ now w. (panicked (codes "nil pointer"), w);
}

record_run_calm :
    (name : Bytes) (start end : Time) (r : Result (Unit {0})) (db : Db)
    → db.fates ≡ []
    → ((record_run name start end r db).fates ≡ [])
      × ((record_run name start end r db).tables.job_runs
          ≡ db.tables.job_runs ++ run_row name start end r ∷ [])
unfolding record_run
record_run_calm name start end r db e =
    ground (arith, statement_calm (insert_run (run_row name start end r)) db e)

abbrev machine : Machine (Kept (List Bytes))
machine = record { state = record { db = two_shares; objects = [] }; now = pos 3; ticks = 1 ∷ [] }

abbrev two_ticks : List Event
two_ticks = ticked ∷ ticked ∷ cancelled ∷ ticked ∷ []

loop-history_example :
    Leaves Calm history crashing 3 machine.state
      (loop (some db_recorder) crashing two_ticks machine).1.state
    × ((loop (some db_recorder) crashing two_ticks machine).0 ≡ true)
loop-history_example =
    loop-history Calm history crashing db_recorder (λ t w h. (h, refl))
      (λ start end r w h. record_run_calm crashing.name start end r w.db h) two_ticks machine refl
