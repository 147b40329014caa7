-- ===== src/Worker/Runner.antt =====
-- internal/worker/worker.go: the passes of a job, one after the other, with their records. A job runs
-- on a state of any type; what its `Run` ends in is a result, or a panic with the text of its value.
pub mod History
use lapis_archive_file_servi.Prelude.{
  ℕ, [], ◌∷◌, ◌++◌, List, Bytes, codes, Bool, true, false, Option, none, some,
}
use lapis_archive_file_servi.Prelude.Int.{pos, ◌+ℤ◌}
use lapis_archive_file_servi.Result.{Result, ok, err, failed}
use lapis_archive_file_servi.Act.{Step}
use lapis_archive_file_servi.Time.{Time, Duration}

pub data Outcome : Type 0 where
  returned : Result (Unit {0}) → Outcome
  panicked : Bytes → Outcome

-- `run` is given the instant that the job reads.
pub record Job (S : Type 0) : Type 0 where
  pub name : Bytes
  pub interval : Duration
  pub run : Time → Step S Outcome

-- `RecordFunc`: the job, the start and the end of the pass, and its error
abbrev pub RecordFunc : Type 0 → Type 0
RecordFunc S = Bytes → Time → Time → Result (Unit {0}) → S → S

-- The state of the jobs with the clock: `ticks` is what passes before each of its coming readings.
pub record Machine (S : Type 0) : Type 0 where
  pub state : S
  pub now : Time
  pub ticks : List ℕ

-- what a job that waits in its loop is woken by
pub data Event : Type 0 where
  cancelled ticked : Event

-- `safeRun`
unfoldable pub safe_run : Outcome → Result (Unit {0})
safe_run (returned r) = r
safe_run (panicked p) = err (failed (codes "panic: " ++ p))

module _ {S : Type 0} where
  abbrev pub elapse : List ℕ → Machine S → Time × Machine S
  elapse [] m = (m.now, m)
  elapse (d ∷ ticks) m = (m.now +ℤ pos d, record m { now = m.now +ℤ pos d; ticks = ticks })

  unfoldable pub read_time : Step (Machine S) Time
  read_time m = elapse m.ticks m

  -- `if r.record != nil { r.record(…) }`
  abbrev pub record_pass : Option (RecordFunc S) → RecordFunc S
  record_pass none name start end r s = s
  record_pass (some f) name start end r s = f name start end r s

  unfoldable pub run_once : Option (RecordFunc S) → Job S → Machine S → Machine S
  run_once recorder job m =
      let (start, m₁) = read_time m in
      let (inside, m₂) = read_time m₁ in
      let (outcome, s) = job.run inside m₂.state in
      let (end, m₃) = read_time (record m₂ { state = s }) in
      record m₃ { state = record_pass recorder job.name start end (safe_run outcome) m₃.state }

  -- The rounds of `loop`, and whether it returned: past the last event the job waits.
  unfoldable pub rounds : Option (RecordFunc S) → Job S → List Event → Machine S → Bool × Machine S
  rounds recorder job [] m = (false, m)
  rounds recorder job (cancelled ∷ events) m = (true, m)
  rounds recorder job (ticked ∷ events) m = rounds recorder job events (run_once recorder job m)

  -- `loop`: a pass at once, then one for each tick, until the context is cancelled
  unfoldable pub loop : Option (RecordFunc S) → Job S → List Event → Machine S → Bool × Machine S
  loop recorder job events m = rounds recorder job events (run_once recorder job m)
