-- ===== src/Worker/Runner/History.antt =====
-- What the loop of internal/worker/worker.go leaves in the history of runs.
use lapis_archive_file_servi.Prelude.{
  ℕ, suc, ◌+◌, [], ◌∷◌, ◌++◌, append_assoc, append-nil, List, Bytes, codes, Bool, true, false, none,
  some, length, length-append, All, All-append, ◌≡◌, ◌∙◌, refl, sym, ap, subst, arith,
}
use lapis_archive_file_servi.Prelude.Int.{◌≤ℤ◌, int_laws}
use lapis_archive_file_servi.Result.{Result, ok, err, error_text}
use lapis_archive_file_servi.Time.{Time, to_micros}
use lapis_archive_file_servi.Store.{JobRun, nullable}
use lapis_archive_file_servi.Audit.{run_status}
use lapis_archive_file_servi.Worker.Runner.{
  elapse, Outcome, returned, panicked, Job, RecordFunc, Machine, Event, cancelled, ticked, safe_run,
  read_time, run_once, rounds, loop,
}

-- the ticks that come before the context is cancelled
abbrev pub ticks_before_stop : List Event → ℕ
ticks_before_stop [] = 0
ticks_before_stop (cancelled ∷ events) = 0
ticks_before_stop (ticked ∷ events) = suc (ticks_before_stop events)

abbrev pub stops : List Event → Bool
stops [] = false
stops (cancelled ∷ events) = true
stops (ticked ∷ events) = stops events

-- What a row says of the outcome of a pass; a panic is an error like another.
abbrev pub Reports : Outcome → JobRun → Type 0
Reports (returned (ok done)) row = (row.status ≡ codes "ok") × (row.error ≡ none)
Reports (returned (err e)) row =
    (row.status ≡ codes "error") × (row.error ≡ nullable (error_text e))
Reports (panicked p) row = (row.status ≡ codes "error") × (row.error ≡ some (codes "panic: " ++ p))

-- A row of the history that a pass of the job left.
pub record IsRunOf {S : Type 0} (job : Job S) (row : JobRun) : Type 0 where
  pub named : row.job ≡ job.name
  pub in_order : row.started_at ≤ℤ row.finished_at
  pub at : Time
  pub on : S
  pub reported : Reports (job.run at on).0 row

-- the row that `DBRunRecorder.Record` writes
abbrev pub run_row : Bytes → Time → Time → Result (Unit {0}) → JobRun
run_row name start end r = record {
  job = name;
  started_at = to_micros start;
  finished_at = to_micros end;
  status = (run_status r).0;
  error = nullable (run_status r).1;
}

to_micros-le : (t u : Time) → t ≤ℤ u → to_micros t ≤ℤ to_micros u
unfolding to_micros
to_micros-le t u h = ground arith

module _ {S : Type 0} where
  read_time-le : (m : Machine S) → m.now ≤ℤ (read_time m).1.now
  unfolding read_time
  read_time-le m = by_ticks m.ticks
    where
      by_ticks : (ticks : List ℕ) → m.now ≤ℤ (elapse ticks m).1.now
      by_ticks [] = omega arith
      by_ticks (d ∷ ticks) = omega int_laws

  read_time-now : (m : Machine S) → (read_time m).0 ≡ (read_time m).1.now
  unfolding read_time
  read_time-now m = by_ticks m.ticks
    where
      by_ticks : (ticks : List ℕ) → (elapse ticks m).0 ≡ (elapse ticks m).1.now
      by_ticks [] = refl
      by_ticks (d ∷ ticks) = refl

  pub read_time-state : (m : Machine S) → (read_time m).1.state ≡ m.state
  unfolding read_time
  read_time-state m = by_ticks m.ticks
    where
      by_ticks : (ticks : List ℕ) → (elapse ticks m).1.state ≡ m.state
      by_ticks [] = refl
      by_ticks (d ∷ ticks) = refl

safe_run-Reports :
    (o : Outcome) (name : Bytes) (start end : Time)
    → Reports o (run_row name start end (safe_run o))
unfolding safe_run error_text
safe_run-Reports (returned (ok done)) name start end = (refl, refl)
safe_run-Reports (returned (err e)) name start end = (refl, refl)
safe_run-Reports (panicked p) name start end = (refl, refl)

module _ {S : Type 0} (P : S → Type 0) (history : S → List JobRun) (job : Job S) where
  -- What a number of passes leaves: it keeps `P` and appends a row for each pass.
  pub record Leaves (passes : ℕ) (before after : S) : Type 0 where
    pub keeps : P after
    pub rows : List JobRun
    pub appended : history after ≡ history before ++ rows
    pub counted : length rows ≡ passes
    pub all : All (IsRunOf job) rows

  Leaves-then : {n k : ℕ} {a b c : S} → Leaves n a b → Leaves k b c → Leaves (n + k) a c
  Leaves-then {a = a} l m = record {
    keeps = m.keeps;
    rows = l.rows ++ m.rows;
    appended =
        m.appended
        ∙ (ap (λ (x : List JobRun). x ++ m.rows) l.appended
            ∙ append_assoc (history a) l.rows m.rows);
    counted = omega (arith, length-append l.rows m.rows, l.counted, m.counted);
    all = All-append (IsRunOf job) l.rows m.rows l.all m.all;
  }

  more : (k : ℕ) {a b c : S} → Leaves 1 a b → Leaves k b c → Leaves (suc k) a c
  more k {a} {c = c} l m =
      let e : 1 + k ≡ suc k = omega arith in subst (λ n. Leaves n a c) e (Leaves-then l m)

module _ {S : Type 0} (P : S → Type 0) (history : S → List JobRun) (job : Job S) (f : RecordFunc S)
    (quiet : (t : Time) (s : S) → P s → P (job.run t s).1 × (history (job.run t s).1 ≡ history s))
    (writes : (start end : Time) (r : Result (Unit {0})) (s : S)
      → P s
      → P (f job.name start end r s)
        × (history (f job.name start end r s)
            ≡ history s ++ run_row job.name start end r ∷ [])) where
  run_once-Leaves :
      (m : Machine S) → P m.state → Leaves P history job 1 m.state (run_once (some f) job m).state
  unfolding run_once
  run_once-Leaves m h =
      let m₁ = (read_time m).1 in
      let m₂ = (read_time m₁).1 in
      let inside = (read_time m₁).0 in
      let same : m₂.state ≡ m.state = read_time-state m₁ ∙ read_time-state m in
      let h₂ : P m₂.state = rw same h in
      let (ran, unchanged) = quiet inside m₂.state h₂ in
      let m₂' : Machine S = record m₂ { state = (job.run inside m₂.state).1 } in
      let m₃ = (read_time m₂').1 in
      let same₃ = read_time-state m₂' in
      let h₃ : P m₃.state = rw same₃ ran in
      let r = safe_run (job.run inside m₂.state).0 in
      let (kept, appended) = writes (read_time m).0 (read_time m₂').0 r m₃.state h₃ in
      record {
        keeps = kept;
        rows = run_row job.name (read_time m).0 (read_time m₂').0 r ∷ [];
        appended =
            appended
            ∙ ap
                (λ (l : List JobRun).
                  l ++ run_row job.name (read_time m).0 (read_time m₂').0 r ∷ [])
                (ap history same₃ ∙ (unchanged ∙ ap history same));
        counted = refl;
        all = (
          record {
            named = refl;
            in_order =
                rw (read_time-now m, read_time-now m₂')
                  (to_micros-le m₁.now m₃.now (omega (arith, read_time-le m₁, read_time-le m₂')));
            at = inside;
            on = m₂.state;
            reported =
                safe_run-Reports (job.run inside m₂.state).0 job.name (read_time m).0
                  (read_time m₂').0;
          },
          tt,
        );
      }

  rounds-Leaves :
      (events : List Event) (m : Machine S)
      → P m.state
      → Leaves P history job
          (ticks_before_stop events)
          m.state
          (rounds (some f) job events m).1.state
        × ((rounds (some f) job events m).0 ≡ stops events)
  unfolding rounds
  rounds-Leaves [] m h = (
    record {
      keeps = h;
      rows = [];
      appended = sym (append-nil (history m.state));
      counted = refl;
      all = tt;
    },
    refl,
  )
  rounds-Leaves (cancelled ∷ events) m h = (
    record {
      keeps = h;
      rows = [];
      appended = sym (append-nil (history m.state));
      counted = refl;
      all = tt;
    },
    refl,
  )
  rounds-Leaves (ticked ∷ events) m h =
      let first = run_once-Leaves m h in
      let (rest, stopped) = rounds-Leaves events (run_once (some f) job m) first.keeps in
      (more P history job (ticks_before_stop events) first rest, stopped)

  -- A job is run at once and once for each tick before the cancellation, also after a pass that
  -- panicked or failed, and the loop returns exactly if it is cancelled; each pass appends one row
  -- to the history, which has the name of the job, a start that is not after the end, and the
  -- outcome of a pass, a panic as an error with its text. It takes a recorder that appends its
  -- row, and a job that leaves the history alone.
  pub loop-history :
      (events : List Event) (m : Machine S)
      → P m.state
      → Leaves P history job
          (suc (ticks_before_stop events))
          m.state
          (loop (some f) job events m).1.state
        × ((loop (some f) job events m).0 ≡ stops events)
  unfolding loop
  loop-history events m h =
      let first = run_once-Leaves m h in
      let (rest, stopped) = rounds-Leaves events (run_once (some f) job m) first.keeps in
      (more P history job (ticks_before_stop events) first rest, stopped)
