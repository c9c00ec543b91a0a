-- ===== src/Imports/Run.antt =====
-- One attempt at the job, and the retry: `run`, `runBuffered`, `runStreamed`, `retry`.
use drills.Prelude.{
  ℕ, suc, ◌+◌, Bool, Option, none, some, List, [], ◌∷◌, ◌++◌, length, drop, ltb, ◌==◌,
  if◌then◌else◌,
}
use drills.Prelude.Result.{Result, ok, err}
use drills.Imports.Batch.{
  CsvRow, ImportStatus, running, succeeded, failed, ImportError, csv_error, Job, Counters, Db,
  Checks, Faults, Outcome, progress, write_batch,
}

pub data ImportMode : Type 0 where
  buffer stream : ImportMode

pub data FailMode : Type 0 where
  resume restart : FailMode

pub record Config : Type 0 where
  pub mode : ImportMode
  pub on_fail : FailMode
  pub batch_rows : ℕ

-- The spooled file as the parser gives it: its records, and whether it ends in an error. The error
-- of a streamed file is seen when the batches before it are written.
pub record File : Type 0 where
  pub rows : List CsvRow
  pub broken : Bool

-- The faults of the n-th batch of an attempt.
abbrev pub Weather : Type 0
Weather = ℕ → Faults

abbrev pub read_one : Counters → Counters
read_one c = record c { read = c.read + 1 }

-- Go on after a batch that is written.
abbrev pub and_then : Outcome → (Counters → Db → Outcome) → Outcome
and_then (ok _, c, db) next = next c db
and_then (err e, c, db) next = (err e, c, db)

-- `flush`
unfoldable pub flush : Faults → Checks → ℕ → List CsvRow → Counters → Db → Outcome
flush faults checks org [] c db = (ok tt, c, db)
flush faults checks org (row ∷ rows) c db = write_batch faults checks org (row ∷ rows) c db

module _ (weather : Weather) (checks : Checks) (org : ℕ) where
  -- The writable's `write` for each record, with the batch so far, and `final`. A parser that fails
  -- destroys the writable, so the last rows are not flushed.
  unfoldable pub stream_rows : ℕ → Bool → List CsvRow → List CsvRow → ℕ → Counters → Db → Outcome
  stream_rows batch_rows broken [] batch n c db =
      if broken then (err csv_error, c, db) else flush (weather n) checks org batch c db
  stream_rows batch_rows broken (row ∷ rows) batch n c db =
      let grown = batch ++ row ∷ [] in
      let wait = stream_rows batch_rows broken rows grown n (read_one c) db in
      let written =
        and_then (flush (weather n) checks org grown (read_one c) db)
          (λ c' db'. stream_rows batch_rows broken rows [] (suc n) c' db') in
      if ltb (length grown) batch_rows then wait else written

  -- One transaction for each row of a file that is parsed whole.
  unfoldable pub buffer_rows : List CsvRow → ℕ → Counters → Db → Outcome
  buffer_rows [] n c db = (ok tt, c, db)
  buffer_rows (row ∷ rows) n c db =
      and_then (write_batch (weather n) checks org (row ∷ []) (read_one c) db)
        (λ c' db'. buffer_rows rows (suc n) c' db')

  run_buffered : File → Counters → Db → Outcome
  run_buffered file c db =
      if file.broken then (err csv_error, c, db) else buffer_rows file.rows 0 c db

  -- `from: from + 1` leaves out the first `from` records.
  run_streamed : ℕ → File → ℕ → Counters → Db → Outcome
  run_streamed batch_rows file from c db =
      stream_rows batch_rows file.broken (drop from file.rows) [] 0 c db

  run_body : Config → File → ℕ → Counters → Db → Outcome
  unfolding run_buffered run_streamed
  run_body config file from c db = elim config.mode [
    | buffer ↦ run_buffered file c db
    | stream ↦ run_streamed config.batch_rows file from c db
  ]

abbrev pub zero_counters : Counters
zero_counters = record { read = 0; written = 0; skipped = 0; committed = 0 }

-- Where the attempt starts.
unfoldable pub start_row : FailMode → Job → ℕ
start_row restart job = 0
start_row resume job = job.resume_row

unfoldable pub start_counters : ℕ → Job → Counters
start_counters from job = if from == 0 then zero_counters else record {
  read = job.rows_read;
  written = job.rows_written;
  skipped = job.rows_skipped;
  committed = job.resume_row;
}

abbrev pub set_job : ImportStatus → Option (ℕ × ImportError) → Counters → Db → Db
set_job status error c db =
    let reported = progress c db in
    record reported { job = record reported.job { status = status; error = error } }

-- `finish` on both ways out of the `try`.
unfoldable pub finish : Outcome → Result ImportError Job × Db
finish (ok _, c, db) = (ok (set_job succeeded none c db).job, set_job succeeded none c db)
finish (err e, c, db) = (err e, set_job failed (some (c.read + 1, e)) c db)

-- `run`, where the two small transactions around the body do not fail.
unfoldable pub run : Config → Weather → Checks → ℕ → File → Db → Result ImportError Job × Db
unfolding run_body
run config weather checks org file db =
    let from = start_row config.on_fail db.job in
    let c = start_counters from db.job in
    finish (run_body weather checks org config file from c (set_job running none c db))

-- `retry`: a job that is running is left alone. (On `stream` the attempt runs after the answer.)
unfoldable pub retry : Config → Weather → Checks → ℕ → File → Db → Db
unfolding run
retry config weather checks org file db = elim db.job.status [
  | running ↦ db
  | _ ↦ (run config weather checks org file db).1
]
