-- ===== src/Imports/Lost.antt =====
-- A transaction that fails after the counters have moved: its rows are rolled back and the
-- job's row counts them all the same.
use Prim.Native.String.{String}
use drills.Prelude.{
  ℕ, suc, ◌≤◌, ◌+◌, ◌<◌, ◌≡◌, refl, sym, subst₂, ap, Bool, true, false, none, some, List, [], ◌∷◌,
  ◌++◌, length, length-append, drop, All, arith, ltb, lt→ltb, ◌∙◌,
}
use mathlib.Core.List.{append-nil, append_assoc}
use native.Mathlib.Nat.{add-zero}
use drills.Prelude.Result.{err}
use drills.Imports.Batch.{
  CsvRow, running, succeeded, failed, Job, Counters, Db, Checks, Faults, Outcome, database,
  insert_rows, fits_bind, insert_conversations, insert_messages, write_batch, count_batch,
}
use drills.Imports.Run.{
  Config, File, Weather, stream, resume, read_one, flush, start_row, start_counters, set_job,
  finish, run, stream_rows, retry,
}
use drills.Imports.Calm.{all_calm, IsAccepted, no_empty, no_bad_row, no_bad_message}

-- COMMIT is answered by an error.
abbrev pub no_commit : String → Faults
no_commit code = record { stopping = false; begin = none; progress = none; commit = some code }

module _ (checks : Checks) (org : ℕ) where
  -- The database is as before, the counters are not.
  write_batch-no_commit :
      (code : String) (rows : List CsvRow) (c : Counters) (db : Db)
      → length rows ≤ 16383
      → All (IsAccepted checks) rows
      → write_batch (no_commit code) checks org rows c db
        ≡ (err (database code), count_batch rows (insert_rows org rows db).0 c, db)
  unfolding write_batch insert_conversations insert_messages
  write_batch-no_commit code rows c db few h =
      let bound : fits_bind rows ≡ true = ground (arith, few) in
      let inserted = (insert_rows org rows db).0 in
      ground (
        arith,
        bound,
        no_empty checks org rows h,
        no_bad_row checks org rows h,
        no_bad_message checks org rows inserted h,
      )

  -- A file that is shorter than a batch is written when it ends.
  stream_rows_short :
      (weather : Weather) (batch_rows : ℕ) (rows batch : List CsvRow) (n : ℕ) (c : Counters)
      (db : Db)
      → length batch + length rows < batch_rows
      → stream_rows weather checks org batch_rows false rows batch n c db
        ≡ flush (weather n) checks org (batch ++ rows) (record c { read = c.read + length rows }) db
  unfolding stream_rows
  stream_rows_short weather batch_rows [] batch n c db h = rw (append-nil, add-zero)
  stream_rows_short weather batch_rows (row ∷ rows) batch n c db h =
      let fits : ltb (length (batch ++ row ∷ [])) batch_rows ≡ true =
        lt→ltb _ _ (omega (arith, length-append batch (row ∷ []))) in
      let later =
        stream_rows_short weather batch_rows rows (batch ++ row ∷ []) n (read_one c) db
          (omega (arith, length-append batch (row ∷ []))) in
      let reads : c.read + 1 + length rows ≡ c.read + suc (length rows) = omega arith in
      rw fits (rw (append_assoc, reads) at later)

  -- What the body of an attempt on a short file comes to if its COMMIT fails.
  body-no_commit :
      (code : String) (batch_rows : ℕ) (rows : List CsvRow) (c : Counters) (db : Db)
      → 0 < length rows
      → length rows < batch_rows
      → length rows ≤ 16383
      → All (IsAccepted checks) rows
      → stream_rows (λ _. no_commit code) checks org batch_rows false rows [] 0 c db ≡ (
        err (database code),
        count_batch rows (insert_rows org rows db).0 (record c { read = c.read + length rows }),
        db,
      )
  unfolding flush
  body-no_commit code batch_rows [] c db some_row short few h = absurd (omega arith)
  body-no_commit code batch_rows (row ∷ rows) c db some_row short few h =
      let all = row ∷ rows in
      stream_rows_short (λ _. no_commit code) batch_rows all [] 0 c db (omega arith)
      ∙ write_batch-no_commit code all (record c { read = c.read + length all }) db few h

start_counters-committed :
    (job : Job) → job.resume_row ≡ 0 → (start_counters job.resume_row job).committed ≡ 0
unfolding start_counters
start_counters-committed job fresh = ground arith

drop_all {ℓ} : {A : Type ℓ} (xs : List A) → drop (length xs) xs ≡ []
drop_all [] = refl
drop_all (x ∷ xs) = drop_all xs

module _ (checks : Checks) (org batch_rows : ℕ) (code : String) (file : File) (db : Db) where
  abbrev resuming : Config
  resuming = record { mode = stream; on_fail = resume; batch_rows = batch_rows }

  -- The attempt whose only COMMIT fails, and the retry of it that nothing disturbs.
  abbrev pub first_attempt : Db
  first_attempt = (run resuming (λ _. no_commit code) checks org file db).1

  abbrev pub second_attempt : Db
  second_attempt = retry resuming all_calm checks org file first_attempt

  -- A retry past the last row has nothing to do, and succeeds.
  retry_at_end :
      (before : Db)
      → before.job.status ≡ failed
      → drop before.job.resume_row file.rows ≡ []
      → file.broken ≡ false
      → ((retry resuming all_calm checks org file before).job.status ≡ succeeded)
        × ((retry resuming all_calm checks org file before).conversations ≡ before.conversations)
  unfolding retry run finish start_row stream_rows flush
  retry_at_end before stopped no_row whole = ground (arith, stopped, no_row, whole)

  first_attempt_lem :
      db.job.resume_row ≡ 0
      → 0 < length file.rows
      → length file.rows < batch_rows
      → length file.rows ≤ 16383
      → All (IsAccepted checks) file.rows
      → file.broken ≡ false
      → (first_attempt.job.status ≡ failed)
        × (first_attempt.job.resume_row ≡ length file.rows)
        × (first_attempt.conversations ≡ db.conversations)
  unfolding run finish start_row
  first_attempt_lem fresh some_row short few accepted whole =
      let c = start_counters db.job.resume_row db.job in
      let started = set_job running none c db in
      let counted =
        count_batch file.rows (insert_rows org file.rows started).0
          (record c { read = c.read + length file.rows }) in
      let Ends = λ (b : Bool) (from : ℕ).
        stream_rows (λ _. no_commit code) checks org batch_rows b (drop from file.rows) [] 0 c
          started
        ≡ (err (database code), counted, started) in
      let ends = subst₂ Ends (sym whole) (sym fresh) (
        body-no_commit checks org code batch_rows file.rows c started some_row short few
          accepted) in
      let after = ap (λ (o : Outcome). (finish o).1) ends in
      let none_yet = start_counters-committed db.job fresh in
      rw after (refl, omega (arith, none_yet), refl)

  -- A file shorter than a batch, of at most the 16383 rows that one INSERT can bind and of rows
  -- that Postgres takes, whose COMMIT is answered by an error: the job is marked failed with
  -- `resume_row` past every row, the retry is marked succeeded, and no conversation of the file
  -- has been written.
  pub lost_batch :
      db.job.resume_row ≡ 0
      → 0 < length file.rows
      → length file.rows < batch_rows
      → length file.rows ≤ 16383
      → All (IsAccepted checks) file.rows
      → file.broken ≡ false
      → (first_attempt.job.status ≡ failed)
        × (first_attempt.job.resume_row ≡ length file.rows)
        × (second_attempt.job.status ≡ succeeded)
        × (second_attempt.conversations ≡ db.conversations)
  lost_batch fresh some_row short few accepted whole =
      let first = first_attempt_lem fresh some_row short few accepted whole in
      let end : drop first_attempt.job.resume_row file.rows ≡ [] =
        rw first.1 (drop_all file.rows) in
      let second = retry_at_end first_attempt first.0 end whole in
      (first.0, first.1, second.0, second.1 ∙ first.2)
