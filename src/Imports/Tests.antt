-- ===== src/Imports/Tests.antt =====
-- Runs of an import of three rows, and the theorems at them.
use drills.Prelude.{ℕ, zero, suc, ◌≡◌, refl, true, false, none, some, [], ◌∷◌, length, arith}
use drills.Prelude.Text.{trim}
use drills.Imports.Batch.{
  CsvRow, pending, succeeded, failed, Db, Checks, Faults, insert_rows, insert_row, message_values,
  write_batch, insert_conversations, insert_messages, first_error, get, has, key_of,
}
use drills.Imports.Run.{
  File, resume, restart, stream, buffer, run, start_row, start_counters, stream_rows, buffer_rows,
  flush, finish,
}
use drills.Imports.Laws.{IsResumable, IsImported, run-IsImported}
use drills.Imports.Calm.{calm, all_calm}
use drills.Imports.Failing.{IsSteady, run-IsResumable}
use drills.Imports.Lost.{first_attempt, second_attempt, lost_batch}

abbrev line : ℕ → CsvRow
line k = record {
  external_id = some (b' ' ∷ k ∷ []);
  status = [];
  created_at = [];
  updated_at = [];
  message = [];
}

abbrev three : File
three = record { rows = line b'a' ∷ line b'b' ∷ line b'c' ∷ []; broken = false }

abbrev takes_all : Checks
takes_all = record { row = λ r. none; message = λ m. none }

abbrev empty_db : Db
empty_db = record {
  conversations = [];
  messages = [];
  next_id = 1;
  job = record {
    status = pending;
    rows_read = 0;
    rows_written = 0;
    rows_skipped = 0;
    resume_row = 0;
    error = none;
  };
}

abbrev twos : ℕ → Faults
twos n = elim n [ zero ↦ calm | suc k ↦ record calm { stopping = true } ]

-- In batches of two: a shutdown after the first leaves `resume_row` at 2; undisturbed, all is
-- there.
run_test :
    ((run
        (record { mode = stream; on_fail = resume; batch_rows = 2 })
        twos
        takes_all
        1
        three
        empty_db).1.job.resume_row
      ≡ 2)
    × ((run
          (record { mode = stream; on_fail = resume; batch_rows = 2 })
          all_calm
          takes_all
          1
          three
          empty_db).1.job.rows_written
        ≡ 3)
    × (length
          (run
            (record { mode = buffer; on_fail = resume; batch_rows = 2 })
            all_calm
            takes_all
            1
            three
            empty_db).1.messages
        ≡ 3)
unfolding run start_row start_counters stream_rows buffer_rows flush write_batch
    insert_conversations insert_messages insert_rows insert_row message_values first_error get has
    key_of finish trim
run_test = (refl, refl, refl)

-- Two rows of one batch with one key are one conversation with two messages.
duplicate_test :
    (length (insert_rows 1 (line b'a' ∷ line b'a' ∷ []) empty_db).1.conversations ≡ 1)
    × (length (
          message_values 1
            (line b'a' ∷ line b'a' ∷ [])
            (insert_rows 1 (line b'a' ∷ line b'a' ∷ []) empty_db).0)
        ≡ 2)
unfolding insert_rows insert_row message_values get has key_of trim
duplicate_test = (refl, refl)

start : IsResumable 1 three empty_db
start = record { imported = tt; accounted = refl; within = omega arith }

steady : IsSteady twos takes_all
steady = record {
  reported = elim [ zero ↦ refl | suc k ↦ refl ];
  ended = elim [ zero ↦ refl | suc k ↦ refl ];
  messages = λ m. refl;
}

run-IsResumable_example :
    IsResumable 1 three
      (run
        (record { mode = stream; on_fail = resume; batch_rows = 2 })
        twos
        takes_all
        1
        three
        empty_db).1
run-IsResumable_example = run-IsResumable resume 2 1 twos takes_all three empty_db steady start

run-IsImported_example :
    IsImported 1 three empty_db
      (run
        (record { mode = stream; on_fail = restart; batch_rows = 2 })
        all_calm
        takes_all
        1
        three
        empty_db).1
unfolding trim
run-IsImported_example =
    run-IsImported restart 2 1 takes_all three empty_db (omega arith) start
      ((refl, refl, refl), ((refl, refl, refl), ((refl, refl, refl), tt))) refl

lost_batch_example :
    ((first_attempt takes_all 1 1000 "57P01" three empty_db).job.status ≡ failed)
    × ((first_attempt takes_all 1 1000 "57P01" three empty_db).job.resume_row ≡ 3)
    × ((second_attempt takes_all 1 1000 "57P01" three empty_db).job.status ≡ succeeded)
    × ((second_attempt takes_all 1 1000 "57P01" three empty_db).conversations ≡ [])
unfolding trim
lost_batch_example =
    lost_batch takes_all 1 1000 "57P01" three empty_db refl (omega arith) (omega arith)
      (omega arith) ((refl, refl, refl), ((refl, refl, refl), ((refl, refl, refl), tt))) refl
