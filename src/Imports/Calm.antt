-- ===== src/Imports/Calm.antt =====
-- A run that nothing disturbs, over rows that Postgres takes, ends well.
use drills.Prelude.{
  ℕ, suc, ◌≤◌, ◌<◌, ◌≡◌, true, length-append, refl, false, none, List, [], ◌∷◌, ◌++◌, length, ltb,
  All, All-append, any, arith, Bool-cases, inl, inr,
}
use drills.Prelude.Result.{ok}
use drills.Prelude.Text.{Text, trim}
use drills.Imports.Batch.{
  CsvRow, Message, Counters, Db, Checks, Faults, Outcome, or_empty, is_empty, first_error,
  insert_rows, fits_bind, insert_conversations, insert_messages, message_values, write_batch,
  count_batch, progress,
}
use drills.Imports.Run.{Weather, read_one, flush, stream_rows}

abbrev pub calm : Faults
calm = record { stopping = false; begin = none; progress = none; commit = none }

abbrev pub all_calm : Weather
all_calm n = calm

-- The row has a key, and Postgres takes its values and its message.
abbrev pub IsAccepted : Checks → CsvRow → Type 0
IsAccepted checks row =
    (is_empty (trim (or_empty row.external_id)) ≡ false)
    × (checks.row row ≡ none)
    × (checks.message row.message ≡ none)

abbrev pub Finishes : Outcome → Type 0
Finishes o = (c : Counters) × (db : Db) × (o ≡ (ok tt, c, db))

module _ (checks : Checks) (org : ℕ) where
  pub no_empty :
      (rows : List CsvRow)
      → All (IsAccepted checks) rows
      → any (λ row. is_empty (trim (or_empty row.external_id))) rows ≡ false
  no_empty [] h = refl
  no_empty (row ∷ rows) h = rw (h.0.0) (no_empty rows h.1)

  pub no_bad_row :
      (rows : List CsvRow) → All (IsAccepted checks) rows → first_error checks.row rows ≡ none
  unfolding first_error
  no_bad_row [] h = refl
  no_bad_row (row ∷ rows) h = ground (arith, no_bad_row rows h.1)

  pub no_bad_message :
      (rows : List CsvRow) (inserted : List (Text × ℕ))
      → All (IsAccepted checks) rows
      → first_error (λ (m : Message). checks.message m.message) (message_values org rows inserted)
        ≡ none
  unfolding first_error message_values
  no_bad_message [] inserted h = refl
  no_bad_message (row ∷ rows) inserted h = ground (arith, no_bad_message rows inserted h.1)

  write_batch-Finishes :
      (rows : List CsvRow) (c : Counters) (db : Db)
      → length rows ≤ 16383
      → All (IsAccepted checks) rows
      → Finishes (write_batch calm checks org rows c db)
  unfolding write_batch insert_conversations insert_messages
  write_batch-Finishes rows c db fits h =
      let bound : fits_bind rows ≡ true = ground (arith, fits) in
      let inserted = (insert_rows org rows db).0 in
      let landed = (insert_rows org rows db).1 in
      let c' = count_batch rows inserted c in
      let messages = message_values org rows inserted ++ landed.messages in
      (
        c',
        progress c' (record landed { messages = messages }),
        ground (arith, no_empty rows h, bound, no_bad_row rows h, no_bad_message rows inserted h),
      )

  flush-Finishes :
      (rows : List CsvRow) (c : Counters) (db : Db)
      → length rows ≤ 16383
      → All (IsAccepted checks) rows
      → Finishes (flush calm checks org rows c db)
  unfolding flush
  flush-Finishes [] c db fits h = (c, db, refl)
  flush-Finishes (row ∷ rows) c db fits h = write_batch-Finishes (row ∷ rows) c db fits h

  pub stream_rows-Finishes :
      (batch_rows : ℕ) (rows batch : List CsvRow) (n : ℕ) (c : Counters) (db : Db)
      → batch_rows ≤ 16383
      → length batch < 16383
      → All (IsAccepted checks) batch
      → All (IsAccepted checks) rows
      → Finishes (stream_rows all_calm checks org batch_rows false rows batch n c db)
  unfolding stream_rows
  stream_rows-Finishes batch_rows [] batch n c db few short hb hr =
      flush-Finishes batch c db (omega (arith, short)) hb
  stream_rows-Finishes batch_rows (row ∷ rows) batch n c db few short hb hr =
      let longer : length (batch ++ row ∷ []) ≤ 16383 =
        omega (arith, length-append batch (row ∷ []), short) in
      let grown = All-append (IsAccepted checks) batch (row ∷ []) hb (hr.0, tt) in
      elim (Bool-cases (ltb (length (batch ++ row ∷ [])) batch_rows)) [
        | inl wait ↦ rw wait (
            stream_rows-Finishes batch_rows rows (batch ++ row ∷ []) n (read_one c) db few
              (ground (arith, wait, few)) grown hr.1)
        | inr full ↦
            let (c1, db1, flushed) =
              flush-Finishes (batch ++ row ∷ []) (read_one c) db longer grown in
            let (c2, db2, rest) =
              stream_rows-Finishes batch_rows rows [] (suc n) c1 db1 few (omega arith) tt hr.1 in
            rw (full, flushed) (c2, db2, rest)
      ]
