-- ===== src/Imports/Failing.antt =====
-- An attempt that ends in any way, where no transaction fails once the counters have moved:
-- what the job's row says is in the database.
use drills.Prelude.{
  ℕ, zero, suc, ◌+◌, ◌≤◌, ◌≡◌, refl, ◌∙◌, sym, subst₂, ap, Bool, true, false, Option, none, some,
  List, [], ◌∷◌, ◌++◌, length, length-append, ltb, take, drop, All-append, arith, Bool-cases, inl,
  inr,
}
use mathlib.Core.List.{append-nil, append_assoc}
use native.Mathlib.Nat.{zero-add, suc-add}
use drills.Prelude.Result.{ok, err}
use drills.Prelude.Text.{Text}
use drills.Imports.Batch.{
  CsvRow, Message, ImportError, ImportStatus, succeeded, failed, running, Counters, Db, Checks,
  Faults, Outcome, insert_conversations, insert_messages, insert_rows, message_values, first_error,
  write_batch, has, key_of,
}
use drills.Imports.Run.{
  File, FailMode, Weather, stream, read_one, and_then, flush, stream_rows, start_row,
  start_counters, set_job, finish, run,
}
use drills.Imports.Keys.{Covered, Covered-Keeps}
use drills.Imports.Progress.{
  Written, Written-nil, Written-append, Written-read_one, write_batch-Written,
}
use drills.Imports.Stream.{flush-Written}
use drills.Imports.Laws.{IsResumable, start_exact, length-drop}

-- The progress update and COMMIT do not fail, and Postgres takes every message.
pub record IsSteady (weather : Weather) (checks : Checks) : Type 0 where
  pub reported : (n : ℕ) → (weather n).progress ≡ none
  pub ended : (n : ℕ) → (weather n).commit ≡ none
  pub messages : (m : Text) → checks.message m ≡ none

first_error-none :
    (checks : Checks)
    → ((m : Text) → checks.message m ≡ none)
    → (ms : List Message) → first_error (λ (m : Message). checks.message m.message) ms ≡ none
unfolding first_error
first_error-none checks h [] = refl
first_error-none checks h (m ∷ ms) = ground (arith, h m.message, first_error-none checks h ms)

write_batch-err_unchanged :
    (faults : Faults) (checks : Checks) (org : ℕ) (rows : List CsvRow) (c : Counters) (db : Db)
    (e : ImportError) (c' : Counters) (db' : Db)
    → faults.progress ≡ none
    → faults.commit ≡ none
    → ((m : Text) → checks.message m ≡ none)
    → write_batch faults checks org rows c db ≡ (err e, c', db')
    → (c ≡ c') × (db ≡ db')
unfolding write_batch insert_conversations insert_messages
write_batch-err_unchanged faults checks org rows c db e c' db' p q m h =
    let values = message_values org rows (insert_rows org rows db).0 in
    ground (arith, first_error-none checks m values)

-- A loop over `rows` that ended, in any way, has written a first part of them.
abbrev pub Stopped : ℕ → List CsvRow → Counters → Db → Outcome → Type 0
Stopped org rows c db o =
    (done : List CsvRow) × (rest : List CsvRow) × (reads : ℕ) × (rows ≡ done ++ rest)
    × Written org done reads c db o.1 o.2

Stopped-flush :
    (faults : Faults) (checks : Checks) (org : ℕ) (rows : List CsvRow) (c : Counters) (db : Db)
    → faults.progress ≡ none
    → faults.commit ≡ none
    → ((m : Text) → checks.message m ≡ none)
    → Stopped org rows c db (flush faults checks org rows c db)
unfolding flush
Stopped-flush faults checks org [] c db p q m = ([], [], 0, refl, Written-nil org c db)
Stopped-flush faults checks org (row ∷ rows) c db p q m = go _ refl
  where
    go :
        (o : Outcome)
        → write_batch faults checks org (row ∷ rows) c db ≡ o
        → Stopped org (row ∷ rows) c db o
    go (ok _, c', db') h = (
      row ∷ rows,
      [],
      0,
      sym (append-nil (row ∷ rows)),
      write_batch-Written faults checks org (row ∷ rows) c db c' db' h,
    )
    go (err e, c', db') h =
        let same = write_batch-err_unchanged faults checks org (row ∷ rows) c db e c' db' p q m h in
        (
          [],
          row ∷ rows,
          0,
          refl,
          subst₂ (λ x y. Written org [] 0 c db x y) same.0 same.1 (Written-nil org c db),
        )

module _ (weather : Weather) (checks : Checks) (org : ℕ) (steady : IsSteady weather checks) where
  -- What is written before a loop goes on counts for the whole.
  Stopped-then :
      (now rows : List CsvRow) (c : Counters) (db : Db) (c1 : Counters) (db1 : Db) (o : Outcome)
      → Written org now 0 c db c1 db1
      → Stopped org rows c1 db1 o
      → Stopped org (now ++ rows) c db o
  Stopped-then now rows c db c1 db1 o w (done, rest, reads, parts, w') = (
    now ++ done,
    rest,
    0 + reads,
    ap (λ xs. now ++ xs) parts ∙ sym (append_assoc now done rest),
    Written-append org now done 0 reads c db c1 db1 o.1 o.2 w w',
  )

  Stopped-read_one :
      (rows : List CsvRow) (c : Counters) (db : Db) (o : Outcome)
      → Stopped org rows (read_one c) db o
      → Stopped org rows c db o
  Stopped-read_one rows c db o (done, rest, reads, parts, w) =
      (done, rest, suc reads, parts, Written-read_one org done reads c db o.1 o.2 w)

  Stopped-and_then :
      (now rows : List CsvRow) (c : Counters) (db : Db) (o : Outcome)
      (next : Counters → Db → Outcome)
      → Stopped org now c db o
      → ((c1 : Counters) (db1 : Db) → o ≡ (ok tt, c1, db1) → Written org now 0 c db c1 db1)
      → ((c1 : Counters) (db1 : Db) → Stopped org rows c1 db1 (next c1 db1))
      → Stopped org (now ++ rows) c db (and_then o next)
  Stopped-and_then now rows c db (ok _, c1, db1) next s w later =
      Stopped-then now rows c db c1 db1 (next c1 db1) (w c1 db1 refl) (later c1 db1)
  Stopped-and_then now rows c db (err e, c1, db1) next (done, rest, reads, parts, w') w later =
      (done, rest ++ rows, reads, ap (λ xs. xs ++ rows) parts ∙ append_assoc done rest rows, w')

  stream_rows-Stopped :
      (batch_rows : ℕ) (broken : Bool) (rows batch : List CsvRow) (n : ℕ) (c : Counters) (db : Db)
      → Stopped org
          (batch ++ rows)
          c
          db
          (stream_rows weather checks org batch_rows broken rows batch n c db)
  unfolding stream_rows
  stream_rows-Stopped batch_rows true [] batch n c db =
      ([], batch ++ [], 0, refl, Written-nil org c db)
  stream_rows-Stopped batch_rows false [] batch n c db = rw append-nil (
      Stopped-flush (weather n) checks org batch c db (steady.reported n) (steady.ended n)
        steady.messages)
  stream_rows-Stopped batch_rows broken (row ∷ rows) batch n c db =
      let grown = batch ++ row ∷ [] in
      elim (Bool-cases (ltb (length (batch ++ row ∷ [])) batch_rows)) [
        | inl wait ↦
            let later = stream_rows-Stopped batch_rows broken rows grown n (read_one c) db in
            let o = stream_rows weather checks org batch_rows broken rows grown n (read_one c) db in
            rw wait (Stopped-read_one (batch ++ row ∷ rows) c db o (rw append_assoc at later))
        | inr full ↦
            let now =
              Stopped-flush (weather n) checks org grown (read_one c) db (steady.reported n)
                (steady.ended n) steady.messages in
            let written = flush (weather n) checks org grown (read_one c) db in
            let next = λ (c1 : Counters) (db1 : Db).
              stream_rows weather checks org batch_rows broken rows [] (suc n) c1 db1 in
            let both =
              Stopped-and_then grown rows (read_one c) db written next now
                (flush-Written (weather n) checks org grown (read_one c) db)
                (λ c1 db1. stream_rows-Stopped batch_rows broken rows [] (suc n) c1 db1) in
            rw full (
              Stopped-read_one (batch ++ row ∷ rows) c db (and_then written next)
                (rw append_assoc at both))
      ]

take-length-append {ℓ} : {A : Type ℓ} (xs ys : List A) → take (length xs) (xs ++ ys) ≡ xs
take-length-append [] ys = refl
take-length-append (x ∷ xs) ys = ap (λ zs. x ∷ zs) (take-length-append xs ys)

take_done {ℓ} :
    {A : Type ℓ} (from : ℕ) (xs done rest : List A)
    → from ≤ length xs
    → drop from xs ≡ done ++ rest
    → take (from + length done) xs ≡ take from xs ++ done
take_done zero xs done rest h e = rw zero-add (rw e (take-length-append done rest))
take_done (suc n) [] done rest h e = absurd (omega arith)
take_done (suc n) (x ∷ xs) done rest h e =
    rw suc-add (ap (λ ys. x ∷ ys) (take_done n xs done rest (omega arith) e))

module _ (org : ℕ) (file : File) (from : ℕ) (c : Counters) (db : Db)
    (start : (c.committed ≡ from)
      × (c.written + c.skipped ≡ from)
      × (from ≤ length file.rows)
      × Covered org (take from file.rows) db.conversations) where
  set_job-IsResumable :
      (status : ImportStatus) (error : Option (ℕ × ImportError)) (o : Outcome)
      → Stopped org (drop from file.rows) c db o
      → IsResumable org file (set_job status error o.1 o.2)
  set_job-IsResumable status error (r, c', db') (done, rest, reads, parts, w) =
      let (at_from, accounted, within, before) = start in
      let kept =
        Covered-Keeps org (take from file.rows) db.conversations db'.conversations w.keeps before in
      let both =
        All-append (λ row. has org (key_of row) db'.conversations ≡ true) (take from file.rows) done
          kept w.covered in
      let now : c'.committed ≡ from + length done = omega (arith, w.committed, at_from) in
      let same : take c'.committed file.rows ≡ take from file.rows ++ done =
        rw now (take_done from file.rows done rest within parts) in
      let sizes : length (drop from file.rows) ≡ length done + length rest =
        ap length parts ∙ length-append done rest in
      record {
        imported = rw same both;
        accounted = omega (arith, w.accounted, w.committed, at_from, accounted);
        within = omega (arith, now, sizes, length-drop from file.rows, within);
      }

  finish-IsResumable :
      (o : Outcome) → Stopped org (drop from file.rows) c db o → IsResumable org file (finish o).1
  unfolding finish
  finish-IsResumable (ok _, c', db') s = set_job-IsResumable succeeded none (ok tt, c', db') s
  finish-IsResumable (err e, c', db') s =
      set_job-IsResumable failed (some (c'.read + 1, e)) (err e, c', db') s

-- On `stream`, however an attempt ends - a row that Postgres refuses, a shutdown, a parse
-- error, a BEGIN that fails, or success - the job's row tells the truth when no transaction
-- fails after its counters have moved: `resume_row` records of the file are in the database,
-- each counted as written or as skipped. So a retry may go on from there.
pub run-IsResumable :
    (mode : FailMode) (batch_rows org : ℕ) (weather : Weather) (checks : Checks) (file : File)
    (db : Db)
    → IsSteady weather checks
    → IsResumable org file db
    → IsResumable org file
        (run
          (record { mode = stream; on_fail = mode; batch_rows = batch_rows })
          weather
          checks
          org
          file
          db).1
unfolding run
run-IsResumable mode batch_rows org weather checks file db steady resumable =
    let from = start_row mode db.job in
    let c = start_counters from db.job in
    let started = set_job running none c db in
    let rows = drop from file.rows in
    finish-IsResumable org file from c started (start_exact mode org file db resumable)
      (stream_rows weather checks org batch_rows file.broken rows [] 0 c started)
      (stream_rows-Stopped weather checks org steady batch_rows file.broken rows [] 0 c started)
