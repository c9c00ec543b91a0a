-- ===== src/Imports/Laws.antt =====
-- What an attempt at the job guarantees.
use drills.Prelude.{
  ℕ, zero, suc, ◌+◌, ◌-◌, ◌≤◌, ◌≡◌, refl, sym, subst, ap, true, false, none, List, [], ◌∷◌, ◌++◌,
  length, take, drop, All, All-append, arith,
}
use drills.Prelude.Result.{ok}
use drills.Imports.Batch.{running, succeeded, Counters, Db, Checks, has, key_of}
use drills.Imports.Run.{
  File, stream, resume, restart, FailMode, start_row, start_counters, set_job, finish, run,
  stream_rows,
}
use drills.Imports.Keys.{Covered, Covered-Keeps, Keeps}
use drills.Imports.Progress.{Written}
use drills.Imports.Stream.{stream_rows-Written}
use drills.Imports.Calm.{all_calm, IsAccepted, stream_rows-Finishes}

-- What the job's row says is in the database: `resume_row` records of the file, each written or
-- skipped.
pub record IsResumable (org : ℕ) (file : File) (db : Db) : Type 0 where
  pub imported : Covered org (take db.job.resume_row file.rows) db.conversations
  pub accounted : db.job.rows_written + db.job.rows_skipped ≡ db.job.resume_row
  pub within : db.job.resume_row ≤ length file.rows

-- The whole file is in the database, and the job's row says so.
pub record IsImported (org : ℕ) (file : File) (db db' : Db) : Type 0 where
  pub done : db'.job.status ≡ succeeded
  pub imported : Covered org file.rows db'.conversations
  pub keeps : Keeps db.conversations db'.conversations
  pub resume_row : db'.job.resume_row ≡ length file.rows
  pub accounted : db'.job.rows_written + db'.job.rows_skipped ≡ length file.rows

pub take-append-drop {ℓ} : {A : Type ℓ} (n : ℕ) (xs : List A) → take n xs ++ drop n xs ≡ xs
take-append-drop zero xs = refl
take-append-drop (suc n) [] = refl
take-append-drop (suc n) (x ∷ xs) = ap (λ ys. x ∷ ys) (take-append-drop n xs)

pub length-drop {ℓ} : {A : Type ℓ} (n : ℕ) (xs : List A) → length (drop n xs) ≡ length xs - n
length-drop zero xs = omega arith
length-drop (suc n) [] = omega arith
length-drop (suc n) (x ∷ xs) = omega (arith, length-drop n xs)

All-drop {ℓ κ} : {A : Type ℓ} (P : A → Type κ) (n : ℕ) (xs : List A) → All P xs → All P (drop n xs)
All-drop P zero xs h = h
All-drop P (suc n) [] h = h
All-drop P (suc n) (x ∷ xs) h = All-drop P n xs h.1

pub start_exact :
    (mode : FailMode) (org : ℕ) (file : File) (db : Db)
    → IsResumable org file db
    → let from = start_row mode db.job in
      let c = start_counters from db.job in
      (c.committed ≡ from)
      × (c.written + c.skipped ≡ from)
      × (from ≤ length file.rows)
      × Covered org (take from file.rows) db.conversations
unfolding start_row start_counters
start_exact restart org file db h = (refl, refl, omega arith, tt)
start_exact resume org file db h = (ground arith, ground (arith, h.accounted), h.within, h.imported)

module _ (org : ℕ) (file : File) where
  -- The rows before `from` and the rows that the attempt wrote are the whole file.
  whole_file :
      (from : ℕ) (c : Counters) (db : Db) (c' : Counters) (db' : Db)
      → Covered org (take from file.rows) db.conversations
      → Written org (drop from file.rows) (length (drop from file.rows)) c db c' db'
      → Covered org file.rows db'.conversations
  whole_file from c db c' db' before w =
      let kept =
        Covered-Keeps org (take from file.rows) db.conversations db'.conversations w.keeps before in
      let both =
        All-append (λ row. has org (key_of row) db'.conversations ≡ true) (take from file.rows)
          (drop from file.rows) kept w.covered in
      rw (take-append-drop from file.rows) at both

  finished :
      (from : ℕ) (c : Counters) (db db0 : Db) (c' : Counters) (db' : Db)
      → db0.conversations ≡ db.conversations
      → (c.committed ≡ from)
        × (c.written + c.skipped ≡ from)
        × (from ≤ length file.rows)
        × Covered org (take from file.rows) db.conversations
      → Written org (drop from file.rows) (length (drop from file.rows)) c db0 c' db'
      → IsImported org file db (set_job succeeded none c' db')
  finished from c db db0 c' db' same (at_from, accounted, within, before) w =
      let rest = length-drop from file.rows in
      record {
        done = refl;
        imported = whole_file from c db0 c' db' (rw same before) w;
        keeps = λ o key p. w.keeps o key (rw same p);
        resume_row = omega (arith, rest, w.committed, at_from, within);
        accounted = omega (arith, rest, w.accounted, accounted, within);
      }

-- An attempt on `stream` that nothing disturbs, in batches of at most the 16383 rows that one
-- INSERT can bind, from any row that the job may rightly resume at, over rows that Postgres
-- takes, succeeds and leaves the whole file imported. It does so on
-- `restart` too, which begins at the top.
pub run-IsImported :
    (mode : FailMode) (batch_rows org : ℕ) (checks : Checks) (file : File) (db : Db)
    → batch_rows ≤ 16383
    → IsResumable org file db
    → All (IsAccepted checks) file.rows
    → file.broken ≡ false
    → IsImported org file db
        (run
          (record { mode = stream; on_fail = mode; batch_rows = batch_rows })
          all_calm
          checks
          org
          file
          db).1
unfolding run finish
run-IsImported mode batch_rows org checks file db few resumable accepted whole =
    let from = start_row mode db.job in
    let c = start_counters from db.job in
    let started = set_job running none c db in
    let rows = drop from file.rows in
    let (c', db', finishes) =
      stream_rows-Finishes checks org batch_rows rows [] 0 c started few (omega arith) tt
        (All-drop (IsAccepted checks) from file.rows accepted) in
    let written =
      stream_rows-Written all_calm checks org batch_rows false rows [] 0 c started c' db'
        finishes in
    let imported =
      finished org file from c db started c' db' refl (start_exact mode org file db resumable)
        written in
    let ends : stream_rows all_calm checks org batch_rows file.broken rows [] 0 c started
        ≡ (ok tt, c', db') =
      rw whole finishes in
    subst (λ o. IsImported org file db (finish o).1) (sym ends) imported
