-- ===== src/Imports/Progress.antt =====
-- What a batch that is written has done, and what one that fails leaves.
use drills.Prelude.{
  ℕ, suc, ◌+◌, ◌≡◌, refl, true, List, [], ◌++◌, length, length-append, All-append, arith,
}
use drills.Prelude.Result.{ok, err}
use drills.Imports.Batch.{
  CsvRow, ImportError, Counters, Db, Checks, Faults, insert_rows, insert_conversations,
  insert_messages, write_batch, count_batch, has, key_of,
}
use drills.Imports.Keys.{
  Covered-Keeps, Covered, Keeps, insert_rows-Keeps, insert_rows-Covered, insert_rows-length,
}

-- After `rows` are written and `reads` records read: the rows are in the table, nothing has
-- left it, the counters count them, and a job's row that agreed with the counters agrees with
-- them still.
pub record Written (org : ℕ) (rows : List CsvRow) (reads : ℕ) (c : Counters) (db : Db)
    (c' : Counters) (db' : Db) : Type 0 where
  pub covered : Covered org rows db'.conversations
  pub keeps : Keeps db.conversations db'.conversations
  pub read : c'.read ≡ c.read + reads
  pub committed : c'.committed ≡ c.committed + length rows
  pub accounted : c'.written + c'.skipped ≡ c.written + c.skipped + length rows
  pub reported : db.job.resume_row ≡ c.committed → db'.job.resume_row ≡ c'.committed

pub Written-nil : (org : ℕ) (c : Counters) (db : Db) → Written org [] 0 c db c db
Written-nil org c db = record {
  covered = tt;
  keeps = λ org' key p. p;
  read = omega arith;
  committed = omega arith;
  accounted = omega arith;
  reported = λ p. p;
}

pub Written-append :
    (org : ℕ) (rows rows' : List CsvRow) (reads reads' : ℕ) (c : Counters) (db : Db) (c' : Counters)
    (db' : Db) (c'' : Counters) (db'' : Db)
    → Written org rows reads c db c' db'
    → Written org rows' reads' c' db' c'' db''
    → Written org (rows ++ rows') (reads + reads') c db c'' db''
Written-append org rows rows' reads reads' c db c' db' c'' db'' w w' = record {
  covered =
      All-append (λ row. has org (key_of row) db''.conversations ≡ true) rows rows'
        (Covered-Keeps org rows db'.conversations db''.conversations w'.keeps w.covered) w'.covered;
  keeps = λ org' key p. w'.keeps org' key (w.keeps org' key p);
  read = omega (arith, w.read, w'.read);
  committed = omega (arith, w.committed, w'.committed, length-append rows rows');
  accounted = omega (arith, w.accounted, w'.accounted, length-append rows rows');
  reported = λ p. w'.reported (w.reported p);
}

-- The record that the writable counts as it takes it.
pub Written-read_one :
    (org : ℕ) (rows : List CsvRow) (reads : ℕ) (c : Counters) (db : Db) (c' : Counters) (db' : Db)
    → Written org rows reads (record c { read = c.read + 1 }) db c' db'
    → Written org rows (suc reads) c db c' db'
Written-read_one org rows reads c db c' db' w = record {
  covered = w.covered;
  keeps = w.keeps;
  read = omega (arith, w.read);
  committed = w.committed;
  accounted = w.accounted;
  reported = w.reported;
}

module _ (faults : Faults) (checks : Checks) (org : ℕ) (rows : List CsvRow) (c : Counters)
    (db : Db) where
  write_batch-ok_shape :
      (c' : Counters) (db' : Db)
      → write_batch faults checks org rows c db ≡ (ok tt, c', db')
      → (c' ≡ count_batch rows (insert_rows org rows db).0 c)
        × (db'.conversations ≡ (insert_rows org rows db).1.conversations)
        × (db'.job.resume_row ≡ c'.committed)
  unfolding write_batch insert_conversations insert_messages
  write_batch-ok_shape c' db' h = ground arith

  pub write_batch-err :
      (e : ImportError) (c' : Counters) (db' : Db)
      → write_batch faults checks org rows c db ≡ (err e, c', db')
      → db' ≡ db
  unfolding write_batch insert_conversations insert_messages
  write_batch-err e c' db' h = ground arith

  pub write_batch-Written :
      (c' : Counters) (db' : Db)
      → write_batch faults checks org rows c db ≡ (ok tt, c', db')
      → Written org rows 0 c db c' db'
  write_batch-Written c' db' h =
      let (counted, convs, resume) = write_batch-ok_shape c' db' h in
      let fits = insert_rows-length org rows db in
      record {
        covered = rw convs (insert_rows-Covered org rows db);
        keeps = λ org' key p. rw convs (insert_rows-Keeps org rows db org' key p);
        read = rw counted (omega arith);
        committed = rw counted refl;
        accounted = rw counted (omega (arith, fits));
        reported = λ p. resume;
      }
