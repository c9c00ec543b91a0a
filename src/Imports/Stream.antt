-- ===== src/Imports/Stream.antt =====
-- The two loops over a file: a loop that ends well has written every row, and one that nothing
-- disturbs ends well.
use drills.Prelude.{
  ℕ, suc, ◌≡◌, refl, subst₂, Bool, true, false, List, [], ◌∷◌, ◌++◌, length, ltb, arith, Bool-cases,
  inl, inr,
}
use mathlib.Core.List.{append-nil, append_assoc}
use native.Mathlib.Nat.{zero-add}
use drills.Prelude.Result.{ok, err}
use drills.Imports.Batch.{CsvRow, Counters, Db, Checks, Faults, Outcome}
use drills.Imports.Run.{Weather, read_one, and_then, flush, stream_rows, buffer_rows}
use drills.Imports.Progress.{
  Written, Written-nil, Written-append, Written-read_one, write_batch-Written,
}

and_then-ok :
    (o : Outcome) (next : Counters → Db → Outcome) (c' : Counters) (db' : Db)
    → and_then o next ≡ (ok tt, c', db')
    → (c : Counters) × (db : Db) × (o ≡ (ok tt, c, db)) × (next c db ≡ (ok tt, c', db'))
and_then-ok (ok _, c, db) next c' db' h = (c, db, refl, h)
and_then-ok (err e, c, db) next c' db' h = cc

pub flush-Written :
    (faults : Faults) (checks : Checks) (org : ℕ) (rows : List CsvRow) (c : Counters) (db : Db)
    (c' : Counters) (db' : Db)
    → flush faults checks org rows c db ≡ (ok tt, c', db')
    → Written org rows 0 c db c' db'
unfolding flush
flush-Written faults checks org [] c db c' db' h =
    let same : (c ≡ c') × (db ≡ db') = ground arith in
    subst₂ (λ x y. Written org [] 0 c db x y) same.0 same.1 (Written-nil org c db)
flush-Written faults checks org (row ∷ rows) c db c' db' h =
    write_batch-Written faults checks org (row ∷ rows) c db c' db' h

module _ (weather : Weather) (checks : Checks) (org : ℕ) where
  pub stream_rows-Written :
      (batch_rows : ℕ) (broken : Bool) (rows batch : List CsvRow) (n : ℕ) (c : Counters) (db : Db)
      (c' : Counters) (db' : Db)
      → stream_rows weather checks org batch_rows broken rows batch n c db ≡ (ok tt, c', db')
      → Written org (batch ++ rows) (length rows) c db c' db'
  unfolding stream_rows
  stream_rows-Written batch_rows true [] batch n c db c' db' h = cc
  stream_rows-Written batch_rows false [] batch n c db c' db' h =
      rw append-nil (flush-Written (weather n) checks org batch c db c' db' h)
  stream_rows-Written batch_rows broken (row ∷ rows) batch n c db c' db' h =
      elim (Bool-cases (ltb (length (batch ++ row ∷ [])) batch_rows)) [
        | inl wait ↦
            let later =
              stream_rows-Written batch_rows broken rows (batch ++ row ∷ []) n (read_one c) db c'
                db' (rw (wait, stream_rows) at h) in
            Written-read_one org _ _ c db c' db' (rw append_assoc at later)
        | inr full ↦
            let (c1, db1, flushed, rest) = and_then-ok _ _ c' db' (rw (full, stream_rows) at h) in
            let now =
              flush-Written (weather n) checks org (batch ++ row ∷ []) (read_one c) db c1 db1
                flushed in
            let later = stream_rows-Written batch_rows broken rows [] (suc n) c1 db1 c' db' rest in
            let both =
              Written-append org (batch ++ row ∷ []) rows 0 (length rows) (read_one c) db c1 db1 c'
                db' now later in
            Written-read_one org _ _ c db c' db' (rw (append_assoc, zero-add) at both)
      ]

  pub buffer_rows-Written :
      (rows : List CsvRow) (n : ℕ) (c : Counters) (db : Db) (c' : Counters) (db' : Db)
      → buffer_rows weather checks org rows n c db ≡ (ok tt, c', db')
      → Written org rows (length rows) c db c' db'
  unfolding buffer_rows
  buffer_rows-Written [] n c db c' db' h =
      let same : (c ≡ c') × (db ≡ db') = ground arith in
      subst₂ (λ x y. Written org [] 0 c db x y) same.0 same.1 (Written-nil org c db)
  buffer_rows-Written (row ∷ rows) n c db c' db' h =
      let (c1, db1, written, rest) = and_then-ok _ _ c' db' h in
      let now =
        write_batch-Written (weather n) checks org (row ∷ []) (read_one c) db c1 db1 written in
      let later = buffer_rows-Written rows (suc n) c1 db1 c' db' rest in
      let both =
        Written-append org (row ∷ []) rows 0 (length rows) (read_one c) db c1 db1 c' db' now
          later in
      Written-read_one org _ _ c db c' db' (rw zero-add at both)
