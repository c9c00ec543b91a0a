-- ===== src/Imports/Keys.antt =====
-- The keys of a file's rows in the table of conversations: what an insert adds and what it keeps.
use drills.Prelude.{ℕ, ◌≤◌, ◌≡◌, refl, true, List, [], ◌∷◌, length, length-append, All, arith}
use drills.Prelude.Text.{Text, text_eq_refl}
use drills.Imports.Batch.{CsvRow, Conversation, Db, key_of, has, insert_row, insert_rows}

-- Every row's key is the key of a conversation of the organisation.
abbrev pub Covered : ℕ → List CsvRow → List Conversation → Type 0
Covered org rows convs = All (λ row. has org (key_of row) convs ≡ true) rows

-- No key is lost.
abbrev pub Keeps : List Conversation → List Conversation → Type 0
Keeps convs convs' = (org : ℕ) (key : Text) → has org key convs ≡ true → has org key convs' ≡ true

pub Covered-Keeps :
    (org : ℕ) (rows : List CsvRow) (convs convs' : List Conversation)
    → Keeps convs convs'
    → Covered org rows convs
    → Covered org rows convs'
Covered-Keeps org [] convs convs' k h = tt
Covered-Keeps org (row ∷ rows) convs convs' k h =
    (k org (key_of row) h.0, Covered-Keeps org rows convs convs' k h.1)

insert_row-Keeps :
    (org : ℕ) (row : CsvRow) (db : Db)
    → Keeps db.conversations (insert_row org row db).1.conversations
unfolding insert_row has
insert_row-Keeps org row db org' key h = ground arith

insert_row-has :
    (org : ℕ) (row : CsvRow) (db : Db)
    → has org (key_of row) (insert_row org row db).1.conversations ≡ true
unfolding insert_row has
insert_row-has org row db = ground (arith, text_eq_refl (key_of row))

pub insert_rows-Keeps :
    (org : ℕ) (rows : List CsvRow) (db : Db)
    → Keeps db.conversations (insert_rows org rows db).1.conversations
unfolding insert_rows
insert_rows-Keeps org [] db org' key h = h
insert_rows-Keeps org (row ∷ rows) db org' key h =
    insert_rows-Keeps org rows (insert_row org row db).1 org' key
      (insert_row-Keeps org row db org' key h)

pub insert_rows-Covered :
    (org : ℕ) (rows : List CsvRow) (db : Db)
    → Covered org rows (insert_rows org rows db).1.conversations
unfolding insert_rows
insert_rows-Covered org [] db = tt
insert_rows-Covered org (row ∷ rows) db =
    let db' = (insert_row org row db).1 in
    (
      insert_rows-Keeps org rows db' org (key_of row) (insert_row-has org row db),
      insert_rows-Covered org rows db',
    )

insert_row-length : (org : ℕ) (row : CsvRow) (db : Db) → length (insert_row org row db).0 ≤ 1
unfolding insert_row
insert_row-length org row db = ground arith

-- No more rows land than the statement holds.
pub insert_rows-length :
    (org : ℕ) (rows : List CsvRow) (db : Db) → length (insert_rows org rows db).0 ≤ length rows
unfolding insert_rows
insert_rows-length org [] db = omega arith
insert_rows-length org (row ∷ rows) db =
    let (landed, db') = insert_row org row db in
    omega (
      arith,
      length-append landed (insert_rows org rows db').0,
      insert_row-length org row db,
      insert_rows-length org rows db',
    )

-- Rows that are all there already change nothing.
pub insert_rows_again :
    (org : ℕ) (rows : List CsvRow) (db : Db)
    → Covered org rows db.conversations
    → insert_rows org rows db ≡ ([], db)
unfolding insert_rows insert_row
insert_rows_again org [] db h = refl
insert_rows_again org (row ∷ rows) db h = rw h.0 (rw (insert_rows_again org rows db h.1))
