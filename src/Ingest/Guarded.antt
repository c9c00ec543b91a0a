-- ===== src/Ingest/Guarded.antt =====
-- What the steps of a delivery do to the guards, and which conversation a phase names.
use drills.Prelude.{
  ℕ, ◌≡◌, refl, sym, subst₂, ◌&&◌, ◌∙◌, Bool, true, false, Option, none, some, inl, inr, arith,
  ◌==◌, Option-cases, Bool-cases,
}
use drills.Prelude.Result.{Result, ok, err}
use drills.Prelude.Text.{Text, text_eq, text_eq_iff}
use drills.Ingest.Store.{Db, IngestError, lookup}
use drills.Ingest.Write.{Config, uses_redis, IngestResult}
use drills.Ingest.Effect.{made}
use drills.Ingest.Guard.{
  Held, pending_id, held_id, Guards, put, Command, answered, failed, Phase, idle, reading, writing,
  settling, done, start, set_guard, get_guard, unheld, read, settle, written_back,
}

abbrev pub id_in : Result IngestError IngestResult → Option ℕ
id_in (err e) = none
id_in (ok result) = result.conversation_id

abbrev pub made_in : Result IngestError IngestResult → Option ℕ
made_in (err e) = none
made_in (ok result) = made result

-- The conversation that a delivery's result names, and the one that it created.
abbrev pub named : Phase → Option ℕ
named idle = none
named reading = none
named (writing owns) = none
named (settling owns result) = id_in result
named (done result) = id_in result

abbrev pub maker : Phase → Option ℕ
maker idle = none
maker reading = none
maker (writing owns) = none
maker (settling owns result) = made_in result
maker (done result) = made_in result

-- Guards and results name the event's conversation.
abbrev pub Guarded : Guards → Db → Type 0
Guarded guards db =
    (org : ℕ) (key : Text) (id : ℕ)
    → guards org key ≡ some (held_id id)
    → lookup org key db.conversations ≡ some id

abbrev pub Answers : ℕ → Text → Phase → Db → Type 0
Answers org key phase db =
    (id : ℕ) → named phase ≡ some id → lookup org key db.conversations ≡ some id

pub put-Guarded :
    (org : ℕ) (key : Text) (held : Option Held) (guards : Guards) (db : Db)
    → Guarded guards db
    → ((id : ℕ) → held ≡ some (held_id id) → lookup org key db.conversations ≡ some id)
    → Guarded (put org key held guards) db
put-Guarded org key held guards db h new org' key' id there =
    elim (Bool-cases (org' == org && text_eq key' key)) [
      | inl same ↦ moved (new id (sym (rw same refl) ∙ there)) same
      | inr other ↦ h org' key' id (sym (rw other refl) ∙ there)
    ]
  where
    moved :
        lookup org key db.conversations ≡ some id
        → (org' == org && text_eq key' key) ≡ true
        → lookup org' key' db.conversations ≡ some id
    moved found same =
        subst₂ (λ o k. lookup o k db.conversations ≡ some id) (ground arith)
          (ground (arith, text_eq_iff key' key)) found

put_pending-Guarded :
    (org : ℕ) (key : Text) (guards : Guards) (db : Db)
    → Guarded guards db
    → Guarded (put org key (some pending_id) guards) db
put_pending-Guarded org key guards db h =
    put-Guarded org key (some pending_id) guards db h (λ id no. ground arith)

set_guard-Guarded :
    (command : Command) (org : ℕ) (key : Text) (guards : Guards) (db : Db) (held : Option Held)
    → Guarded guards db
    → Guarded (set_guard command org key guards held).1 db
unfolding set_guard
set_guard-Guarded answered org key guards db none h = put_pending-Guarded org key guards db h
set_guard-Guarded answered org key guards db (some held) h = h
set_guard-Guarded (failed true) org key guards db none h = put_pending-Guarded org key guards db h
set_guard-Guarded (failed true) org key guards db (some held) h = h
set_guard-Guarded (failed false) org key guards db held h = h

pub start-Guarded :
    (cfg : Config) (command : Command) (org : ℕ) (key : Text) (guards : Guards) (db : Db)
    → Guarded guards db
    → Guarded (start cfg command org key guards).1 db
unfolding start
start-Guarded cfg command org key guards db h = elim (Bool-cases (uses_redis cfg.idempotency)) [
  | inl guarded ↦ rw guarded (set_guard-Guarded command org key guards db (guards org key) h)
  | inr free ↦ rw free h
]

pub start-named :
    (cfg : Config) (command : Command) (org : ℕ) (key : Text) (guards : Guards)
    → (named (start cfg command org key guards).0 ≡ none)
      × (maker (start cfg command org key guards).0 ≡ none)
unfolding start set_guard
start-named cfg command org key guards = ground arith

-- What the GET hands out is the id in the guard.
pub get_guard-named :
    (cfg : Config) (command : Command) (held : Option Held) (id : ℕ)
    → named (get_guard cfg command held) ≡ some id
    → held ≡ some (held_id id)
unfolding get_guard unheld
get_guard-named cfg command held id names = ground arith

pub read-maker :
    (cfg : Config) (command : Command) (org : ℕ) (key : Text) (guards : Guards)
    → maker (read cfg command org key guards) ≡ none
unfolding read get_guard unheld made
read-maker cfg command org key guards = ground arith

written_back-Guarded :
    (org : ℕ) (key : Text) (result : Result IngestError IngestResult) (guards : Guards) (db : Db)
    → Guarded guards db
    → Answers org key (done result) db
    → Guarded (written_back org key result guards) db
unfolding written_back
written_back-Guarded org key (err e) guards db h k =
    put-Guarded org key none guards db h (λ id no. ground arith)
written_back-Guarded org key (ok result) guards db h k =
    elim (Option-cases result.conversation_id) [
      | inl nothing ↦ rw nothing h
      | inr (id, named) ↦
          rw named
            (put-Guarded org key (some (held_id id)) guards db h (λ i same. k i (named ∙ cc)))
    ]

pub settle-Guarded :
    (command : Command) (owns : Bool) (org : ℕ) (key : Text)
    (result : Result IngestError IngestResult) (guards : Guards) (db : Db)
    → Guarded guards db
    → Answers org key (done result) db
    → Guarded (settle command owns org key result guards) db
unfolding settle
settle-Guarded command false org key result guards db h k = h
settle-Guarded answered true org key result guards db h k =
    written_back-Guarded org key result guards db h k
settle-Guarded (failed true) true org key result guards db h k =
    written_back-Guarded org key result guards db h k
settle-Guarded (failed false) true org key result guards db h k = h
