-- ===== src/Ingest/Race.antt =====
-- Any number of deliveries whose steps interleave in any order: what they are answered.
use drills.Prelude.{ℕ, ◌≤◌, ◌≡◌, sym, subst₂, ◌∙◌, none, some, List, arith}
use drills.Prelude.Text.{Text}
use drills.Ingest.Store.{Db, lookup}
use drills.Ingest.Write.{Config}
use drills.Ingest.Effect.{made}
use drills.Ingest.Once.{count, lookup-some-count}
use drills.Ingest.Guarded.{named, maker}
use drills.Ingest.Sound.{IsSound, steps-IsSound}
use drills.Ingest.Guard.{Phase, idle, Move, Delivery, State, steps}

-- No guard, and no delivery has begun.
unfoldable pub begin : Db → State
begin db = record { db = db; guards = λ org key. none; phases = λ n. idle }

module _ (cfg : Config) (deliveries : ℕ → Delivery) (moves : List Move) (db : Db)
    (once : (org : ℕ) (key : Text) → count org key db.conversations ≤ 1) where
  run-IsSound : IsSound deliveries (steps cfg deliveries moves (begin db))
  unfolding IsSound begin
  run-IsSound = steps-IsSound deliveries cfg moves (begin db) (
    λ org key id held. ground arith,
    λ n id is. ground arith,
    λ n id is. ground arith,
    λ n m id is is'. ground arith,
    once,
  )

  -- From a table where no event has two conversations, and with any deliveries, started,
  -- written, settled and failing in any order in any mode, with guards that expire at any
  -- time, no event has two.
  run-count :
      (org : ℕ) (key : Text)
      → count org key (steps cfg deliveries moves (begin db)).db.conversations ≤ 1
  unfolding IsSound
  run-count = run-IsSound.4

  -- From a table where no event has two conversations, the result of a delivery, through a guard or
  -- through Postgres and however deliveries interleave, names the one conversation of its event.
  pub named-lookup :
      (n id : ℕ)
      → named ((steps cfg deliveries moves (begin db)).phases n) ≡ some id
      → (lookup
            (deliveries n).org_id
            (deliveries n).event.event_id
            (steps cfg deliveries moves (begin db)).db.conversations
          ≡ some id)
        × (count
              (deliveries n).org_id
              (deliveries n).event.event_id
              (steps cfg deliveries moves (begin db)).db.conversations
            ≡ 1)
  unfolding IsSound
  named-lookup n id is =
      let found = run-IsSound.1 n id is in
      (
        found,
        omega (
          arith,
          run-count (deliveries n).org_id (deliveries n).event.event_id,
          lookup-some-count _ _ _ id found,
        ),
      )

  maker-named : (phase : Phase) (id : ℕ) → maker phase ≡ some id → named phase ≡ some id
  unfolding made
  maker-named phase id is = ground arith

  -- From a table where no event has two conversations, of all deliveries of one event, however they
  -- interleave, at most one is answered that it created the conversation.
  pub created_once :
      (n m i j : ℕ)
      → maker ((steps cfg deliveries moves (begin db)).phases n) ≡ some i
      → maker ((steps cfg deliveries moves (begin db)).phases m) ≡ some j
      → (deliveries n).org_id ≡ (deliveries m).org_id
      → (deliveries n).event.event_id ≡ (deliveries m).event.event_id
      → n ≡ m
  unfolding IsSound
  created_once n m i j is is' org event =
      let cs = (steps cfg deliveries moves (begin db)).db.conversations in
      let found = run-IsSound.1 n i (maker-named _ i is) in
      let found' = run-IsSound.1 m j (maker-named _ j is') in
      run-IsSound.3 n m i is
        (is' ∙ sym (subst₂ (λ o k. lookup o k cs ≡ some j) (sym org) (sym event) found') ∙ found)
