-- ===== src/Ingest/Sound.antt =====
-- The invariant of interleaved deliveries: every guard and result names the right conversation.
use drills.Prelude.{
  ℕ, ◌≤◌, ◌<◌, ◌≡◌, refl, sym, ap, subst, ◌∙◌, Bool, none, some, List, [], ◌∷◌, ◌⊎◌, inl, inr,
  arith, ◌==◌, ==_iff, Bool-cases,
}
use drills.Prelude.Result.{ok, err, Result-cases}
use drills.Prelude.Text.{Text}
use drills.Tenancy.{Controls}
use drills.Ingest.Store.{Db, lookup}
use drills.Ingest.Write.{Config, Stale, IngestResult, write_event}
use drills.Ingest.Effect.{Effect, write_event-Effect, write_event-err}
use drills.Ingest.Once.{count, Effect-lookup, Added-lookup, Effect-count, Effect-next_id}
use drills.Ingest.Guarded.{
  id_in, named, maker, Guarded, Answers, put-Guarded, start-Guarded, start-named, get_guard-named,
  read-maker, settle-Guarded,
}
use drills.Ingest.Guard.{
  Guards, put, Command, Phase, idle, reading, writing, settling, done, start, read, settle, Move,
  starts, reads, settles, writes, expires, Delivery, State, enter, starting, getting, committing,
  ending, step, steps,
}

entered :
    (n : ℕ) (phase : Phase) (phases : ℕ → Phase) (m : ℕ)
    → ((m ≡ n) × (enter n phase phases m ≡ phase)) ⊎ (enter n phase phases m ≡ phases m)
unfolding enter
entered n phase phases m = elim (Bool-cases (m == n)) [
  | inl same ↦ inl ((==_iff m n).0 same, rw same refl)
  | inr other ↦ inr (rw other refl)
]

module _ (deliveries : ℕ → Delivery) where
  -- Every result names the event's conversation, and no two deliveries created the same one.
  unfoldable pub IsSound : State → Type 0
  IsSound s =
      Guarded s.guards s.db
      × ((n : ℕ) → Answers (deliveries n).org_id (deliveries n).event.event_id (s.phases n) s.db)
      × ((n id : ℕ) → maker (s.phases n) ≡ some id → id < s.db.next_id)
      × ((n m id : ℕ) → maker (s.phases n) ≡ some id → maker (s.phases m) ≡ some id → n ≡ m)
      × ((org : ℕ) (key : Text) → count org key s.db.conversations ≤ 1)

  -- Delivery `n` enters a phase whose names are right.
  IsSound-enter :
      (db : Db) (guards : Guards) (phases : ℕ → Phase) (n : ℕ) (phase : Phase)
      → IsSound (record { db = db; guards = guards; phases = phases })
      → Answers (deliveries n).org_id (deliveries n).event.event_id phase db
      → ((id : ℕ) → maker phase ≡ some id → id < db.next_id)
      → ((m id : ℕ) → maker phase ≡ some id → maker (phases m) ≡ some id → m ≡ n)
      → IsSound (record { db = db; guards = guards; phases = enter n phase phases })
  unfolding IsSound
  IsSound-enter db guards phases n phase (guarded, names, low, own, once) answers made_low
        made_own =
      (
        guarded,
        λ m id is. elim (entered n phase phases m) [
          | inl (same, here) ↦ subst (found id) (sym same) (answers id (sym (ap named here) ∙ is))
          | inr there ↦ names m id (sym (ap named there) ∙ is)
        ],
        λ m id is. elim (entered n phase phases m) [
          | inl (same, here) ↦ made_low id (sym (ap maker here) ∙ is)
          | inr there ↦ low m id (sym (ap maker there) ∙ is)
        ],
        λ i j id is is'. elim (entered n phase phases i) [
          | inl (same, here) ↦ elim (entered n phase phases j) [
            | inl (same', here') ↦ same ∙ sym same'
            | inr there' ↦
                same ∙ sym (made_own j id (sym (ap maker here) ∙ is) (sym (ap maker there') ∙ is'))
          ]
          | inr there ↦ elim (entered n phase phases j) [
            | inl (same', here') ↦
                made_own i id (sym (ap maker here') ∙ is') (sym (ap maker there) ∙ is) ∙ sym same'
            | inr there' ↦ own i j id (sym (ap maker there) ∙ is) (sym (ap maker there') ∙ is')
          ]
        ],
        once,
      )
    where
      found : ℕ → ℕ → Type 0
      found id k =
          lookup (deliveries k).org_id (deliveries k).event.event_id db.conversations ≡ some id

  -- A phase that created nothing.
  IsSound-enter_unmade :
      (db : Db) (guards : Guards) (phases : ℕ → Phase) (n : ℕ) (phase : Phase)
      → IsSound (record { db = db; guards = guards; phases = phases })
      → Answers (deliveries n).org_id (deliveries n).event.event_id phase db
      → maker phase ≡ none
      → IsSound (record { db = db; guards = guards; phases = enter n phase phases })
  IsSound-enter_unmade db guards phases n phase h answers unmade =
      IsSound-enter db guards phases n phase h answers (λ id is. ground (arith, unmade, is))
        (λ m id is is'. ground (arith, unmade, is))

  sound_guards : (s : State) → IsSound s → Guarded s.guards s.db
  unfolding IsSound
  sound_guards s h = h.0

  -- Other guards.
  IsSound-guards :
      (db : Db) (guards guards' : Guards) (phases : ℕ → Phase)
      → IsSound (record { db = db; guards = guards; phases = phases })
      → Guarded guards' db
      → IsSound (record { db = db; guards = guards'; phases = phases })
  unfolding IsSound
  IsSound-guards db guards guards' phases (guarded, names, low, own, once) h =
      (h, names, low, own, once)

  -- The rows after a transaction.
  IsSound-db :
      (db : Db) (guards : Guards) (phases : ℕ → Phase) (org : ℕ) (key : Text)
      (result : IngestResult) (db' : Db)
      → IsSound (record { db = db; guards = guards; phases = phases })
      → Effect org key db result db'
      → IsSound (record { db = db'; guards = guards; phases = phases })
  unfolding IsSound
  IsSound-db db guards phases org key result db' (guarded, names, low, own, once) effect = (
    λ o k id held. Effect-lookup org key db result db' effect o k id (guarded o k id held),
    λ n id is. Effect-lookup org key db result db' effect _ _ id (names n id is),
    λ n id is. omega (arith, low n id is, Effect-next_id org key db result db' effect),
    own,
    λ o k. Effect-count org key db result db' effect o k (once o k),
  )

  -- A result comes back from a transaction.
  IsSound-Effect :
      (s : State) (n : ℕ) (owns : Bool) (result : IngestResult) (db' : Db)
      → IsSound s
      → Effect (deliveries n).org_id (deliveries n).event.event_id s.db result db'
      → IsSound (record s { db = db'; phases = enter n (settling owns (ok result)) s.phases })
  unfolding IsSound
  IsSound-Effect s n owns result db' h (inl (same, next, unmade, found)) =
      let d = deliveries n in
      IsSound-enter_unmade db' s.guards s.phases n (settling owns (ok result))
        (IsSound-db s.db s.guards s.phases d.org_id d.event.event_id result db' h
          (inl (same, next, unmade, found)))
        (λ id is. elim found [
          | inl nothing ↦ ground (arith, nothing, is)
          | inr named_it ↦ ap (lookup d.org_id d.event.event_id) same ∙ sym named_it ∙ is
        ])
        unmade
  IsSound-Effect s n owns result db' h (inr added) =
      let d = deliveries n in
      let (fresh, (c, grown, next, new, own, event), named_it, made_it) = added in
      IsSound-enter db' s.guards s.phases n (settling owns (ok result))
        (IsSound-db s.db s.guards s.phases d.org_id d.event.event_id result db' h (inr added))
        (λ id is. Added-lookup d.org_id d.event.event_id s.db result db' added ∙ sym named_it ∙ is)
        (λ id is. ground (arith, next, made_it, is))
        (λ m id is is'. ground (arith, h.2 m id is', made_it, is))

  module _ (cfg : Config) where
    starting-IsSound :
        (n : ℕ) (command : Command) (s : State) (phase : Phase)
        → IsSound s
        → IsSound (starting cfg deliveries n command s phase)
    unfolding starting IsSound
    starting-IsSound n command s idle h =
        let d = deliveries n in
        let (unnamed, unmade) = start-named cfg command d.org_id d.event.event_id s.guards in
        IsSound-enter_unmade s.db (start cfg command d.org_id d.event.event_id s.guards).1 s.phases
          n (start cfg command d.org_id d.event.event_id s.guards).0
          (IsSound-guards s.db s.guards _ s.phases h
            (start-Guarded cfg command d.org_id d.event.event_id s.guards s.db h.0))
          (λ id is. ground (arith, unnamed, is)) unmade
    starting-IsSound n command s reading h = h
    starting-IsSound n command s (writing owns) h = h
    starting-IsSound n command s (settling owns result) h = h
    starting-IsSound n command s (done result) h = h

    getting-IsSound :
        (n : ℕ) (command : Command) (s : State) (phase : Phase)
        → IsSound s
        → IsSound (getting cfg deliveries n command s phase)
    unfolding getting IsSound read
    getting-IsSound n command s idle h = h
    getting-IsSound n command s reading h =
        let d = deliveries n in
        IsSound-enter_unmade s.db s.guards s.phases n
          (read cfg command d.org_id d.event.event_id s.guards) h
          (λ id is. h.0 d.org_id d.event.event_id id (get_guard-named cfg command _ id is))
          (read-maker cfg command d.org_id d.event.event_id s.guards)
    getting-IsSound n command s (writing owns) h = h
    getting-IsSound n command s (settling owns result) h = h
    getting-IsSound n command s (done result) h = h

    ending-IsSound :
        (n : ℕ) (command : Command) (s : State) (phase : Phase)
        → s.phases n ≡ phase
        → IsSound s
        → IsSound (ending cfg deliveries n command s phase)
    unfolding ending IsSound
    ending-IsSound n command s idle at h = h
    ending-IsSound n command s reading at h = h
    ending-IsSound n command s (writing owns) at h = h
    ending-IsSound n command s (settling owns result) at h =
        let d = deliveries n in
        let (guarded, names, low, own, once) = h in
        let answers = λ (id : ℕ) (is : id_in result ≡ some id). names n id (ap named at ∙ is) in
        IsSound-enter s.db (settle command owns d.org_id d.event.event_id result s.guards) s.phases
          n (done result)
          (IsSound-guards s.db s.guards _ s.phases h (
            settle-Guarded command owns d.org_id d.event.event_id result s.guards s.db guarded
              answers))
          answers (λ id is. low n id (ap maker at ∙ is))
          (λ m id is is'. own m n id is' (ap maker at ∙ is))
    ending-IsSound n command s (done result) at h = h

    committing-IsSound :
        (n : ℕ) (controls : ℕ → Controls) (stale : ℕ → Stale) (now period : ℕ) (s : State)
        (phase : Phase)
        → IsSound s
        → IsSound (committing cfg deliveries n controls stale now period s phase)
    unfolding committing
    committing-IsSound n controls stale now period s idle h = h
    committing-IsSound n controls stale now period s reading h = h
    committing-IsSound n controls stale now period s (writing owns) h =
        let d = deliveries n in
        elim (Result-cases (write_event cfg controls stale d.org_id d.event now period s.db).0) [
          | inl (e, threw) ↦ rw threw (
              rw (write_event-err cfg controls stale d.org_id d.event now period s.db e threw) (
                IsSound-enter_unmade s.db s.guards s.phases n (settling owns (err e)) h
                  (λ id is. ground arith) refl))
          | inr (result, came) ↦ rw came (
              IsSound-Effect s n owns result
                (write_event cfg controls stale d.org_id d.event now period s.db).1 h
                (write_event-Effect cfg controls stale d.org_id d.event now period s.db result
                  came))
        ]
    committing-IsSound n controls stale now period s (settling owns result) h = h
    committing-IsSound n controls stale now period s (done result) h = h

    step-IsSound : (move : Move) (s : State) → IsSound s → IsSound (step cfg deliveries move s)
    unfolding step
    step-IsSound (starts n command) s h = starting-IsSound n command s (s.phases n) h
    step-IsSound (reads n command) s h = getting-IsSound n command s (s.phases n) h
    step-IsSound (writes n controls stale now period) s h =
        committing-IsSound n controls stale now period s (s.phases n) h
    step-IsSound (settles n command) s h = ending-IsSound n command s (s.phases n) refl h
    step-IsSound (expires org key) s h =
        IsSound-guards s.db s.guards (put org key none s.guards) s.phases h
          (put-Guarded org key none s.guards s.db (sound_guards s h) (λ id no. ground arith))

    pub steps-IsSound :
        (moves : List Move) (s : State) → IsSound s → IsSound (steps cfg deliveries moves s)
    unfolding steps
    steps-IsSound [] s h = h
    steps-IsSound (move ∷ moves) s h =
        steps-IsSound moves (step cfg deliveries move s) (step-IsSound move s h)
