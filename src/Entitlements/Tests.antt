-- ===== src/Entitlements/Tests.antt =====
-- A change from the free plan to pro, with a time to live of thirty seconds.
use drills.Prelude.{
  ℕ, ◌≡◌, ◌≢◌, refl, Option, none, some, [], ◌∷◌, ◌+◌, ◌≤◌, ltb, if◌then◌else◌, arith, List, All,
}
use drills.Entitlements.Age
use drills.Entitlements.Age.{resolve_read-bound}
use drills.Entitlements.{
  off, ttl, invalidate, notify, Plan, free, basic, pro, World, answered, resolve_read,
  resolve_store, get_or_load, found, counted, live, load, set_plan,
}
use drills.Entitlements.Laws.{plan_of, Ask, resolve_all, resolve_store-stale}

abbrev limits : Plan → Option ℕ
limits free = some 60
limits basic = some 600
limits pro = none

abbrev on_free : World
on_free = record { plan = some free; entry = none }

invalidate_ttl : invalidate ≢ ttl
invalidate_ttl h = ground arith

invalidate_off : invalidate ≢ off
invalidate_off h = ground arith

invalidate_notify : invalidate ≢ notify
invalidate_notify h = ground arith

abbrev asks : List Ask
asks =
    record { asked = 20000; loaded = 20010; stored = 20020 }
    ∷ record { asked = 25000; loaded = 25010; stored = 25020 }
    ∷ []

resolve_store-stale_example :
    All
      (λ r. plan_of r ≡ some free)
      (resolve_all invalidate limits 30000 asks (
        resolve_store 30000 answered 30
          (resolve_read invalidate answered limits 0 10 on_free)
          (set_plan invalidate answered limits pro 20 on_free).1))
resolve_store-stale_example =
    resolve_store-stale invalidate limits free pro on_free 0 10 20 30 30000 asks invalidate_off
      invalidate_notify refl refl (omega arith, (omega arith, tt))

-- The organisation pays from 100 on. A request that missed stores what it loaded at 90 only at 120.
history : ℕ → Option Plan
history t = if ltb t 100 then some free else some basic

missed : Age.State
missed = record Age.at_rest {
  pending = Age.resolved invalidate limits history 30000 50 answered 85 90 Age.at_rest ∷ [];
}

missed_late :
    120
    ≤ (Age.resolved invalidate limits history 30000 50 answered 85 90
        Age.at_rest).entitlements.loaded_at
      + 50
unfolding resolve_read get_or_load found counted live load
missed_late = omega arith

stored : Age.Reach invalidate limits history 30000 50 (record missed {
  world =
      resolve_store 30000 answered 120
        (Age.resolved invalidate limits history 30000 50 answered 85 90 Age.at_rest)
        missed.world;
})
unfolding missed
stored =
    Age.next (Age.next Age.start (Age.resolves answered 85 90))
      (Age.stores answered 120 _ [] [] refl missed_late)

resolve_read-bound_example : Age.IsRecent invalidate limits history 30000 50 200 210 (
    Age.resolved invalidate limits history 30000 50 answered 200 210 (record missed {
      world =
          resolve_store 30000 answered 120
            (Age.resolved invalidate limits history 30000 50 answered 85 90 Age.at_rest)
            missed.world;
    }))
resolve_read-bound_example =
    resolve_read-bound invalidate limits history 30000 50 stored answered 200 210
