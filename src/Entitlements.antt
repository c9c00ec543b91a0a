-- ===== src/Entitlements.antt =====
-- The cache of an organisation's plan: `resolve`, `load`, `setPlan`, `invalidate` and
-- `consumeIngest` of apps/backend/src/entitlements/entitlements.service.ts, for one
-- organisation and its Redis key.
use drills.Prelude.{ℕ, ◌+◌, Bool, true, false, Option, none, some, ltb, if◌then◌else◌}
use drills.Prelude.Result.{Result, ok, err}
pub mod Age
pub mod ApiKey
pub mod Interceptor
mod Laws
mod Tests

pub data CacheMode : Type 0 where
  off ttl invalidate notify : CacheMode

pub data Plan : Type 0 where
  free basic pro : Plan

pub record Entitlements : Type 0 where
  pub plan : Option Plan
  pub ingest_per_minute : Option ℕ
  pub loaded_at : ℕ

pub data LookupSource : Type 0 where
  hit miss db error : LookupSource

pub record Resolved : Type 0 where
  pub entitlements : Entitlements
  pub source : LookupSource

-- The key's value, until it expires. The JSON of an entry is read back as it was written.
pub record Entry : Type 0 where
  pub value : Entitlements
  pub expires_at : ℕ

-- The organisation's plan, if there is such an organisation, and its key.
pub record World : Type 0 where
  pub plan : Option Plan
  pub entry : Option Entry

-- A Redis command: answered, or failed with or without its effect.
pub data Reply : Type 0 where
  answered : Reply
  failed : Bool → Reply

unfoldable pub live : ℕ → Option Entry → Option Entitlements
live now none = none
live now (some e) = if ltb now e.expires_at then some e.value else none

unfoldable pub limit_of : (Plan → Option ℕ) → Option Plan → Option ℕ
limit_of limits none = none
limit_of limits (some plan) = limits plan

-- `load`, by the table `plan_limits`.
unfoldable pub load : (Plan → Option ℕ) → ℕ → World → Entitlements
unfolding limit_of
load limits now w = record {
  plan = w.plan;
  ingest_per_minute = limit_of limits w.plan;
  loaded_at = now;
}

unfoldable pub counted : LookupSource → Entitlements → Resolved
counted source e = record { entitlements = e; source = source }

unfoldable pub found : Entitlements → Option Entitlements → Resolved
unfolding counted
found fresh none = counted miss fresh
found fresh (some e) = counted hit e

unfoldable pub get_or_load : Reply → Entitlements → Option Entitlements → Resolved
unfolding found
get_or_load answered fresh cached = found fresh cached
get_or_load (failed applied) fresh cached = counted error fresh

-- `resolve` up to the SET: the GET at `now`, and the load, if there is one, at `later`.
unfoldable pub resolve_read : CacheMode → Reply → (Plan → Option ℕ) → ℕ → ℕ → World → Resolved
unfolding counted get_or_load live
resolve_read off reply limits now later w = counted db (load limits later w)
resolve_read ttl reply limits now later w =
    get_or_load reply (load limits later w) (live now w.entry)
resolve_read invalidate reply limits now later w =
    get_or_load reply (load limits later w) (live now w.entry)
resolve_read notify reply limits now later w =
    get_or_load reply (load limits later w) (live now w.entry)

unfoldable pub put : ℕ → Reply → Entitlements → World → World
put expires_at answered e w = record w {
  entry = some (record { value = e; expires_at = expires_at });
}
put expires_at (failed true) e w = record w {
  entry = some (record { value = e; expires_at = expires_at });
}
put expires_at (failed false) e w = w

-- The SET after a miss, at `now`, for `ttl_ms`. Its failure is swallowed.
unfoldable pub resolve_store : ℕ → Reply → ℕ → Resolved → World → World
unfolding put
resolve_store ttl_ms reply now r w = elim r.source [
  | miss ↦ put (now + ttl_ms) reply r.entitlements w
  | hit ↦ w
  | db ↦ w
  | error ↦ w
]

-- `invalidate`
unfoldable pub drop_entry : Reply → World → World
drop_entry answered w = record w { entry = none }
drop_entry (failed true) w = record w { entry = none }
drop_entry (failed false) w = w

unfoldable pub after_commit : CacheMode → Reply → World → World
unfolding drop_entry
after_commit off reply w = w
after_commit ttl reply w = w
after_commit invalidate reply w = drop_entry reply w
after_commit notify reply w = drop_entry reply w

-- `onModuleInit`: the listener of `notify` drops the key too, for each change of a plan that it
-- hears of.
unfoldable pub on_notice : CacheMode → Reply → World → World
unfolding drop_entry
on_notice off reply w = w
on_notice ttl reply w = w
on_notice invalidate reply w = w
on_notice notify reply w = drop_entry reply w

pub data NotFound : Type 0 where
  not_found : NotFound

-- `setPlan`: the UPDATE, then the DEL.
unfoldable pub set_plan :
    CacheMode → Reply → (Plan → Option ℕ) → Plan → ℕ → World → Result NotFound Entitlements × World
unfolding after_commit
set_plan mode reply limits plan now w = elim w.plan [
  | none ↦ (err not_found, w)
  | some old ↦
      let w' = after_commit mode reply (record w { plan = some plan }) in
      (ok (load limits now w'), w')
]

-- `consumeIngest`: no decision without a limit, or if the limiter fails.
unfoldable pub consume {ℓ} : {D : Type ℓ} → (ℕ → Option D) → Entitlements → Option D
consume decide e = elim e.ingest_per_minute [ none ↦ none | some limit ↦ decide limit ]
