-- ===== src/Search/StatsCache.antt =====
-- What the cache of `stats` holds for one organisation, and the commands on it. A time is in
-- milliseconds.
use drills.Prelude.{
  ℕ, ◌+◌, Bool, true, false, Option, none, some, List, ◌∷◌, ltb, ◌==◌, if◌then◌else◌,
}
use drills.Search.Messages.{MessageStats}

pub data StatsCacheMode : Type 0 where
  off naive wait_mode stale_mode : StatsCacheMode

pub data StatsSource : Type 0 where
  hit miss wait stale refresh db bypass : StatsSource

pub record Envelope : Type 0 where
  pub stats : MessageStats
  pub computed_at : ℕ
  pub fresh_until : ℕ

pub record StatsAnswer : Type 0 where
  pub stats : MessageStats
  pub source : StatsSource
  pub computed_at : ℕ

-- `statsCounters` has one count for each: an answer, a waiter that gave up, Redis out of reach. The
-- last one is an error of the aggregate.
pub data Outcome : Type 0 where
  answered_with : StatsAnswer → Outcome
  timeout error failed_compute : Outcome

-- The two keys. A token is the request that made it. `stored` is what was written so far.
pub record Entry : Type 0 where
  pub envelope : Envelope
  pub expires_at : ℕ

pub record Lock : Type 0 where
  pub token : ℕ
  pub expires_at : ℕ

pub record Redis : Type 0 where
  pub entry : Option Entry
  pub lock : Option Lock
  pub stored : List Envelope

-- A Redis command: answered, or failed with or without its effect.
pub data Reply : Type 0 where
  answered : Reply
  failed_reply : Bool → Reply

-- What a request waits for. An owner keeps the time at which it took the lock; a request that
-- has its answer already works in the background.
abbrev pub lock_ttl : ℕ
lock_ttl = 10000

abbrev pub wait_ms : ℕ
wait_ms = 5000

abbrev pub stale_ttls : ℕ
stale_ttls = 10

-- GET
unfoldable pub live : ℕ → Option Entry → Option Envelope
live now none = none
live now (some e) = if ltb now e.expires_at then some e.envelope else none

unfoldable pub is_fresh : ℕ → Envelope → Bool
is_fresh now e = ltb now e.fresh_until

-- Is the lock taken?
unfoldable pub is_locked : ℕ → Option Lock → Bool
is_locked now none = false
is_locked now (some l) = ltb now l.expires_at

-- SET NX EX
unfoldable pub set_if_absent : ℕ → ℕ → Redis → Redis
unfolding is_locked
set_if_absent token now r =
    if is_locked now r.lock
    then r
    else record r { lock = some (record { token = token; expires_at = now + lock_ttl }) }

-- delIfEquals
unfoldable pub del_if_equals : ℕ → Redis → Redis
del_if_equals token r = elim r.lock [
  | none ↦ r
  | some l ↦ if l.token == token then record r { lock = none } else r
]

unfoldable pub put : Envelope → ℕ → Redis → Redis
put e expires_at r = record r {
  entry = some (record { envelope = e; expires_at = expires_at });
  stored = e ∷ r.stored;
}

-- A command whose answer is not used.
abbrev pub applied : Reply → Redis → Redis → Redis
applied answered before after = after
applied (failed_reply true) before after = after
applied (failed_reply false) before after = before
