-- ===== src/Search/Stats.antt =====
-- `stats` and its cache, for one organisation: its value and its lock in Redis, and the
-- requests, each cut at its commands so that others come in between. A time is in
-- milliseconds.
mod Flight
mod Work
mod Writes
mod Spacing
mod Origin
mod Hand
mod Honest
mod Tests
use drills.Prelude.{
  ℕ, ◌+◌, ◌*◌, Bool, true, false, Option, none, some, List, [], ◌∷◌, leb, ltb, ◌==◌, if◌then◌else◌,
}
use drills.Search.Messages.{MessageStats}
use drills.Search.StatsCache.{
  StatsCacheMode, StatsSource, Envelope, StatsAnswer, Outcome, Entry, Lock, Redis, Reply, lock_ttl,
  wait_ms, stale_ttls, live, is_fresh, is_locked, set_if_absent, del_if_equals, put, applied, off,
  naive, wait_mode, stale_mode, hit, miss, wait, stale, refresh, db, bypass, answered_with, timeout,
  error, failed_compute, answered, failed_reply,
}

pub data Phase : Type 0 where
  idle : Phase
  claiming : Option Envelope → ℕ → Phase
  rereading : Option Envelope → ℕ → ℕ → Phase
  computing_only : Bool → Phase
  computing : Option ℕ → Bool → Phase
  storing : Option ℕ → Envelope → ℕ → Phase
  releasing : ℕ → Phase
  polling : ℕ → Phase
  done : Phase

-- One step: the request, the time, the reply of Redis, and what the step alone uses: whether the
-- request bypasses the cache, when the snapshot of the aggregate was taken, whether the aggregate
-- fails, and the TTL less its jitter.
pub record Event : Type 0 where
  pub request : ℕ
  pub now : ℕ
  pub reply : Reply
  pub bypass : Bool
  pub read_at : ℕ
  pub fails : Bool
  pub ttl_ms : ℕ

-- `answer`
abbrev pub answer : StatsSource → Envelope → Option Outcome
answer source e =
    some (answered_with (record { stats = e.stats; source = source; computed_at = e.computed_at }))

abbrev pub Move : Type 0
Move = Phase × Option Outcome

-- After the first GET.
unfoldable pub on_read : StatsCacheMode → ℕ → Option Envelope → Move
unfolding is_fresh
on_read off now cached = (computing_only false, none)
on_read naive now none = (computing none false, none)
on_read naive now (some e) =
    if is_fresh now e then (done, answer hit e) else (computing none false, none)
on_read wait_mode now none = (claiming none (now + wait_ms), none)
on_read wait_mode now (some e) =
    if is_fresh now e then (done, answer hit e) else (claiming none (now + wait_ms), none)
on_read stale_mode now none = (claiming none (now + wait_ms), none)
on_read stale_mode now (some e) =
    if is_fresh now e then (done, answer hit e) else (claiming (some e) 0, none)

-- `stats` up to its first command.
unfoldable pub begin_stats : StatsCacheMode → Event → Redis → Move
unfolding on_read live
begin_stats off e r = (computing_only e.bypass, none)
begin_stats mode e r = if e.bypass then (computing_only true, none) else (elim e.reply [
  | answered ↦ on_read mode e.now (live e.now r.entry)
  | failed_reply applied ↦ (done, some error)
])

-- Another request holds the lock.
abbrev pub on_lost : Option Envelope → ℕ → ℕ → Move
on_lost (some e) deadline now = (done, answer stale e)
on_lost none deadline now =
    if leb deadline now then (done, some timeout) else (polling deadline, none)

-- `claim`, its SET NX.
unfoldable pub claim_lock : Option Envelope → ℕ → Event → Redis → Move × Redis
unfolding set_if_absent
claim_lock cached deadline e r = elim e.reply [
  | failed_reply ran ↦ ((done, some error), if ran then set_if_absent e.request e.now r else r)
  | answered ↦ (
    (if is_locked e.now r.lock
        then on_lost cached deadline e.now
        else (rereading cached deadline e.now, none)),
    set_if_absent e.request e.now r,
  )
]

-- What an owner does that finds the value expired.
abbrev pub on_won : Option Envelope → ℕ → Move
on_won none since = (computing (some since) false, none)
on_won (some e) since = (computing (some since) true, answer refresh e)

abbrev pub on_reread : Option Envelope → ℕ → ℕ → Option Envelope → Move
on_reread cached since now none = on_won cached since
on_reread cached since now (some e) =
    if is_fresh now e then (releasing since, answer hit e) else on_won cached since

-- `claim`, its GET.
unfoldable pub reread : Option Envelope → ℕ → Event → Redis → Move
unfolding live
reread cached since e r = elim e.reply [
  | failed_reply ran ↦ (done, some error)
  | answered ↦ on_reread cached since e.now (live e.now r.entry)
]

abbrev pub let_go : Option ℕ → Phase
let_go none = done
let_go (some since) = releasing since

abbrev pub unless_background : Bool → Option Outcome → Option Outcome
unless_background true outcome = none
unless_background false outcome = outcome

abbrev pub keep_ms : StatsCacheMode → ℕ → ℕ
keep_ms stale_mode ttl = ttl * stale_ttls
keep_ms wait_mode ttl = ttl
keep_ms naive ttl = ttl
keep_ms off ttl = ttl

abbrev pub envelope_of : (ℕ → MessageStats) → Event → Envelope
envelope_of aggregate e = record {
  stats = aggregate e.read_at;
  computed_at = e.now;
  fresh_until = e.now + e.ttl_ms;
}

-- `recompute` up to its SET: the step at which the statement's answer is there. Its snapshot is
-- that of `read_at`, and `Date.now()` is the step's time.
unfoldable pub compute : StatsCacheMode → (ℕ → MessageStats) → Option ℕ → Bool → Event → Move
compute mode aggregate owner background e =
    if e.fails then (let_go owner, unless_background background (some failed_compute)) else (
      storing owner (envelope_of aggregate e) (keep_ms mode e.ttl_ms),
      unless_background background (answer miss (envelope_of aggregate e)),
    )

unfoldable pub compute_only : (ℕ → MessageStats) → Bool → Event → Move
compute_only aggregate bypassed e =
    if e.fails
    then (done, some failed_compute)
    else (done, answer (if bypassed then bypass else db) (envelope_of aggregate e))

-- After a waiter's sleep.
unfoldable pub poll : ℕ → Event → Redis → Move
unfolding live
poll deadline e r = elim e.reply [
  | failed_reply ran ↦ (done, some error)
  | answered ↦ elim (live e.now r.entry) [
    | none ↦ (claiming none deadline, none)
    | some v ↦ if is_fresh e.now v then (done, answer wait v) else (claiming none deadline, none)
  ]
]

-- One command of one request.
unfoldable pub advance : StatsCacheMode → (ℕ → MessageStats) → Event → Phase → Redis → Move × Redis
unfolding begin_stats claim_lock reread compute compute_only poll put del_if_equals
advance mode aggregate e idle r = (begin_stats mode e r, r)
advance mode aggregate e (claiming cached deadline) r = claim_lock cached deadline e r
advance mode aggregate e (rereading cached deadline since) r = (reread cached since e r, r)
advance mode aggregate e (computing_only bypassed) r = (compute_only aggregate bypassed e, r)
advance mode aggregate e (computing owner background) r =
    (compute mode aggregate owner background e, r)
advance mode aggregate e (storing owner v keep) r =
    ((let_go owner, none), applied e.reply r (put v (e.now + keep) r))
advance mode aggregate e (releasing since) r =
    ((done, none), applied e.reply r (del_if_equals e.request r))
advance mode aggregate e (polling deadline) r = (poll deadline e r, r)
advance mode aggregate e done r = ((done, none), r)

-- An outcome, and when it was fixed: the client gets it once the lock is released.
pub record Fixed : Type 0 where
  pub at : ℕ
  pub outcome : Outcome

pub record World : Type 0 where
  pub phases : ℕ → Phase
  pub redis : Redis
  pub outcomes : List Fixed

abbrev pub set_phase : ℕ → Phase → (ℕ → Phase) → ℕ → Phase
set_phase p phase phases q = if q == p then phase else phases q

abbrev pub with_outcome : ℕ → Option Outcome → List Fixed → List Fixed
with_outcome now none outcomes = outcomes
with_outcome now (some o) outcomes = record { at = now; outcome = o } ∷ outcomes

unfoldable pub step : StatsCacheMode → (ℕ → MessageStats) → Event → World → World
unfolding advance
step mode aggregate e w =
    let ((phase, outcome), redis) = advance mode aggregate e (w.phases e.request) w.redis in
    record {
      phases = set_phase e.request phase w.phases;
      redis = redis;
      outcomes = with_outcome e.now outcome w.outcomes;
    }

unfoldable pub run : StatsCacheMode → (ℕ → MessageStats) → List Event → World → World
unfolding step
run mode aggregate [] w = w
run mode aggregate (e ∷ es) w = run mode aggregate es (step mode aggregate e w)
