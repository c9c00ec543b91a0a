-- ===== src/Search/Stats/Work.antt =====
-- What an owner knows while it computes.
use drills.Prelude.{
  ℕ, ◌+◌, ◌≤◌, ◌≡◌, refl, Bool, true, false, ◌&&◌, Option, none, some, List, [], ◌∷◌, leb, arith,
}
use drills.Search.Messages.{MessageStats}
use drills.Search.Stats.{
  Phase, idle, claiming, rereading, computing_only, computing, storing, releasing, polling, done,
  Event, on_read, begin_stats, claim_lock, on_reread, reread, let_go, compute, compute_only, poll,
  advance, keep_ms,
}
use drills.Search.StatsCache.{
  StatsCacheMode, off, naive, wait_mode, stale_mode, Envelope, Entry, Redis, live, is_fresh,
}
use drills.Search.Stats.Flight.{lease}

abbrev pub is_single : StatsCacheMode → Bool
is_single off = false
is_single naive = false
is_single wait_mode = true
is_single stale_mode = true

abbrev pub last_fresh : List Envelope → ℕ
last_fresh [] = 0
last_fresh (v ∷ vs) = v.fresh_until

abbrev pub entry_fresh : Option Entry → ℕ
entry_fresh none = 0
entry_fresh (some e) = e.envelope.fresh_until

abbrev pub IsKept : Option Entry → Type 0
IsKept none = Unit
IsKept (some e) = e.envelope.fresh_until ≤ e.expires_at

-- The lock of a request that computes, or has computed and not yet written.
abbrev pub works : Phase → Option ℕ
works idle = none
works (claiming cached deadline) = none
works (rereading cached deadline since) = none
works (computing_only bypassed) = none
works (computing owner background) = owner
works (storing owner v keep) = owner
works (releasing since) = none
works (polling deadline) = none
works done = none

-- Up to when it knows the value to be expired.
abbrev pub bound : ℕ → Phase → ℕ
bound now idle = now
bound now (claiming cached deadline) = now
bound now (rereading cached deadline since) = now
bound now (computing_only bypassed) = now
bound now (computing owner background) = now
bound now (storing owner v keep) = v.computed_at
bound now (releasing since) = now
bound now (polling deadline) = now
bound now done = now

abbrev pub has_lock : Option ℕ → Bool
has_lock none = false
has_lock (some since) = true

-- It has its lock, and what it will write is kept as long as it is fresh.
abbrev pub is_owned : ℕ → Phase → Bool
is_owned now idle = true
is_owned now (claiming cached deadline) = true
is_owned now (rereading cached deadline since) = true
is_owned now (computing_only bypassed) = true
is_owned now (computing owner background) = has_lock owner
is_owned now (storing owner v keep) =
    has_lock owner && leb v.computed_at now && leb v.fresh_until (v.computed_at + keep)
is_owned now (releasing since) = true
is_owned now (polling deadline) = true
is_owned now done = true

pub works-lease : (phase : Phase) (s : ℕ) → works phase ≡ some s → lease phase ≡ some s
works-lease idle s h = absurd (ground (arith, h))
works-lease (claiming cached deadline) s h = absurd (ground (arith, h))
works-lease (rereading cached deadline since) s h = absurd (ground (arith, h))
works-lease (computing_only bypassed) s h = absurd (ground (arith, h))
works-lease (computing owner background) s h = h
works-lease (storing owner v keep) s h = h
works-lease (releasing since) s h = absurd (ground (arith, h))
works-lease (polling deadline) s h = absurd (ground (arith, h))
works-lease done s h = absurd (ground (arith, h))

pub is_owned-later :
    (now later : ℕ) (phase : Phase)
    → now ≤ later
    → is_owned now phase ≡ true
    → is_owned later phase ≡ true
is_owned-later now later idle past h = refl
is_owned-later now later (claiming cached deadline) past h = refl
is_owned-later now later (rereading cached deadline since) past h = refl
is_owned-later now later (computing_only bypassed) past h = refl
is_owned-later now later (computing owner background) past h = h
is_owned-later now later (storing owner v keep) past h = ground (arith, past, h)
is_owned-later now later (releasing since) past h = refl
is_owned-later now later (polling deadline) past h = refl
is_owned-later now later done past h = refl

pub bound-later :
    (now later : ℕ) (phase : Phase) → now ≤ later → bound now phase ≤ bound later phase
bound-later now later idle past = past
bound-later now later (claiming cached deadline) past = past
bound-later now later (rereading cached deadline since) past = past
bound-later now later (computing_only bypassed) past = past
bound-later now later (computing owner background) past = past
bound-later now later (storing owner v keep) past = omega arith
bound-later now later (releasing since) past = past
bound-later now later (polling deadline) past = past
bound-later now later done past = past

on_read-is_owned :
    (mode : StatsCacheMode) (now : ℕ) (cached : Option Envelope)
    → is_single mode ≡ true
    → (is_owned now (on_read mode now cached).0 ≡ true) × (works (on_read mode now cached).0 ≡ none)
unfolding on_read is_fresh
on_read-is_owned off now cached single = absurd (ground (arith, single))
on_read-is_owned naive now cached single = absurd (ground (arith, single))
on_read-is_owned wait_mode now cached single = ground arith
on_read-is_owned stale_mode now cached single = ground arith

begin_stats-is_owned :
    (mode : StatsCacheMode) (e : Event) (r : Redis)
    → is_single mode ≡ true
    → (is_owned e.now (begin_stats mode e r).0 ≡ true) × (works (begin_stats mode e r).0 ≡ none)
unfolding begin_stats
begin_stats-is_owned off e r single = absurd (ground (arith, single))
begin_stats-is_owned naive e r single = absurd (ground (arith, single))
begin_stats-is_owned wait_mode e r single =
    ground (arith, on_read-is_owned wait_mode e.now (live e.now r.entry) single)
begin_stats-is_owned stale_mode e r single =
    ground (arith, on_read-is_owned stale_mode e.now (live e.now r.entry) single)

claim_lock-is_owned :
    (cached : Option Envelope) (deadline : ℕ) (e : Event) (r : Redis)
    → (is_owned e.now (claim_lock cached deadline e r).0.0 ≡ true)
      × (works (claim_lock cached deadline e r).0.0 ≡ none)
unfolding claim_lock
claim_lock-is_owned cached deadline e r = ground arith

-- An owner computes if its GET shows no fresh value, and then none is fresh.
on_reread-works :
    (cached : Option Envelope) (since now : ℕ) (entry : Option Entry) (s : ℕ)
    → IsKept entry
    → works (on_reread cached since now (live now entry)).0 ≡ some s
    → entry_fresh entry ≤ now
unfolding live is_fresh
on_reread-works cached since now none s kept h = omega arith
on_reread-works cached since now (some e) s kept h = ground (arith, kept, h)

reread-works :
    (cached : Option Envelope) (since : ℕ) (e : Event) (r : Redis) (s : ℕ)
    → IsKept r.entry
    → works (reread cached since e r).0 ≡ some s
    → entry_fresh r.entry ≤ bound e.now (reread cached since e r).0
unfolding reread
reread-works cached since e r s kept h =
    ground (arith, h, on_reread-works cached since e.now r.entry s kept)

reread-is_owned :
    (cached : Option Envelope) (since : ℕ) (e : Event) (r : Redis)
    → is_owned e.now (reread cached since e r).0 ≡ true
unfolding reread
reread-is_owned cached since e r = ground arith

keep_ms-le : (mode : StatsCacheMode) (ttl : ℕ) → ttl ≤ keep_ms mode ttl
keep_ms-le off ttl = omega arith
keep_ms-le naive ttl = omega arith
keep_ms-le wait_mode ttl = omega arith
keep_ms-le stale_mode ttl = omega arith

compute-is_owned :
    (mode : StatsCacheMode) (aggregate : ℕ → MessageStats) (owner : Option ℕ) (background : Bool)
    (e : Event)
    → has_lock owner ≡ true
    → is_owned e.now (compute mode aggregate owner background e).0 ≡ true
unfolding compute
compute-is_owned mode aggregate owner background e own =
    ground (arith, own, keep_ms-le mode e.ttl_ms)

compute-bound :
    (mode : StatsCacheMode) (aggregate : ℕ → MessageStats) (owner : Option ℕ) (background : Bool)
    (e : Event)
    → bound e.now (compute mode aggregate owner background e).0 ≡ e.now
unfolding compute
compute-bound mode aggregate owner background e = ground arith

compute-works :
    (mode : StatsCacheMode) (aggregate : ℕ → MessageStats) (owner : Option ℕ) (background : Bool)
    (e : Event) (s : ℕ)
    → works (compute mode aggregate owner background e).0 ≡ some s
    → owner ≡ some s
unfolding compute
compute-works mode aggregate owner background e s h = ground (arith, h)

compute_only-idle :
    (aggregate : ℕ → MessageStats) (bypassed : Bool) (e : Event)
    → (is_owned e.now (compute_only aggregate bypassed e).0 ≡ true)
      × (works (compute_only aggregate bypassed e).0 ≡ none)
unfolding compute_only
compute_only-idle aggregate bypassed e = ground arith

poll-idle :
    (deadline : ℕ) (e : Event) (r : Redis)
    → (is_owned e.now (poll deadline e r).0 ≡ true) × (works (poll deadline e r).0 ≡ none)
unfolding poll
poll-idle deadline e r = ground arith

let_go-idle :
    (now : ℕ) (owner : Option ℕ)
    → (is_owned now (let_go owner) ≡ true) × (works (let_go owner) ≡ none)
let_go-idle now owner = ground arith

pub advance-is_owned :
    (mode : StatsCacheMode) (aggregate : ℕ → MessageStats) (e : Event) (phase : Phase) (r : Redis)
    → is_single mode ≡ true
    → is_owned e.now phase ≡ true
    → is_owned e.now (advance mode aggregate e phase r).0.0 ≡ true
unfolding advance
advance-is_owned mode aggregate e idle r single own = (begin_stats-is_owned mode e r single).0
advance-is_owned mode aggregate e (claiming cached deadline) r single own =
    (claim_lock-is_owned cached deadline e r).0
advance-is_owned mode aggregate e (rereading cached deadline since) r single own =
    reread-is_owned cached since e r
advance-is_owned mode aggregate e (computing_only bypassed) r single own =
    (compute_only-idle aggregate bypassed e).0
advance-is_owned mode aggregate e (computing owner background) r single own =
    compute-is_owned mode aggregate owner background e own
advance-is_owned mode aggregate e (storing owner v keep) r single own = (let_go-idle e.now owner).0
advance-is_owned mode aggregate e (releasing since) r single own = refl
advance-is_owned mode aggregate e (polling deadline) r single own = (poll-idle deadline e r).0
advance-is_owned mode aggregate e done r single own = refl

-- A request that computes after the step knows the value to be expired, and has not written it.
pub advance-works :
    (mode : StatsCacheMode) (aggregate : ℕ → MessageStats) (e : Event) (phase : Phase) (r : Redis)
    (s : ℕ)
    → is_single mode ≡ true
    → IsKept r.entry
    → (works phase ≡ some s → entry_fresh r.entry ≤ bound e.now phase)
    → works (advance mode aggregate e phase r).0.0 ≡ some s
    → entry_fresh (advance mode aggregate e phase r).1.entry
      ≤ bound e.now (advance mode aggregate e phase r).0.0
unfolding advance
advance-works mode aggregate e idle r s single kept before h =
    absurd (ground (arith, h, begin_stats-is_owned mode e r single))
advance-works mode aggregate e (claiming cached deadline) r s single kept before h =
    absurd (ground (arith, h, claim_lock-is_owned cached deadline e r))
advance-works mode aggregate e (rereading cached deadline since) r s single kept before h =
    reread-works cached since e r s kept h
advance-works mode aggregate e (computing_only bypassed) r s single kept before h =
    absurd (ground (arith, h, compute_only-idle aggregate bypassed e))
advance-works mode aggregate e (computing owner background) r s single kept before h = omega (
  arith,
  before (compute-works mode aggregate owner background e s h),
  compute-bound mode aggregate owner background e,
)
advance-works mode aggregate e (storing owner v keep) r s single kept before h =
    absurd (ground (arith, h, let_go-idle e.now owner))
advance-works mode aggregate e (releasing since) r s single kept before h =
    absurd (ground (arith, h))
advance-works mode aggregate e (polling deadline) r s single kept before h =
    absurd (ground (arith, h, poll-idle deadline e r))
advance-works mode aggregate e done r s single kept before h = absurd (ground (arith, h))
