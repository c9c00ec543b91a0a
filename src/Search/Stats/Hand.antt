-- ===== src/Search/Stats/Hand.antt =====
-- The value that a request has in hand after a step.
use drills.Prelude.{ℕ, ◌≡◌, ◌⊎◌, inl, inr, Bool, Option, none, some, arith}
use drills.Search.Messages.{MessageStats}
use drills.Search.Stats.{
  Phase, idle, claiming, rereading, computing_only, computing, storing, releasing, polling, done,
  Event, on_read, begin_stats, claim_lock, reread, compute, compute_only, poll, advance,
  envelope_of,
}
use drills.Search.StatsCache.{
  StatsCacheMode, off, naive, wait_mode, stale_mode, Envelope, Redis, live,
}
use drills.Search.Stats.Origin.{in_hand, envelope_in, live-envelope_in}

-- The value in hand after a step was in hand before, stands in Redis, or was computed.
on_read-in_hand :
    (mode : StatsCacheMode) (now : ℕ) (cached : Option Envelope) (v : Envelope)
    → in_hand (on_read mode now cached).0 ≡ some v
    → cached ≡ some v
unfolding on_read
on_read-in_hand off now cached v h = absurd (ground (arith, h))
on_read-in_hand naive now cached v h = absurd (ground (arith, h))
on_read-in_hand wait_mode now cached v h = absurd (ground (arith, h))
on_read-in_hand stale_mode now none v h = absurd (ground (arith, h))
on_read-in_hand stale_mode now (some c) v h = ground (arith, h)

begin_stats-in_hand :
    (mode : StatsCacheMode) (e : Event) (r : Redis) (v : Envelope)
    → in_hand (begin_stats mode e r).0 ≡ some v
    → live e.now r.entry ≡ some v
unfolding begin_stats
begin_stats-in_hand off e r v h = absurd (ground (arith, h))
begin_stats-in_hand naive e r v h =
    ground (arith, h, on_read-in_hand naive e.now (live e.now r.entry) v)
begin_stats-in_hand wait_mode e r v h =
    ground (arith, h, on_read-in_hand wait_mode e.now (live e.now r.entry) v)
begin_stats-in_hand stale_mode e r v h =
    ground (arith, h, on_read-in_hand stale_mode e.now (live e.now r.entry) v)

claim_lock-in_hand :
    (cached : Option Envelope) (deadline : ℕ) (e : Event) (r : Redis) (v : Envelope)
    → in_hand (claim_lock cached deadline e r).0.0 ≡ some v
    → cached ≡ some v
unfolding claim_lock
claim_lock-in_hand none deadline e r v h = absurd (ground (arith, h))
claim_lock-in_hand (some c) deadline e r v h = ground (arith, h)

reread-in_hand :
    (cached : Option Envelope) (since : ℕ) (e : Event) (r : Redis)
    → in_hand (reread cached since e r).0 ≡ none
unfolding reread
reread-in_hand cached since e r = ground arith

compute-in_hand :
    (mode : StatsCacheMode) (aggregate : ℕ → MessageStats) (owner : Option ℕ) (background : Bool)
    (e : Event) (v : Envelope)
    → in_hand (compute mode aggregate owner background e).0 ≡ some v
    → v ≡ envelope_of aggregate e
unfolding compute
compute-in_hand mode aggregate owner background e v h = ground (arith, h)

compute_only-in_hand :
    (aggregate : ℕ → MessageStats) (bypassed : Bool) (e : Event)
    → in_hand (compute_only aggregate bypassed e).0 ≡ none
unfolding compute_only
compute_only-in_hand aggregate bypassed e = ground arith

poll-in_hand : (deadline : ℕ) (e : Event) (r : Redis) → in_hand (poll deadline e r).0 ≡ none
unfolding poll
poll-in_hand deadline e r = ground arith

pub advance-in_hand :
    (mode : StatsCacheMode) (aggregate : ℕ → MessageStats) (e : Event) (phase : Phase) (r : Redis)
    (v : Envelope)
    → in_hand (advance mode aggregate e phase r).0.0 ≡ some v
    → (in_hand phase ≡ some v) ⊎ (envelope_in r.entry ≡ some v) ⊎ (v ≡ envelope_of aggregate e)
unfolding advance
advance-in_hand mode aggregate e idle r v h =
    inr (inl (live-envelope_in e.now r.entry v (begin_stats-in_hand mode e r v h)))
advance-in_hand mode aggregate e (claiming cached deadline) r v h =
    inl (claim_lock-in_hand cached deadline e r v h)
advance-in_hand mode aggregate e (rereading cached deadline since) r v h =
    absurd (ground (arith, h, reread-in_hand cached since e r))
advance-in_hand mode aggregate e (computing_only bypassed) r v h =
    absurd (ground (arith, h, compute_only-in_hand aggregate bypassed e))
advance-in_hand mode aggregate e (computing owner background) r v h =
    inr (inr (compute-in_hand mode aggregate owner background e v h))
advance-in_hand mode aggregate e (storing none u keep) r v h = absurd (ground (arith, h))
advance-in_hand mode aggregate e (storing (some since) u keep) r v h = absurd (ground (arith, h))
advance-in_hand mode aggregate e (releasing since) r v h = absurd (ground (arith, h))
advance-in_hand mode aggregate e (polling deadline) r v h =
    absurd (ground (arith, h, poll-in_hand deadline e r))
advance-in_hand mode aggregate e done r v h = absurd (ground (arith, h))
