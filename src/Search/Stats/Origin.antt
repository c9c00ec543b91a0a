-- ===== src/Search/Stats/Origin.antt =====
-- Where a step takes its answer from.
use drills.Prelude.{
  ℕ, ◌<◌, ◌≡◌, ◌⊎◌, inl, inr, refl, ap, ◌∙◌, Bool, true, false, Option, none, some, Bool-cases,
  Option-cases, ltb→lt, arith,
}
use drills.Search.Messages.{MessageStats}
use drills.Search.Stats.{
  Phase, idle, claiming, rereading, computing_only, computing, storing, releasing, polling, done,
  Event, on_read, begin_stats, claim_lock, on_reread, reread, compute, compute_only, poll, advance,
}
use drills.Search.StatsCache.{
  StatsCacheMode, off, naive, wait_mode, stale_mode, StatsSource, hit, miss, wait, stale, refresh,
  db, bypass, Envelope, StatsAnswer, answered_with, Entry, Redis, live, is_fresh,
}

-- The value that a request has in hand.
abbrev pub in_hand : Phase → Option Envelope
in_hand idle = none
in_hand (claiming cached deadline) = cached
in_hand (rereading cached deadline since) = cached
in_hand (computing_only bypassed) = none
in_hand (computing owner background) = none
in_hand (storing owner v keep) = some v
in_hand (releasing since) = none
in_hand (polling deadline) = none
in_hand done = none

abbrev pub envelope_in : Option Entry → Option Envelope
envelope_in none = none
envelope_in (some e) = some e.envelope

-- Does the source say that the answer may be old?
abbrev pub is_old_source : StatsSource → Bool
is_old_source hit = false
is_old_source miss = false
is_old_source wait = false
is_old_source stale = true
is_old_source refresh = true
is_old_source db = false
is_old_source bypass = false

pub live-envelope_in :
    (now : ℕ) (entry : Option Entry) (v : Envelope)
    → live now entry ≡ some v
    → envelope_in entry ≡ some v
unfolding live
live-envelope_in now none v h = absurd (ground (arith, h))
live-envelope_in now (some e) v h = ground (arith, h)

-- Where an answer comes from: a value in Redis that is fresh, the aggregate itself, or a
-- value that the request read before.
unfoldable pub Origin : (ℕ → MessageStats) → Event → Phase → Redis → StatsAnswer → Type 0
Origin aggregate e phase r a =
    ((v : Envelope) × (envelope_in r.entry ≡ some v)
      × (a.stats ≡ v.stats)
      × (a.computed_at ≡ v.computed_at)
      × (e.now < v.fresh_until)
      × (is_old_source a.source ≡ false))
    ⊎ ((a.stats ≡ aggregate e.read_at) × (a.computed_at ≡ e.now))
    ⊎ ((v : Envelope) × (in_hand phase ≡ some v)
        × (a.stats ≡ v.stats)
        × (a.computed_at ≡ v.computed_at)
        × (is_old_source a.source ≡ true))

abbrev answer_of : StatsSource → Envelope → StatsAnswer
answer_of source v = record { stats = v.stats; source = source; computed_at = v.computed_at }

-- An answer from a value that a GET shows as fresh.
Shown : StatsSource → ℕ → Option Envelope → StatsAnswer → Type 0
Shown source now shown a =
    (v : Envelope) × (shown ≡ some v) × (is_fresh now v ≡ true) × (a ≡ answer_of source v)

fresh-Origin :
    (aggregate : ℕ → MessageStats) (e : Event) (phase : Phase) (r : Redis) (a : StatsAnswer)
    (source : StatsSource)
    → is_old_source source ≡ false
    → Shown source e.now (live e.now r.entry) a
    → Origin aggregate e phase r a
unfolding Origin Shown is_fresh
fresh-Origin aggregate e phase r a source young (v, shown, fresh, is) = inl (
  v,
  live-envelope_in e.now r.entry v shown,
  ap (λ b. b.stats) is,
  ap (λ b. b.computed_at) is,
  ltb→lt e.now v.fresh_until fresh,
  ap (λ b. is_old_source b.source) is ∙ young,
)

on_read-Shown :
    (mode : StatsCacheMode) (now : ℕ) (cached : Option Envelope) (a : StatsAnswer)
    → (on_read mode now cached).1 ≡ some (answered_with a)
    → Shown hit now cached a
unfolding on_read Shown
on_read-Shown off now cached a h = absurd (ground (arith, h))
on_read-Shown naive now none a h = absurd (ground (arith, h))
on_read-Shown naive now (some v) a h = (v, refl, ground (arith, h), ground (arith, h))
on_read-Shown wait_mode now none a h = absurd (ground (arith, h))
on_read-Shown wait_mode now (some v) a h = (v, refl, ground (arith, h), ground (arith, h))
on_read-Shown stale_mode now none a h = absurd (ground (arith, h))
on_read-Shown stale_mode now (some v) a h = (v, refl, ground (arith, h), ground (arith, h))

begin_stats-on_read :
    (mode : StatsCacheMode) (e : Event) (r : Redis) (a : StatsAnswer)
    → (begin_stats mode e r).1 ≡ some (answered_with a)
    → (on_read mode e.now (live e.now r.entry)).1 ≡ some (answered_with a)
unfolding begin_stats
begin_stats-on_read off e r a h = absurd (ground (arith, h))
begin_stats-on_read naive e r a h = ground (arith, h)
begin_stats-on_read wait_mode e r a h = ground (arith, h)
begin_stats-on_read stale_mode e r a h = ground (arith, h)

claim_lock-answer :
    (cached : Option Envelope) (deadline : ℕ) (e : Event) (r : Redis) (a : StatsAnswer)
    → (claim_lock cached deadline e r).0.1 ≡ some (answered_with a)
    → (v : Envelope) × (cached ≡ some v) × (a ≡ answer_of stale v)
unfolding claim_lock
claim_lock-answer none deadline e r a h = absurd (ground (arith, h))
claim_lock-answer (some v) deadline e r a h = (v, refl, ground (arith, h))

on_reread-answer :
    (cached : Option Envelope) (since now : ℕ) (shown : Option Envelope) (a : StatsAnswer)
    → (on_reread cached since now shown).1 ≡ some (answered_with a)
    → Shown hit now shown a ⊎ ((v : Envelope) × (cached ≡ some v) × (a ≡ answer_of refresh v))
unfolding Shown
on_reread-answer none since now none a h = absurd (ground (arith, h))
on_reread-answer (some c) since now none a h = inr (c, refl, ground (arith, h))
on_reread-answer none since now (some v) a h = inl (v, refl, ground (arith, h), ground (arith, h))
on_reread-answer (some c) since now (some v) a h = elim (Bool-cases (is_fresh now v)) [
  | inl fresh ↦ inl (v, refl, fresh, ground (arith, fresh, h))
  | inr old ↦ inr (c, refl, ground (arith, old, h))
]

reread-on_reread :
    (cached : Option Envelope) (since : ℕ) (e : Event) (r : Redis) (a : StatsAnswer)
    → (reread cached since e r).1 ≡ some (answered_with a)
    → (on_reread cached since e.now (live e.now r.entry)).1 ≡ some (answered_with a)
unfolding reread
reread-on_reread cached since e r a h = ground (arith, h)

compute-answer :
    (mode : StatsCacheMode) (aggregate : ℕ → MessageStats) (owner : Option ℕ) (background : Bool)
    (e : Event) (a : StatsAnswer)
    → (compute mode aggregate owner background e).1 ≡ some (answered_with a)
    → (a.stats ≡ aggregate e.read_at) × (a.computed_at ≡ e.now)
unfolding compute
compute-answer mode aggregate owner background e a h = ground (arith, h)

compute_only-answer :
    (aggregate : ℕ → MessageStats) (bypassed : Bool) (e : Event) (a : StatsAnswer)
    → (compute_only aggregate bypassed e).1 ≡ some (answered_with a)
    → (a.stats ≡ aggregate e.read_at) × (a.computed_at ≡ e.now)
unfolding compute_only
compute_only-answer aggregate bypassed e a h = ground (arith, h)

poll-Shown :
    (deadline : ℕ) (e : Event) (r : Redis) (a : StatsAnswer)
    → (poll deadline e r).1 ≡ some (answered_with a)
    → Shown wait e.now (live e.now r.entry) a
unfolding poll Shown
poll-Shown deadline e r a h = elim (Option-cases (live e.now r.entry)) [
  | inl gone ↦ absurd (ground (arith, gone, h))
  | inr (v, shown) ↦ (v, shown, ground (arith, shown, h), ground (arith, shown, h))
]

old-Origin :
    (aggregate : ℕ → MessageStats) (e : Event) (phase : Phase) (r : Redis) (a : StatsAnswer)
    (source : StatsSource) (v : Envelope)
    → is_old_source source ≡ true
    → in_hand phase ≡ some v
    → a ≡ answer_of source v
    → Origin aggregate e phase r a
unfolding Origin
old-Origin aggregate e phase r a source v old has is = inr (
    inr (
      v,
      has,
      ap (λ b. b.stats) is,
      ap (λ b. b.computed_at) is,
      ap (λ b. is_old_source b.source) is ∙ old,
    ))

pub advance-Origin :
    (mode : StatsCacheMode) (aggregate : ℕ → MessageStats) (e : Event) (phase : Phase) (r : Redis)
    (a : StatsAnswer)
    → (advance mode aggregate e phase r).0.1 ≡ some (answered_with a)
    → Origin aggregate e phase r a
unfolding advance Origin
advance-Origin mode aggregate e idle r a h =
    fresh-Origin aggregate e idle r a hit refl
      (on_read-Shown mode e.now (live e.now r.entry) a (begin_stats-on_read mode e r a h))
advance-Origin mode aggregate e (claiming cached deadline) r a h =
    let (v, has, is) = claim_lock-answer cached deadline e r a h in
    old-Origin aggregate e (claiming cached deadline) r a stale v refl has is
advance-Origin mode aggregate e (rereading cached deadline since) r a h =
    elim (on_reread-answer cached since e.now (live e.now r.entry) a
      (reread-on_reread cached since e r a h)) [
        | inl shown ↦ fresh-Origin aggregate e (rereading cached deadline since) r a hit refl shown
        | inr (v, has, is) ↦
            old-Origin aggregate e (rereading cached deadline since) r a refresh v refl has is
      ]
advance-Origin mode aggregate e (computing_only bypassed) r a h =
    inr (inl (compute_only-answer aggregate bypassed e a h))
advance-Origin mode aggregate e (computing owner background) r a h =
    inr (inl (compute-answer mode aggregate owner background e a h))
advance-Origin mode aggregate e (storing owner v keep) r a h = absurd (ground (arith, h))
advance-Origin mode aggregate e (releasing since) r a h = absurd (ground (arith, h))
advance-Origin mode aggregate e (polling deadline) r a h =
    fresh-Origin aggregate e (polling deadline) r a wait refl (poll-Shown deadline e r a h)
advance-Origin mode aggregate e done r a h = absurd (ground (arith, h))
