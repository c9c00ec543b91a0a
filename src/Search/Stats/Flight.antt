-- ===== src/Search/Stats/Flight.antt =====
-- Single flight: while its lock lives, an owner is the only one.
use drills.Prelude.{
  ℕ, ◌+◌, ◌≤◌, ◌<◌, ◌≡◌, ◌≢◌, ◌⊎◌, inl, inr, refl, ap, sym, ◌∙◌, Bool, true, false, Option, none,
  some, List, [], ◌∷◌, ◌==◌, ==_iff, Bool-cases, arith,
}
use drills.Search.Messages.{MessageStats}
use drills.Search.Stats.{
  Phase, idle, claiming, rereading, computing_only, computing, storing, releasing, polling, done,
  Event, on_read, begin_stats, claim_lock, reread, compute, compute_only, poll, advance, World,
  set_phase, step, run,
}
use drills.Search.StatsCache.{
  StatsCacheMode, off, naive, wait_mode, stale_mode, Envelope, Lock, Redis, lock_ttl, live,
  is_fresh, is_locked, set_if_absent, del_if_equals, put,
}

-- When the request took the lock that it owns.
abbrev pub lease : Phase → Option ℕ
lease idle = none
lease (claiming cached deadline) = none
lease (rereading cached deadline since) = some since
lease (computing_only bypassed) = none
lease (computing owner background) = owner
lease (storing owner v keep) = owner
lease (releasing since) = some since
lease (polling deadline) = none
lease done = none

abbrev pub IsTimed : ℕ → List Event → Type 0
IsTimed last [] = Unit
IsTimed last (e ∷ es) = (last ≤ e.now) × IsTimed e.now es

abbrev pub lock_of : ℕ → ℕ → Lock
lock_of p since = record { token = p; expires_at = since + lock_ttl }

-- The time of the last step, for a run that started at `last`.
abbrev pub end_of : ℕ → List Event → ℕ
end_of last [] = last
end_of last (e ∷ es) = end_of e.now es

abbrev pub Holds : ℕ → World → Type 0
Holds now w =
    (p since : ℕ)
    → lease (w.phases p) ≡ some since
    → now < since + lock_ttl
    → w.redis.lock ≡ some (lock_of p since)

on_read-lease :
    (mode : StatsCacheMode) (now : ℕ) (cached : Option Envelope)
    → lease (on_read mode now cached).0 ≡ none
unfolding on_read is_fresh
on_read-lease off now cached = refl
on_read-lease naive now cached = ground arith
on_read-lease wait_mode now cached = ground arith
on_read-lease stale_mode now cached = ground arith

begin_stats-lease :
    (mode : StatsCacheMode) (e : Event) (r : Redis) → lease (begin_stats mode e r).0 ≡ none
unfolding begin_stats
begin_stats-lease off e r = refl
begin_stats-lease naive e r = ground (arith, on_read-lease naive e.now (live e.now r.entry))
begin_stats-lease wait_mode e r = ground (arith, on_read-lease wait_mode e.now (live e.now r.entry))
begin_stats-lease stale_mode e r =
    ground (arith, on_read-lease stale_mode e.now (live e.now r.entry))

reread-lease :
    (cached : Option Envelope) (s : ℕ) (e : Event) (r : Redis) (since : ℕ)
    → lease (reread cached s e r).0 ≡ some since
    → s ≡ since
unfolding reread
reread-lease cached s e r since h = ground (arith, h)

compute-lease :
    (mode : StatsCacheMode) (aggregate : ℕ → MessageStats) (owner : Option ℕ) (background : Bool)
    (e : Event)
    → lease (compute mode aggregate owner background e).0 ≡ owner
unfolding compute
compute-lease mode aggregate owner background e = ground arith

poll-lease : (deadline : ℕ) (e : Event) (r : Redis) → lease (poll deadline e r).0 ≡ none
unfolding poll
poll-lease deadline e r = ground arith

compute_only-lease :
    (aggregate : ℕ → MessageStats) (bypassed : Bool) (e : Event)
    → lease (compute_only aggregate bypassed e).0 ≡ none
unfolding compute_only
compute_only-lease aggregate bypassed e = ground arith

claim_lock-lease :
    (cached : Option Envelope) (deadline : ℕ) (e : Event) (r : Redis) (since : ℕ)
    → lease (claim_lock cached deadline e r).0.0 ≡ some since
    → (since ≡ e.now) × ((claim_lock cached deadline e r).1.lock ≡ some (lock_of e.request e.now))
unfolding claim_lock set_if_absent
claim_lock-lease cached deadline e r since h = ground (arith, h)

-- An owner has the lock that it had before the step, or takes it in the step.
advance-lease :
    (mode : StatsCacheMode) (aggregate : ℕ → MessageStats) (e : Event) (phase : Phase) (r : Redis)
    (since : ℕ)
    → lease (advance mode aggregate e phase r).0.0 ≡ some since
    → ((lease phase ≡ some since) × ((advance mode aggregate e phase r).1.lock ≡ r.lock))
      ⊎ ((since ≡ e.now)
          × ((advance mode aggregate e phase r).1.lock ≡ some (lock_of e.request e.now)))
unfolding advance
advance-lease mode aggregate e idle r since h =
    absurd (ground (arith, h, begin_stats-lease mode e r))
advance-lease mode aggregate e (claiming cached deadline) r since h =
    inr (claim_lock-lease cached deadline e r since h)
advance-lease mode aggregate e (rereading cached deadline s) r since h =
    inl (ap some (reread-lease cached s e r since h), refl)
advance-lease mode aggregate e (computing_only bypassed) r since h =
    absurd (ground (arith, h, compute_only-lease aggregate bypassed e))
advance-lease mode aggregate e (computing owner background) r since h =
    inl (sym (compute-lease mode aggregate owner background e) ∙ h, refl)
advance-lease mode aggregate e (storing owner v keep) r since h = ground (arith, h)
advance-lease mode aggregate e (releasing s) r since h = ground (arith, h)
advance-lease mode aggregate e (polling deadline) r since h =
    absurd (ground (arith, h, poll-lease deadline e r))
advance-lease mode aggregate e done r since h = ground (arith, h)

-- Nobody takes a lock that lives from another one.
pub advance-lock :
    (mode : StatsCacheMode) (aggregate : ℕ → MessageStats) (e : Event) (phase : Phase) (r : Redis)
    (l : Lock)
    → r.lock ≡ some l
    → l.token ≢ e.request
    → e.now < l.expires_at
    → (advance mode aggregate e phase r).1.lock ≡ some l
unfolding advance claim_lock set_if_absent del_if_equals put is_locked
advance-lock mode aggregate e idle r l held other live = held
advance-lock mode aggregate e (claiming cached deadline) r l held other live =
    ground (arith, held, live)
advance-lock mode aggregate e (rereading cached deadline s) r l held other live = held
advance-lock mode aggregate e (computing_only bypassed) r l held other live = held
advance-lock mode aggregate e (computing owner background) r l held other live = held
advance-lock mode aggregate e (storing owner v keep) r l held other live = ground (arith, held)
advance-lock mode aggregate e (releasing s) r l held other live = ground (arith, held, other)
advance-lock mode aggregate e (polling deadline) r l held other live = held
advance-lock mode aggregate e done r l held other live = held

pub set_phase-own :
    (p : ℕ) (phase : Phase) (phases : ℕ → Phase) (q : ℕ)
    → (q == p) ≡ true
    → set_phase p phase phases q ≡ phase
set_phase-own p phase phases q same = rw same refl

pub set_phase-other :
    (p : ℕ) (phase : Phase) (phases : ℕ → Phase) (q : ℕ)
    → (q == p) ≡ false
    → set_phase p phase phases q ≡ phases q
set_phase-other p phase phases q other = rw other refl

advance-Holds :
    (mode : StatsCacheMode) (aggregate : ℕ → MessageStats) (e : Event) (last : ℕ) (w : World)
    → last ≤ e.now
    → Holds last w
    → (since : ℕ) → lease (advance mode aggregate e (w.phases e.request) w.redis).0.0 ≡ some since
    → e.now < since + lock_ttl
    → (advance mode aggregate e (w.phases e.request) w.redis).1.lock
      ≡ some (lock_of e.request since)
advance-Holds mode aggregate e last w later holds since owns young =
    elim (advance-lease mode aggregate e (w.phases e.request) w.redis since owns) [
      | inl (before, kept) ↦ kept ∙ holds e.request since before (omega (arith, later, young))
      | inr (now, taken) ↦ taken ∙ ap (λ t. some (lock_of e.request t)) (sym now)
    ]

pub step-Holds :
    (mode : StatsCacheMode) (aggregate : ℕ → MessageStats) (e : Event) (last : ℕ) (w : World)
    → last ≤ e.now
    → Holds last w
    → Holds e.now (step mode aggregate e w)
unfolding step
step-Holds mode aggregate e last w later holds p since owns young =
    let before = w.phases e.request in
    let after = (advance mode aggregate e before w.redis).0.0 in
    elim (Bool-cases (p == e.request)) [
      | inl same ↦
          advance-Holds mode aggregate e last w later holds since
            (sym (ap lease (set_phase-own e.request after w.phases p same)) ∙ owns) young
          ∙ ap (λ q. some (lock_of q since)) (sym ((==_iff p e.request).0 same))
      | inr other ↦
          advance-lock mode aggregate e before w.redis (lock_of p since)
            (holds p since
              (sym (ap lease (set_phase-other e.request after w.phases p other)) ∙ owns)
              (omega (arith, later, young)))
            (λ same. ground (arith, other, same)) young
    ]

pub run-Holds :
    (mode : StatsCacheMode) (aggregate : ℕ → MessageStats) (es : List Event) (last : ℕ) (w : World)
    → IsTimed last es
    → Holds last w
    → Holds (end_of last es) (run mode aggregate es w)
unfolding run
run-Holds mode aggregate [] last w timed holds = holds
run-Holds mode aggregate (e ∷ es) last w (later, timed) holds =
    run-Holds mode aggregate es e.now (step mode aggregate e w) timed
      (step-Holds mode aggregate e last w later holds)

-- In every mode, whatever the requests, their order and the failures of Redis, as long as
-- time does not go back: two requests that both took the lock less than its TTL ago and have
-- not released it are the same one.
pub single_flight :
    (mode : StatsCacheMode) (aggregate : ℕ → MessageStats) (es : List Event) (last : ℕ) (w : World)
    → ((p : ℕ) → w.phases p ≡ idle)
    → IsTimed last es
    → (p q s t : ℕ) → lease ((run mode aggregate es w).phases p) ≡ some s
    → lease ((run mode aggregate es w).phases q) ≡ some t
    → end_of last es < s + lock_ttl
    → end_of last es < t + lock_ttl
    → p ≡ q
single_flight mode aggregate es last w fresh timed p q s t owns_p owns_q young_p young_q =
    let holds =
      run-Holds mode aggregate es last w timed
        (λ p since owns young. absurd (ground (arith, owns, fresh p))) in
    ground (arith, holds p s owns_p young_p, holds q t owns_q young_q)
