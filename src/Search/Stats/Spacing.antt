-- ===== src/Search/Stats/Spacing.antt =====
-- What a request writes under the lock was computed when the value before it was no longer fresh.
use drills.Prelude.{
  ℕ, ◌+◌, ◌≤◌, ◌<◌, ◌≡◌, inl, inr, refl, subst, ap, sym, ◌∙◌, Bool, true, false, Option, none, some,
  List, [], ◌∷◌, ◌==◌, Bool-cases, ltb→lt, ltb, arith,
}
use drills.Search.Messages.{MessageStats}
use drills.Search.Stats.{
  Phase, idle, claiming, rereading, computing_only, computing, storing, releasing, polling, done,
  Event, advance, World, step, run,
}
use drills.Search.StatsCache.{StatsCacheMode, Envelope, Outcome, Redis, lock_ttl}
use drills.Search.Stats.Flight.{
  lease, IsTimed, Holds, end_of, set_phase-own, set_phase-other, step-Holds,
}
use drills.Search.Stats.Work.{
  is_single, last_fresh, entry_fresh, IsKept, works, bound, has_lock, is_owned, works-lease,
  is_owned-later, bound-later, advance-is_owned, advance-works,
}
use drills.Search.Stats.Writes.{Writes, advance-Writes}

-- Each value was computed when the one before it was no longer fresh.
abbrev pub IsSpaced : List Envelope → Type 0
IsSpaced [] = Unit
IsSpaced (v ∷ []) = Unit
IsSpaced (v ∷ (u ∷ us)) = (u.fresh_until ≤ v.computed_at) × IsSpaced (u ∷ us)

-- Each request that writes does so before its lock expires.
abbrev pub in_time : ℕ → Option ℕ → Bool
in_time now none = true
in_time now (some since) = ltb now (since + lock_ttl)

abbrev pub is_prompt : ℕ → Phase → Bool
is_prompt now idle = true
is_prompt now (claiming cached deadline) = true
is_prompt now (rereading cached deadline since) = true
is_prompt now (computing_only bypassed) = true
is_prompt now (computing owner background) = true
is_prompt now (storing owner v keep) = in_time now owner
is_prompt now (releasing since) = true
is_prompt now (polling deadline) = true
is_prompt now done = true

abbrev pub IsPrompt : StatsCacheMode → (ℕ → MessageStats) → List Event → World → Type 0
IsPrompt mode aggregate [] w = Unit
IsPrompt mode aggregate (e ∷ es) w =
    (is_prompt e.now (w.phases e.request) ≡ true)
    × IsPrompt mode aggregate es (step mode aggregate e w)

-- What holds after each step, the last one at `now`.
record IsRunning (now : ℕ) (w : World) : Type 0 where
  pub holds : Holds now w
  pub owned : (p : ℕ) → is_owned now (w.phases p) ≡ true
  pub quiet :
      (p s : ℕ)
      → works (w.phases p) ≡ some s
      → now < s + lock_ttl
      → entry_fresh w.redis.entry ≤ bound now (w.phases p)
  pub kept : IsKept w.redis.entry
  pub last : entry_fresh w.redis.entry ≡ last_fresh w.redis.stored
  pub spaced : IsSpaced w.redis.stored

has_lock-some : (owner : Option ℕ) → has_lock owner ≡ true → (s : ℕ) × (owner ≡ some s)
has_lock-some none own = absurd (ground (arith, own))
has_lock-some (some s) own = (s, refl)

IsSpaced-cons :
    (v : Envelope) (vs : List Envelope)
    → last_fresh vs ≤ v.computed_at
    → IsSpaced vs
    → IsSpaced (v ∷ vs)
IsSpaced-cons v [] old spaced = tt
IsSpaced-cons v (u ∷ us) old spaced = (old, spaced)

-- What the phase of a writer carries.
storing-owned :
    (now : ℕ) (phase : Phase) (owner : Option ℕ) (v : Envelope) (keep : ℕ)
    → phase ≡ storing owner v keep
    → is_owned now phase ≡ true
    → (has_lock owner ≡ true) × (v.computed_at ≤ now) × (v.fresh_until ≤ v.computed_at + keep)
storing-owned now phase owner v keep at own =
    let here = subst (λ f. is_owned now f ≡ true) at own in ground (arith, here)

module _ (mode : StatsCacheMode) (aggregate : ℕ → MessageStats) (single : is_single mode ≡ true)
    (e : Event) (now : ℕ) (w : World) (later : now ≤ e.now)
    (prompt : is_prompt e.now (w.phases e.request) ≡ true) (h : IsRunning now w) where
  after : (Phase × Option Outcome) × Redis
  after = advance mode aggregate e (w.phases e.request) w.redis

  writer_young :
      (owner : Option ℕ) (v : Envelope) (keep : ℕ)
      → w.phases e.request ≡ storing owner v keep
      → (s : ℕ) × (owner ≡ some s) × (e.now < s + lock_ttl)
  writer_young owner v keep at =
      let (own, computed, fresh) =
        storing-owned now (w.phases e.request) owner v keep at (h.owned e.request) in
      let (s, is) = has_lock-some owner own in
      (
        s,
        is,
        ltb→lt e.now (s + lock_ttl)
            (sym (ap (is_prompt e.now) at ∙ ap (in_time e.now) is) ∙ prompt),
      )

  -- The writer's value follows the one that stands.
  write-IsSpaced :
      (owner : Option ℕ) (v : Envelope) (keep : ℕ)
      → w.phases e.request ≡ storing owner v keep
      → IsSpaced (v ∷ w.redis.stored)
  write-IsSpaced owner v keep at =
      let (s, is, young) = writer_young owner v keep at in
      let old = h.quiet e.request s (ap works at ∙ is) (omega (arith, later, young)) in
      IsSpaced-cons v w.redis.stored (omega (arith, old, ap (bound now) at, h.last)) h.spaced

  advance-IsKept : IsKept after.1.entry
  unfolding after Writes
  advance-IsKept = elim (advance-Writes mode aggregate e (w.phases e.request) w.redis) [
    | inl (entry, stored) ↦ subst IsKept (sym entry) h.kept
    | inr (owner, v, keep, at, entry, stored) ↦
        let (own, computed, fresh) =
          storing-owned now (w.phases e.request) owner v keep at (h.owned e.request) in
        subst IsKept (sym entry) (omega (arith, computed, fresh, later))
  ]

  advance-last : entry_fresh after.1.entry ≡ last_fresh after.1.stored
  unfolding after Writes
  advance-last = elim (advance-Writes mode aggregate e (w.phases e.request) w.redis) [
    | inl (entry, stored) ↦ ap entry_fresh entry ∙ h.last ∙ sym (ap last_fresh stored)
    | inr (owner, v, keep, at, entry, stored) ↦ ap entry_fresh entry ∙ sym (ap last_fresh stored)
  ]

  advance-IsSpaced : IsSpaced after.1.stored
  unfolding after Writes
  advance-IsSpaced = elim (advance-Writes mode aggregate e (w.phases e.request) w.redis) [
    | inl (entry, stored) ↦ subst IsSpaced (sym stored) h.spaced
    | inr (owner, v, keep, at, entry, stored) ↦
        subst IsSpaced (sym stored) (write-IsSpaced owner v keep at)
  ]

  -- Another owner's knowledge outlives the step: who writes is the only owner.
  other-quiet :
      (p s : ℕ)
      → (p == e.request) ≡ false
      → works (w.phases p) ≡ some s
      → e.now < s + lock_ttl
      → entry_fresh after.1.entry ≤ bound e.now (w.phases p)
  unfolding after Writes
  other-quiet p s other busy young =
      elim (advance-Writes mode aggregate e (w.phases e.request) w.redis) [
        | inl (entry, stored) ↦ omega (
          arith,
          ap entry_fresh entry,
          h.quiet p s busy (omega (arith, later, young)),
          bound-later now e.now (w.phases p) later,
        )
        | inr (owner, v, keep, at, entry, stored) ↦
            let (t, is, writing) = writer_young owner v keep at in
            let mine =
              h.holds p s (works-lease (w.phases p) s busy) (omega (arith, later, young)) in
            let its = h.holds e.request t (ap lease at ∙ is) (omega (arith, later, writing)) in
            absurd (ground (arith, mine, its, other))
      ]

  own-quiet :
      (s : ℕ)
      → works after.0.0 ≡ some s
      → e.now < s + lock_ttl
      → entry_fresh after.1.entry ≤ bound e.now after.0.0
  unfolding after
  own-quiet s busy young =
      advance-works mode aggregate e (w.phases e.request) w.redis s single h.kept
        (λ before. omega (
          arith,
          h.quiet e.request s before (omega (arith, later, young)),
          bound-later now e.now (w.phases e.request) later,
        ))
        busy

  step-IsRunning : IsRunning e.now (step mode aggregate e w)
  unfolding step after
  step-IsRunning = record {
    holds = step-Holds mode aggregate e now w later h.holds;
    owned = λ p. elim (Bool-cases (p == e.request)) [
      | inl same ↦
          ap (is_owned e.now) (set_phase-own e.request after.0.0 w.phases p same)
          ∙ advance-is_owned mode aggregate e (w.phases e.request) w.redis single
              (is_owned-later now e.now (w.phases e.request) later (h.owned e.request))
      | inr other ↦
          ap (is_owned e.now) (set_phase-other e.request after.0.0 w.phases p other)
          ∙ is_owned-later now e.now (w.phases p) later (h.owned p)
    ];
    quiet = λ p s busy young. elim (Bool-cases (p == e.request)) [
      | inl same ↦
          let at = set_phase-own e.request after.0.0 w.phases p same in
          omega (arith, ap (bound e.now) at, own-quiet s (sym (ap works at) ∙ busy) young)
      | inr other ↦
          let at = set_phase-other e.request after.0.0 w.phases p other in
          omega (arith, ap (bound e.now) at, other-quiet p s other (sym (ap works at) ∙ busy) young)
    ];
    kept = advance-IsKept;
    last = advance-last;
    spaced = advance-IsSpaced;
  }

run-IsRunning :
    (mode : StatsCacheMode) (aggregate : ℕ → MessageStats) (es : List Event) (now : ℕ) (w : World)
    → is_single mode ≡ true
    → IsTimed now es
    → IsPrompt mode aggregate es w
    → IsRunning now w
    → IsRunning (end_of now es) (run mode aggregate es w)
unfolding run
run-IsRunning mode aggregate [] now w single timed prompt h = h
run-IsRunning mode aggregate (e ∷ es) now w single (later, timed) (here, prompt) h =
    run-IsRunning mode aggregate es e.now (step mode aggregate e w) single timed prompt
      (step-IsRunning mode aggregate single e now w later here h)

-- In the modes `wait` and `stale`, from an empty key, whatever the requests, their order and
-- the failures of Redis, as long as time does not go back and no owner writes after its lock
-- has expired: each value that is written to Redis was computed when the one before it was no
-- longer fresh.
pub stored-IsSpaced :
    (mode : StatsCacheMode) (aggregate : ℕ → MessageStats) (es : List Event) (now : ℕ) (w : World)
    → is_single mode ≡ true
    → ((p : ℕ) → w.phases p ≡ idle)
    → w.redis.entry ≡ none
    → w.redis.stored ≡ []
    → IsTimed now es
    → IsPrompt mode aggregate es w
    → IsSpaced (run mode aggregate es w).redis.stored
stored-IsSpaced mode aggregate es now w single fresh empty unwritten timed prompt =
    (run-IsRunning mode aggregate es now w single timed prompt (record {
      holds = λ p since owns young. absurd (ground (arith, owns, fresh p));
      owned = λ p. ap (is_owned now) (fresh p);
      quiet = λ p s busy young. absurd (ground (arith, busy, fresh p));
      kept = subst IsKept (sym empty) tt;
      last = ap entry_fresh empty ∙ sym (ap last_fresh unwritten);
      spaced = subst IsSpaced (sym unwritten) tt;
    })).spaced
