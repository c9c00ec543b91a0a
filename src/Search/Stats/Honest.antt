-- ===== src/Search/Stats/Honest.antt =====
-- What an answer says, and how old it is.
use drills.Prelude.{
  true, ◌⊎◌, ℕ, ◌+◌, ◌≤◌, ◌<◌, ◌≡◌, inl, inr, refl, subst, subst₂, ap, sym, ◌∙◌, Option, none, some,
  List, [], ◌∷◌, ◌==◌, Bool-cases, All, arith,
}
use drills.Search.Messages.{MessageStats}
use drills.Search.Stats.{
  Phase, idle, Event, advance, Fixed, World, with_outcome, step, run, envelope_of,
}
use drills.Search.StatsCache.{
  StatsCacheMode, Envelope, StatsAnswer, Outcome, answered_with, timeout, error, failed_compute,
  Redis,
}
use drills.Search.Stats.Flight.{IsTimed, end_of, set_phase-own, set_phase-other}
use drills.Search.Stats.Writes.{Writes, advance-Writes}
use drills.Search.Stats.Hand.{advance-in_hand}
use drills.Search.Stats.Origin.{in_hand, envelope_in, is_old_source, Origin, advance-Origin}

module _ (aggregate : ℕ → MessageStats) (ttl span : ℕ) where
  -- The aggregate's snapshot comes before its answer, by `span` at most.
  abbrev pub IsQuick : Event → Type 0
  IsQuick e = (e.read_at ≤ e.now) × (e.now ≤ e.read_at + span)

  -- The aggregate of a time that is `span` at most before.
  abbrev pub IsSnapshot : ℕ → MessageStats → Type 0
  IsSnapshot computed_at stats =
      (t : ℕ) × (t ≤ computed_at) × (computed_at ≤ t + span) × (stats ≡ aggregate t)

  -- A value is the aggregate of about its time, and not fresh for longer than the TTL.
  IsHonest : ℕ → Envelope → Type 0
  IsHonest now v =
      IsSnapshot v.computed_at v.stats
      × (v.computed_at ≤ now)
      × (v.fresh_until ≤ v.computed_at + ttl)

  -- An answer is the aggregate of about its time, less than the TTL ago unless its source says so.
  abbrev pub IsTrueAnswer : ℕ → StatsAnswer → Type 0
  IsTrueAnswer at a =
      IsSnapshot a.computed_at a.stats
      × (a.computed_at ≤ at)
      × ((is_old_source a.source ≡ true) ⊎ (at < a.computed_at + ttl))

  abbrev pub IsTrueOutcome : ℕ → Outcome → Type 0
  IsTrueOutcome at (answered_with a) = IsTrueAnswer at a
  IsTrueOutcome at timeout = Unit
  IsTrueOutcome at error = Unit
  IsTrueOutcome at failed_compute = Unit

  abbrev pub IsTrue : Fixed → Type 0
  IsTrue f = IsTrueOutcome f.at f.outcome

  record IsClean (now : ℕ) (w : World) : Type 0 where
    pub entry : (v : Envelope) → envelope_in w.redis.entry ≡ some v → IsHonest now v
    pub hands : (p : ℕ) (v : Envelope) → in_hand (w.phases p) ≡ some v → IsHonest now v
    pub outcomes : All IsTrue w.outcomes

  IsHonest-later : (now later : ℕ) (v : Envelope) → now ≤ later → IsHonest now v → IsHonest later v
  unfolding IsHonest
  IsHonest-later now later v past (stats, at, fresh) = (stats, omega (arith, at, past), fresh)

  envelope_of-IsHonest :
      (e : Event) → IsQuick e → e.ttl_ms ≤ ttl → IsHonest e.now (envelope_of aggregate e)
  unfolding IsHonest
  envelope_of-IsHonest e (read, quick) short =
      ((e.read_at, read, quick, refl), omega arith, omega (arith, short))

  module _ (mode : StatsCacheMode) (e : Event) (now : ℕ) (w : World) (positive : 0 < ttl)
      (later : now ≤ e.now) (quick : IsQuick e) (short : e.ttl_ms ≤ ttl) (h : IsClean now w) where
    moved : (Phase × Option Outcome) × Redis
    moved = advance mode aggregate e (w.phases e.request) w.redis

    moved-hand : (v : Envelope) → in_hand moved.0.0 ≡ some v → IsHonest e.now v
    unfolding moved
    moved-hand v has = elim (advance-in_hand mode aggregate e (w.phases e.request) w.redis v has) [
      | inl before ↦ IsHonest-later now e.now v later (h.hands e.request v before)
      | inr (inl there) ↦ IsHonest-later now e.now v later (h.entry v there)
      | inr (inr new) ↦ subst (IsHonest e.now) (sym new) (envelope_of-IsHonest e quick short)
    ]

    moved-entry : (v : Envelope) → envelope_in moved.1.entry ≡ some v → IsHonest e.now v
    unfolding moved Writes
    moved-entry v has = elim (advance-Writes mode aggregate e (w.phases e.request) w.redis) [
      | inl (same, stored) ↦
          IsHonest-later now e.now v later (h.entry v (sym (ap envelope_in same) ∙ has))
      | inr (owner, u, keep, at, entry, stored) ↦
          IsHonest-later now e.now v later
            (h.hands e.request v (ap in_hand at ∙ sym (ap envelope_in entry) ∙ has))
    ]

    moved-answer : (a : StatsAnswer) → moved.0.1 ≡ some (answered_with a) → IsTrueAnswer e.now a
    unfolding moved Origin IsHonest
    moved-answer a is = elim (advance-Origin mode aggregate e (w.phases e.request) w.redis a is) [
      | inl (v, there, stats, computed, fresh, young) ↦
          let (honest, at, bound) = h.entry v there in
          (
            subst₂ IsSnapshot (sym computed) (sym stats) honest,
            omega (arith, computed, at, later),
            inr (omega (arith, computed, fresh, bound)),
          )
      | inr (inl (stats, computed)) ↦ (
        subst₂ IsSnapshot (sym computed) (sym stats) (e.read_at, quick.0, quick.1, refl),
        omega (arith, computed),
        inr (omega (arith, computed, positive)),
      )
      | inr (inr (v, has, stats, computed, old)) ↦
          let (honest, at, bound) = h.hands e.request v has in
          (
            subst₂ IsSnapshot (sym computed) (sym stats) honest,
            omega (arith, computed, at, later),
            inl old,
          )
    ]

    with_outcome-IsTrue :
        (outcome : Option Outcome)
        → ((a : StatsAnswer) → outcome ≡ some (answered_with a) → IsTrueAnswer e.now a)
        → All IsTrue (with_outcome e.now outcome w.outcomes)
    with_outcome-IsTrue none true_one = h.outcomes
    with_outcome-IsTrue (some (answered_with a)) true_one = (true_one a refl, h.outcomes)
    with_outcome-IsTrue (some timeout) true_one = (tt, h.outcomes)
    with_outcome-IsTrue (some error) true_one = (tt, h.outcomes)
    with_outcome-IsTrue (some failed_compute) true_one = (tt, h.outcomes)

    step-IsClean : IsClean e.now (step mode aggregate e w)
    unfolding step moved
    step-IsClean = record {
      entry = moved-entry;
      hands = λ p v has. elim (Bool-cases (p == e.request)) [
        | inl same ↦
            moved-hand v
              (sym (ap in_hand (set_phase-own e.request moved.0.0 w.phases p same)) ∙ has)
        | inr other ↦ IsHonest-later now e.now v later (
            h.hands p v
              (sym (ap in_hand (set_phase-other e.request moved.0.0 w.phases p other)) ∙ has))
      ];
      outcomes = with_outcome-IsTrue moved.0.1 moved-answer;
    }

  run-IsClean :
      (mode : StatsCacheMode) (es : List Event) (now : ℕ) (w : World)
      → 0 < ttl
      → IsTimed now es
      → All IsQuick es
      → All (λ e. e.ttl_ms ≤ ttl) es
      → IsClean now w
      → IsClean (end_of now es) (run mode aggregate es w)
  unfolding run
  run-IsClean mode [] now w positive timed quick short h = h
  run-IsClean mode (e ∷ es) now w positive (later, timed) (prompt, quick) (here, short) h =
      run-IsClean mode es e.now (step mode aggregate e w) positive timed quick short
        (step-IsClean mode e now w positive later prompt here h)

  -- In every mode, from an empty key, whatever the requests, their order and the failures of
  -- Redis, as long as time does not go back, the jitter only shortens the TTL, and the aggregate's
  -- statement is answered within `span` of its snapshot: each answer is the aggregate as it was at
  -- the time that the answer names or up to `span` before, and unless it is marked as stale
  -- (`stale`, `refresh`) the time that it names is less than the TTL ago.
  pub outcomes-IsTrue :
      (mode : StatsCacheMode) (es : List Event) (now : ℕ) (w : World)
      → 0 < ttl
      → ((p : ℕ) → w.phases p ≡ idle)
      → w.redis.entry ≡ none
      → w.outcomes ≡ []
      → IsTimed now es
      → All IsQuick es
      → All (λ e. e.ttl_ms ≤ ttl) es
      → All IsTrue (run mode aggregate es w).outcomes
  outcomes-IsTrue mode es now w positive fresh empty unanswered timed quick short =
      (run-IsClean mode es now w positive timed quick short (record {
        entry = λ v there. absurd (ground (arith, there, empty));
        hands = λ p v has. absurd (ground (arith, has, fresh p));
        outcomes = subst (All IsTrue) (sym unanswered) tt;
      })).outcomes
