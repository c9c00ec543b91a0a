-- ===== src/Entitlements/Laws.antt =====
-- How old an answer can be, and when a change of plan is seen.
use drills.Prelude.{
  ℕ, ◌+◌, ◌<◌, ◌≡◌, ◌≢◌, refl, ◌∙◌, subst, Option, none, some, List, [], ◌∷◌, All, arith,
}
use drills.Entitlements.{
  CacheMode, off, ttl, notify, Plan, Entitlements, hit, Resolved, World, Reply, answered, load,
  resolve_read, resolve_store, drop_entry, set_plan, live, counted, found, get_or_load, put,
  after_commit,
}

abbrev pub plan_of : Resolved → Option Plan
plan_of r = r.entitlements.plan

-- On every mode but `ttl`, for an organisation that there is, a plan that was set is the
-- answer to every resolve that begins after, if the DEL was answered and no SET comes in
-- between.
set_plan-resolve_read :
    (mode : CacheMode) (limits : Plan → Option ℕ) (old plan : Plan) (set_at : ℕ) (w : World)
    (reply : Reply) (now later : ℕ)
    → mode ≢ ttl
    → w.plan ≡ some old
    → plan_of
        (resolve_read mode reply limits now later (set_plan mode answered limits plan set_at w).1)
      ≡ some plan
unfolding resolve_read set_plan load drop_entry live found get_or_load after_commit counted
set_plan-resolve_read mode limits old plan set_at w reply now later not_ttl there =
    ground (arith, there)

-- A resolve: when its GET, its load and its SET run, if it comes to them.
pub record Ask : Type 0 where
  pub asked : ℕ
  pub loaded : ℕ
  pub stored : ℕ

-- Resolves one after the other, with all commands answered.
unfoldable pub resolve_all : CacheMode → (Plan → Option ℕ) → ℕ → List Ask → World → List Resolved
unfolding resolve_read resolve_store
resolve_all mode limits ttl_ms [] w = []
resolve_all mode limits ttl_ms (a ∷ asks) w =
    let r = resolve_read mode answered limits a.asked a.loaded w in
    r ∷ resolve_all mode limits ttl_ms asks (resolve_store ttl_ms answered a.stored r w)

abbrev holding : Option Plan → ℕ → Entitlements → World
holding plan until value = record {
  plan = plan;
  entry = some (record { value = value; expires_at = until });
}

read_hit :
    (mode : CacheMode) (limits : Plan → Option ℕ) (plan : Option Plan) (until now later : ℕ)
    (value : Entitlements)
    → mode ≢ off
    → now < until
    → resolve_read mode answered limits now later (holding plan until value)
      ≡ record { entitlements = value; source = hit }
unfolding resolve_read get_or_load found counted live
read_hit mode limits plan until now later value cached soon = ground arith

-- An entry is answered until it expires, and nothing is stored meanwhile.
resolve_all-hit :
    (mode : CacheMode) (limits : Plan → Option ℕ) (ttl_ms until : ℕ) (value : Entitlements)
    (plan : Option Plan) (asks : List Ask)
    → mode ≢ off
    → All (λ a. a.asked < until) asks
    → All
        (λ r. plan_of r ≡ value.plan)
        (resolve_all mode limits ttl_ms asks (holding plan until value))
unfolding resolve_all resolve_store
resolve_all-hit mode limits ttl_ms until value plan [] cached soon = tt
resolve_all-hit mode limits ttl_ms until value plan (a ∷ asks) cached (now, soon) =
    let later = resolve_all-hit mode limits ttl_ms until value plan asks cached soon in
    rw (read_hit mode limits plan until a.asked a.loaded value cached now) (refl, later)

-- The SET of a miss, after a change of plan.
late_set :
    (mode : CacheMode) (limits : Plan → Option ℕ) (old plan : Plan) (w : World)
    (t₀ t₁ t₂ t₃ ttl_ms : ℕ)
    → mode ≢ off
    → w.plan ≡ some old
    → w.entry ≡ none
    → resolve_store ttl_ms answered t₃
        (resolve_read mode answered limits t₀ t₁ w)
        (set_plan mode answered limits plan t₂ w).1
      ≡ holding (some plan) (t₃ + ttl_ms) (load limits t₁ w)
unfolding resolve_read resolve_store set_plan load drop_entry live found get_or_load put
    after_commit counted
late_set mode limits old plan w t₀ t₁ t₂ t₃ ttl_ms cached there empty = ground (arith, there, empty)

load-plan : (limits : Plan → Option ℕ) (t : ℕ) (w : World) → (load limits t w).plan ≡ w.plan
unfolding load
load-plan limits t w = refl

-- On `ttl` and `invalidate`, a miss that loaded before a change of plan and is stored after it,
-- on `invalidate` after its DEL too, brings the old plan back: every one of any resolves, one
-- after the other and within the time to live of that SET, answers it, until the plan changes
-- again.
pub resolve_store-stale :
    (mode : CacheMode) (limits : Plan → Option ℕ) (old plan : Plan) (w : World)
    (t₀ t₁ t₂ t₃ ttl_ms : ℕ) (asks : List Ask)
    → mode ≢ off
    → mode ≢ notify
    → w.plan ≡ some old
    → w.entry ≡ none
    → All (λ a. a.asked < t₃ + ttl_ms) asks
    → All
        (λ r. plan_of r ≡ some old)
        (resolve_all mode limits ttl_ms asks (
          resolve_store ttl_ms answered t₃
            (resolve_read mode answered limits t₀ t₁ w)
            (set_plan mode answered limits plan t₂ w).1))
resolve_store-stale mode limits old plan w t₀ t₁ t₂ t₃ ttl_ms asks cached unheard there empty soon =
    let hits =
      resolve_all-hit mode limits ttl_ms (t₃ + ttl_ms) (load limits t₁ w) (some plan) asks cached
        soon in
    rw (late_set mode limits old plan w t₀ t₁ t₂ t₃ ttl_ms cached there empty) (
      subst
        (λ p.
          All (λ r. plan_of r ≡ p)
            (resolve_all mode limits ttl_ms asks
              (holding (some plan) (t₃ + ttl_ms) (load limits t₁ w))))
        (load-plan limits t₁ w ∙ there) hits)
