-- ===== src/Entitlements/Interceptor.antt =====
-- apps/backend/src/entitlements/entitlements.interceptor.ts: every request of an organisation
-- resolves its plan, and those with an API key are metered. The rows of the organisations, and
-- the keys of Redis by their text: those of plans begin otherwise than those of buckets, so each
-- kind has a map of its own. A request is one step.
pub mod Isolation
mod Tests
use drills.Prelude.{ℕ, Bool, true, false, Option, none, some, [], ◌∷◌, ◌++◌, if◌then◌else◌}
use drills.Prelude.Text.{Text, text_eq}
use drills.RateLimit.Arms.{Decision}
use drills.Entitlements.{
  CacheMode, Plan, Entitlements, LookupSource, Resolved, World, Reply, resolve_read, resolve_store,
  Entry, set_plan, on_notice,
}
use drills.Entitlements.ApiKey.{request_org}

pub record OrgState (S : Type 0) : Type 0 where
  pub world : World
  pub bucket : S

-- A request: the organisation of its API key, if it has one, its header, the time, and what
-- Redis answers to the GET and the SET of its plan.
pub record Request : Type 0 where
  pub http : Bool
  pub key_org : Option Text
  pub header : Option Text
  pub now : ℕ
  pub get_reply : Reply
  pub set_reply : Reply

-- The handler runs, or the 429 with its plan and its limit.
pub data Outcome : Type 0 where
  handled : Outcome
  rate_limited : Option Plan → ℕ → Outcome

pub record Headers : Type 0 where
  pub entitlement : Option LookupSource
  pub rate_limit_policy : Option ℕ
  pub rate_limit : Option (ℕ × ℕ)
  pub retry_after : Option ℕ

abbrev pub no_headers : Headers
no_headers = record {
  entitlement = none;
  rate_limit_policy = none;
  rate_limit = none;
  retry_after = none;
}

abbrev pub Answer : Type 0
Answer = Outcome × Headers

-- What a decision makes of a request.
unfoldable pub metered : Resolved → Option Decision → Answer
metered r none = (handled, record no_headers { entitlement = some r.source })
metered r (some d) =
    let headers : Headers = record no_headers {
      entitlement = some r.source;
      rate_limit_policy = some d.limit;
      rate_limit = some (d.remaining, d.reset_s);
    } in
    if d.allowed then (handled, headers) else (
      rate_limited r.entitlements.plan d.limit,
      record headers { retry_after = some d.retry_after_s },
    )

-- `organizations.plan`, and the values of the keys.
pub record Shared (S : Type 0) : Type 0 where
  pub plans : Text → Option Plan
  pub entries : Text → Option Entry
  pub buckets : Text → S

abbrev pub entitlement_prefix : Text
entitlement_prefix = b'e' ∷ b'n' ∷ b't' ∷ b':' ∷ b'v' ∷ b'1' ∷ b':' ∷ b'o' ∷ b'r' ∷ b'g' ∷ b':' ∷ []

unfoldable pub entitlement_key : Text → Text
entitlement_key org_id = entitlement_prefix ++ org_id

-- "rl:v2:ingest:${mode}:org:"
abbrev pub rate_limit_prefix : Text → Text
rate_limit_prefix arm =
    (b'r' ∷ b'l' ∷ b':' ∷ b'v' ∷ b'2' ∷ b':' ∷ b'i' ∷ b'n' ∷ b'g' ∷ b'e' ∷ b's' ∷ b't' ∷ b':' ∷ [])
    ++ (arm ++ (b':' ∷ b'o' ∷ b'r' ∷ b'g' ∷ b':' ∷ []))

unfoldable pub rate_limit_key : Text → Text → Text
rate_limit_key arm org_id = rate_limit_prefix arm ++ org_id

abbrev pub put_at : {A : Type 0} → Text → A → (Text → A) → Text → A
put_at key value values k = if text_eq k key then value else values k

-- What a request of `org_id` reads: its row and its two keys.
unfoldable pub view : {S : Type 0} → Text → Text → Shared S → OrgState S
unfolding entitlement_key rate_limit_key
view arm org_id st = record {
  world = record { plan = st.plans org_id; entry = st.entries (entitlement_key org_id) };
  bucket = st.buckets (rate_limit_key arm org_id);
}

unfoldable pub write_back : {S : Type 0} → Text → Text → OrgState S → Shared S → Shared S
unfolding entitlement_key rate_limit_key
write_back arm org_id s st = record {
  plans = put_at org_id s.world.plan st.plans;
  entries = put_at (entitlement_key org_id) s.world.entry st.entries;
  buckets = put_at (rate_limit_key arm org_id) s.bucket st.buckets;
}

-- The organisation that a request speaks for, if it is one of HTTP.
unfoldable pub speaks_for : Request → Option Text
unfolding request_org
speaks_for req = if req.http then request_org req.key_org req.header else none

pub data Event : Type 0 where
  asks : Request → Event
  sets : Text → Plan → ℕ → Reply → Event
  hears : Text → Reply → Event

-- `decide`, which may fail.
module _ {S : Type 0} (mode : CacheMode) (arm : Text) (limits : Plan → Option ℕ) (ttl_ms : ℕ)
    (decide : ℕ → ℕ → S → Option Decision × S) where
  -- `consumeIngest`
  unfoldable pub consume_ingest : ℕ → Entitlements → S → Option Decision × S
  consume_ingest now e bucket = elim e.ingest_per_minute [
    | none ↦ (none, bucket)
    | some limit ↦ decide limit now bucket
  ]

  -- The request's organisation is known.
  unfoldable pub serve : Request → OrgState S → Answer × OrgState S
  unfolding resolve_read resolve_store consume_ingest metered
  serve req s =
      let r = resolve_read mode req.get_reply limits req.now req.now s.world in
      let world = resolve_store ttl_ms req.set_reply req.now r s.world in
      elim req.key_org [
        | none ↦ (
          (handled, record no_headers { entitlement = some r.source }),
          record s { world = world },
        )
        | some org ↦
            let (decision, bucket) = consume_ingest req.now r.entitlements s.bucket in
            (metered r decision, record { world = world; bucket = bucket })
      ]

  unfoldable pub intercept_at : Option Text → Request → Shared S → Answer × Shared S
  unfolding serve view write_back
  intercept_at none req st = ((handled, no_headers), st)
  intercept_at (some org_id) req st =
      let (answer, s) = serve req (view arm org_id st) in (answer, write_back arm org_id s st)

  unfoldable pub intercept : Request → Shared S → Answer × Shared S
  unfolding speaks_for intercept_at
  intercept req st = intercept_at (speaks_for req) req st

  unfoldable pub set_org : (World → World) → Text → Shared S → Shared S
  unfolding view write_back
  set_org f org_id st =
      let s = view arm org_id st in write_back arm org_id (record s { world = f s.world }) st

  -- What happens to one organisation: a request, a change of its plan, the listener's DEL.
  unfoldable pub happen : Event → Shared S → Option Answer × Shared S
  unfolding intercept set_org
  happen (asks req) st = let (answer, st') = intercept req st in (some answer, st')
  happen (sets org_id plan now reply) st =
      (none, set_org (λ w. (set_plan mode reply limits plan now w).1) org_id st)
  happen (hears org_id reply) st = (none, set_org (on_notice mode reply) org_id st)
