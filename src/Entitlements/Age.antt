-- ===== src/Entitlements/Age.antt =====
-- How old the plan can be by which a request is judged, over any number of requests under way.
use drills.Prelude.{
  ℕ, ◌+◌, ◌≤◌, ◌<◌, ◌≡◌, ◌⊎◌, inl, inr, refl, subst, true, false, Option, none, some, List, [], ◌∷◌,
  ◌++◌, All, ltb, Bool-cases, arith,
}
use drills.Prelude.Strict.{All-member}
use drills.Entitlements.{
  CacheMode, off, ttl, invalidate, notify, Plan, Entitlements, LookupSource, hit, miss, db, error,
  Resolved, Entry, World, Reply, answered, failed, live, limit_of, load, counted, found,
  get_or_load, resolve_read, put, resolve_store, drop_entry, after_commit, on_notice,
}

-- `pending` are the requests that have resolved, of which those that missed may still store
-- what they loaded.
pub record State : Type 0 where
  pub world : World
  pub pending : List Resolved

abbrev pub at_rest : State
at_rest = record { world = record { plan = none; entry = none }; pending = [] }

-- The organisation's plan at each time is `history`.
module _ (mode : CacheMode) (limits : Plan → Option ℕ) (history : ℕ → Option Plan)
    (ttl_ms delay : ℕ) where
  abbrev pub resolved : Reply → ℕ → ℕ → State → Resolved
  resolved reply now later s =
      resolve_read mode reply limits now later (record s.world { plan = history later })

  -- A request resolves, one that missed stores what it loaded at most `delay` before, and a
  -- change of plan ends with its DEL, and with that of the listener.
  pub data Step (s : State) : State → Type 0 where
    resolves :
        (reply : Reply) (now later : ℕ)
        → Step s (record s { pending = resolved reply now later s ∷ s.pending })
    stores :
        (reply : Reply) (now : ℕ) (r : Resolved) (before after : List Resolved)
        → s.pending ≡ before ++ (r ∷ after)
        → now ≤ r.entitlements.loaded_at + delay
        → Step s (record s { world = resolve_store ttl_ms reply now r s.world })
    changes : (reply : Reply) → Step s (record s { world = after_commit mode reply s.world })
    notices : (reply : Reply) → Step s (record s { world = on_notice mode reply s.world })

  pub data Reach : State → Type 0 where
    start : Reach at_rest
    next : {s t : State} → Reach s → Step s t → Reach t

  -- What was loaded is the plan of that time and its limit.
  abbrev pub IsTrue : Entitlements → Type 0
  IsTrue e = (e.plan ≡ history e.loaded_at) × (e.ingest_per_minute ≡ limit_of limits e.plan)

  abbrev IsYoung : Option Entry → Type 0
  IsYoung none = Unit
  IsYoung (some e) = IsTrue e.value × (e.expires_at ≤ e.value.loaded_at + (delay + ttl_ms))

  abbrev IsHonest : State → Type 0
  IsHonest s = IsYoung s.world.entry × All (λ r. IsTrue r.entitlements) s.pending

  -- What a resolve answers from an entry.
  abbrev pub IsRecent : ℕ → ℕ → Resolved → Type 0
  IsRecent now later r =
      IsTrue r.entitlements
      × ((r.entitlements.loaded_at ≡ later) ⊎ (now < r.entitlements.loaded_at + (delay + ttl_ms)))

  load-IsTrue :
      (later : ℕ) (entry : Option Entry)
      → IsTrue (load limits later (record { plan = history later; entry = entry }))
  unfolding load
  load-IsTrue later entry = (refl, refl)

  get_or_load-IsRecent :
      (reply : Reply) (now later : ℕ) (entry : Option Entry)
      → IsYoung entry
      → IsRecent now later (
          get_or_load reply
            (load limits later (record { plan = history later; entry = entry }))
            (live now entry))
  unfolding get_or_load found counted live load
  get_or_load-IsRecent (failed applied) now later entry young = ((refl, refl), inl refl)
  get_or_load-IsRecent answered now later none young = ((refl, refl), inl refl)
  get_or_load-IsRecent answered now later (some e) (true_e, young) =
      elim (Bool-cases (ltb now e.expires_at)) [
        | inl fresh ↦ rw fresh (true_e, inr (ground arith))
        | inr stale ↦ rw stale ((refl, refl), inl refl)
      ]

  resolve_read-IsRecent :
      (m : CacheMode) (reply : Reply) (now later : ℕ) (entry : Option Entry)
      → IsYoung entry
      → IsRecent now later
          (resolve_read m reply limits now later (record { plan = history later; entry = entry }))
  unfolding resolve_read counted load
  resolve_read-IsRecent off reply now later entry young = ((refl, refl), inl refl)
  resolve_read-IsRecent ttl reply now later entry young =
      get_or_load-IsRecent reply now later entry young
  resolve_read-IsRecent invalidate reply now later entry young =
      get_or_load-IsRecent reply now later entry young
  resolve_read-IsRecent notify reply now later entry young =
      get_or_load-IsRecent reply now later entry young

  put-IsYoung :
      (reply : Reply) (expires_at : ℕ) (e : Entitlements) (w : World)
      → IsTrue e
      → expires_at ≤ e.loaded_at + (delay + ttl_ms)
      → IsYoung w.entry
      → IsYoung (put expires_at reply e w).entry
  unfolding put
  put-IsYoung answered expires_at e w is_true bound young = (is_true, bound)
  put-IsYoung (failed true) expires_at e w is_true bound young = (is_true, bound)
  put-IsYoung (failed false) expires_at e w is_true bound young = young

  resolve_store-IsYoung :
      (source : LookupSource) (reply : Reply) (now : ℕ) (e : Entitlements) (w : World)
      → IsTrue e
      → now ≤ e.loaded_at + delay
      → IsYoung w.entry
      → IsYoung
          (resolve_store ttl_ms reply now (record { entitlements = e; source = source }) w).entry
  unfolding resolve_store
  resolve_store-IsYoung miss reply now e w is_true bound young =
      put-IsYoung reply (now + ttl_ms) e w is_true (omega (arith, bound)) young
  resolve_store-IsYoung hit reply now e w is_true bound young = young
  resolve_store-IsYoung db reply now e w is_true bound young = young
  resolve_store-IsYoung error reply now e w is_true bound young = young

  drop_entry-IsYoung :
      (reply : Reply) (w : World) → IsYoung w.entry → IsYoung (drop_entry reply w).entry
  unfolding drop_entry
  drop_entry-IsYoung answered w young = tt
  drop_entry-IsYoung (failed true) w young = tt
  drop_entry-IsYoung (failed false) w young = young

  after_commit-IsYoung :
      (m : CacheMode) (reply : Reply) (w : World)
      → IsYoung w.entry
      → IsYoung (after_commit m reply w).entry
  unfolding after_commit
  after_commit-IsYoung off reply w young = young
  after_commit-IsYoung ttl reply w young = young
  after_commit-IsYoung invalidate reply w young = drop_entry-IsYoung reply w young
  after_commit-IsYoung notify reply w young = drop_entry-IsYoung reply w young

  on_notice-IsYoung :
      (m : CacheMode) (reply : Reply) (w : World)
      → IsYoung w.entry
      → IsYoung (on_notice m reply w).entry
  unfolding on_notice
  on_notice-IsYoung off reply w young = young
  on_notice-IsYoung ttl reply w young = young
  on_notice-IsYoung invalidate reply w young = young
  on_notice-IsYoung notify reply w young = drop_entry-IsYoung reply w young

  Step-IsHonest : {s t : State} → Step s t → IsHonest s → IsHonest t
  Step-IsHonest {s} (resolves reply now later) (young, honest) =
      (young, ((resolve_read-IsRecent mode reply now later s.world.entry young).0, honest))
  Step-IsHonest {s} (stores reply now r before after is bound) (young, honest) =
      let is_true =
        All-member (λ r. IsTrue r.entitlements) before after r
          (subst (All (λ r. IsTrue r.entitlements)) is honest) in
      (resolve_store-IsYoung r.source reply now r.entitlements s.world is_true bound young, honest)
  Step-IsHonest {s} (changes reply) (young, honest) =
      (after_commit-IsYoung mode reply s.world young, honest)
  Step-IsHonest {s} (notices reply) (young, honest) =
      (on_notice-IsYoung mode reply s.world young, honest)

  Reach-IsHonest : {s : State} → Reach s → IsHonest s
  Reach-IsHonest start = (tt, tt)
  Reach-IsHonest (next reach step) = Step-IsHonest step (Reach-IsHonest reach)

  -- Whatever requests, changes of plan and failures of Redis there were, from an empty key:
  -- the plan by which a request is judged is the one that the organisation had when it was
  -- loaded, with its limit, and it was loaded for this request, or less than the time to live
  -- and `delay` before it. Here `delay` is the longest time from a load to its SET.
  pub resolve_read-bound :
      {s : State}
      → Reach s
      → (reply : Reply) (now later : ℕ) → IsRecent now later (resolved reply now later s)
  resolve_read-bound {s} reach reply now later =
      resolve_read-IsRecent mode reply now later s.world.entry (Reach-IsHonest reach).0
