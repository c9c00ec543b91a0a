-- ===== src/Frontend/Api/Label.antt =====
-- Who `callApi` says answered.
use drills.Prelude.{ℕ, ◌≤◌, ◌<◌, ◌≡◌, ◌↔◌, refl, sym, ◌∙◌, false, Option, none, some, List, arith}
use drills.Frontend.Api.{
  SentHeaders, headers_for, Response, Stored, DataCache, Origin, Times, origin, cache, Served,
  served_of, served_from, ask, fetch_unmemoized, fetch, with_served, call_api,
}
use drills.Frontend.Arms.{Tag, CachePolicy, no_store, force_cache}
use drills.Frontend.Sources.{Source}
use drills.Frontend.Api.Actions.Fresh.{keep_answer-answer}
use drills.Frontend.Api.Actions.Held.{IsStamped}

module _ {B : Type 0} (dc : DataCache B) (api : Origin B) where
  abbrev pub MadeBefore : Times → Response B → Type 0
  MadeBefore times r = (t : ℕ) × (r.served_at ≡ some t) × (t < times.asked)

  -- The call is handed an answer from before it: that of an earlier call of its render on any
  -- policy, or else one that the cache holds, where the policy lets the cache answer.
  abbrev pub AnsweredBefore : Option (Response B) → CachePolicy → Times → Source → dc.State → Type 0
  AnsweredBefore (some r) policy times source s = MadeBefore times r
  AnsweredBefore none no_store times source s = ⊥
  AnsweredBefore none (force_cache tags revalidate) times source s =
      (x : Stored B) × (dc.get times.asked s source ≡ some x) × MadeBefore times x.response

  from-cache :
      (times : Times) (at : Option ℕ)
      → served_from times.asked at ≡ cache
      → (t : ℕ) × (at ≡ some t) × (t < times.asked)
  unfolding served_from
  from-cache times none h = cc
  from-cache times (some t) h = (t, refl, ground arith)

  from-origin :
      (times : Times) (t : ℕ) → times.asked ≤ t → served_from times.asked (some t) ≡ origin
  unfolding served_from
  from-origin times t h = ground arith

  module _ (stamped : IsStamped api) (times : Times) (source : Source) (s : dc.State)
      (clock : times.asked ≤ times.stamped) where
    answer-from :
        (sent : SentHeaders) (r : Response B)
        → api times.stamped sent source ≡ some r
        → (served_of times r).from ≡ origin
    unfolding served_of
    answer-from sent r e =
        rw (stamped times.stamped sent source r e) (from-origin times times.stamped clock)

    ask-from :
        (found : Option (Stored B)) (tags : List Tag) (revalidate : Option ℕ) (r : Response B)
        → (ask dc api found times tags revalidate source s).0 ≡ some r
        → ((served_of times r).from ≡ cache) ↔ (
            (x : Stored B) × (found ≡ some x)
            × ((t : ℕ) × (x.response.served_at ≡ some t) × (t < times.asked)))
    unfolding ask served_of served_from
    ask-from (some x) tags revalidate r e =
        let same : x.response ≡ r = cc in
        (
          λ h. (x, refl, rw (← same) at (from-cache times r.served_at h)),
          λ (y, is_y, (t, at, before)). ground arith,
        )
    ask-from none tags revalidate r e =
        let made =
          sym (
            keep_answer-answer dc api
              (api times.stamped (record { request_id = none; no_cache = false }) source) times tags
              source revalidate s)
          ∙ e in
        let not_cache = answer-from (record { request_id = none; no_cache = false }) r made in
        (λ h. absurd (cc), λ (x, nothing, more). absurd (cc))

  fetch_unmemoized-from :
      (policy : CachePolicy) (stamped : IsStamped api) (times : Times) (source : Source)
      (s : dc.State)
      → times.asked ≤ times.stamped
      → (r : Response B) → (fetch_unmemoized dc api policy times source s).0 ≡ some r
      → ((served_of times r).from ≡ cache) ↔ AnsweredBefore none policy times source s
  unfolding fetch_unmemoized headers_for
  fetch_unmemoized-from no_store stamped times source s clock r e =
      let not_cache =
        answer-from stamped times source s clock (headers_for no_store times.rid) r e in
      (λ h. absurd (cc), λ h. absurd h)
  fetch_unmemoized-from (force_cache tags revalidate) stamped times source s clock r e =
      ask-from stamped times source s clock (dc.get times.asked s source) tags revalidate r e

  fetch-from :
      (memo : Option (Response B)) (policy : CachePolicy) (stamped : IsStamped api) (times : Times)
      (source : Source) (s : dc.State)
      → times.asked ≤ times.stamped
      → (r : Response B) → (fetch dc api memo policy times source s).0 ≡ some r
      → ((served_of times r).from ≡ cache) ↔ AnsweredBefore memo policy times source s
  unfolding fetch served_of served_from
  fetch-from none policy stamped times source s clock r e =
      fetch_unmemoized-from policy stamped times source s clock r e
  fetch-from (some m) policy stamped times source s clock r e =
      let same : m ≡ r = cc in
      (λ h. rw (← same) at (from-cache times r.served_at h), λ (t, at, before). ground arith)

  with_served-some :
      (answer : Option (Response B)) (times : Times) (r : Response B) (served : Served)
      → with_served dc api times answer ≡ some (r, served)
      → (answer ≡ some r) × (served ≡ served_of times r)
  unfolding with_served
  with_served-some none times r served e = absurd (cc)
  with_served-some (some r') times r served e = (ground arith, ground arith)

  -- A call's answer is labelled `cache` exactly if an earlier call of its render, on any policy,
  -- got it, or else the data cache may answer the call and does, in both cases with an answer that
  -- the API stamped before the call. It takes an API that stamps its answers, by
  -- the clock by which the call is timed.
  pub call_api-from_iff :
      (memo : Option (Response B)) (stamped : IsStamped api) (policy : CachePolicy) (times : Times)
      (source : Source) (s : dc.State) (r : Response B) (served : Served)
      → times.asked ≤ times.stamped
      → (call_api dc api memo policy times source s).0 ≡ some (r, served)
      → (served.from ≡ cache) ↔ AnsweredBefore memo policy times source s
  unfolding call_api
  call_api-from_iff memo stamped policy times source s r served clock e =
      let (answer, is_served) = with_served-some _ times r served e in
      rw is_served (fetch-from memo policy stamped times source s clock r answer)
