-- ===== src/RateLimit/Bounds.antt =====
-- How many requests the shipped limiter admits, and when it asks a refused client to come back.
use drills.Prelude.{
  ℕ, ◌+◌, ◌-◌, ◌*◌, ◌≤◌, ◌<◌, ◌≡◌, ◌↔◌, refl, ap, subst, true, false, List, [], ◌∷◌, if◌then◌else◌,
  arith,
}
use drills.RateLimit.{Key, Bucket, unit, refill, or_full, Reply, after_take, reply, take_token}
use drills.Prelude.Division.{ceil_div-le_iff}
use drills.RateLimit.Expiry.{taken, Holds, take_token-Holds, refill-Holds}

-- Requests at the given times, one after the other: the answers, in order.
unfoldable pub answers : (k : Key Bucket) → ℕ → List ℕ → k.State → List Reply
answers k limit [] s = []
answers k limit (now ∷ times) s =
    let (r, s') = take_token k limit now s in r ∷ answers k limit times s'

-- The same requests on a bucket that never expires.
unfoldable pub ideal_answers : ℕ → List ℕ → Bucket → List Reply
ideal_answers limit [] b = []
ideal_answers limit (now ∷ times) b =
    reply limit (refill limit now b) ∷ ideal_answers limit times (taken limit now b)

unfoldable pub admitted : List Reply → ℕ
admitted [] = 0
admitted (r ∷ rs) = (if r.allowed then 1 else 0) + admitted rs

-- Times that do not go back, from `lo` to `hi` at most.
abbrev pub Within : ℕ → ℕ → List ℕ → Type 0
Within lo hi [] = Unit
Within lo hi (t ∷ ts) = (lo ≤ t) × (t ≤ hi) × Within t hi ts

Holds-later :
    (k : Key Bucket) (limit : ℕ) (pos : 0 < limit) {lo now : ℕ} {s : k.State} {b : Bucket}
    → lo ≤ now
    → Holds k limit pos lo s b
    → Holds k limit pos now s b
Holds-later k limit pos p h later q = h later (omega arith)

abbrev bucket_at : ℕ → ℕ → Bucket
bucket_at now left = record { tokens = left; ts = now }

elapsed : (a b c limit : ℕ) → a ≤ b → b ≤ c → (c - a) * limit ≡ (b - a) * limit + (c - b) * limit
elapsed a b c limit h k =
    let parts : c - a ≡ (b - a) + (c - b) = omega arith in omega (arith, ap (λ t. t * limit) parts)

ideal_admitted :
    (limit lo hi : ℕ) (times : List ℕ) (b : Bucket)
    → Within lo hi times
    → b.ts ≤ lo
    → unit * admitted (ideal_answers limit times b) ≤ b.tokens + (hi - b.ts) * limit
unfolding ideal_answers admitted refill reply
ideal_admitted limit lo hi [] b w h = omega arith
ideal_admitted limit lo hi (now ∷ times) b w h =
    let ih = ideal_admitted limit now hi times (taken limit now b) w.2 (omega arith) in
    ground (arith, ih, elapsed b.ts now hi limit (omega arith) w.1)

module _ (k : Key Bucket) (limit : ℕ) (pos : 0 < limit) where
  take_token-reply :
      (now : ℕ) (s : k.State) (b : Bucket)
      → Holds k limit pos now s b
      → ((take_token k limit now s).0 ≡ reply limit (refill limit now b))
        × Holds k limit pos now (take_token k limit now s).1 (taken limit now b)
  unfolding take_token
  take_token-reply now s b h =
      let same = refill-Holds k limit pos now s b h in
      let same_bucket = ap (λ t. bucket_at now (after_take t)) same in
      (
        rw same,
        subst (Holds k limit pos now (take_token k limit now s).1) same_bucket
            (take_token-Holds k limit pos now s),
      )

  -- The key's time to live is never seen: requests at times that do not go back are answered as by
  -- a bucket that is kept for ever.
  answers-ideal_answers :
      (lo hi : ℕ) (times : List ℕ) (s : k.State) (b : Bucket)
      → Within lo hi times
      → Holds k limit pos lo s b
      → answers k limit times s ≡ ideal_answers limit times b
  unfolding answers ideal_answers
  answers-ideal_answers lo hi [] s b w h = refl
  answers-ideal_answers lo hi (now ∷ times) s b w h =
      let (same, holds) = take_token-reply now s b (Holds-later k limit pos w.0 h) in
      let ih =
        answers-ideal_answers now hi times (take_token k limit now s).1 (taken limit now b) w.2
          holds in
      rw (same, ih)

  -- One request's token and what it leaves fit in the bucket.
  spent :
      (now : ℕ) (s : k.State)
      → unit * (if (take_token k limit now s).0.allowed then 1 else 0)
          + (taken limit now (or_full limit now (k.read now s))).tokens
        ≤ limit * unit
  unfolding take_token reply refill
  spent now s = ground arith

  -- In any stretch of `width` milliseconds the limiter admits at most `limit` requests and the
  -- share of `limit` per minute that the stretch refills, whatever the key holds when it begins.
  pub admitted_bound :
      (from width : ℕ) (times : List ℕ) (s : k.State)
      → Within from (from + width) times
      → unit * admitted (answers k limit times s) ≤ limit * (unit + width)
  unfolding answers admitted
  admitted_bound from width [] s w = omega arith
  admitted_bound from width (now ∷ times) s w =
      let b = or_full limit now (k.read now s) in
      let s' = (take_token k limit now s).1 in
      let next = taken limit now b in
      let w' = w.2 in
      let same =
        answers-ideal_answers now (from + width) times s' next w'
          (take_token-Holds k limit pos now s) in
      let rest : unit * admitted (ideal_answers limit times next)
          ≤ next.tokens + (from + width - now) * limit =
        ideal_admitted limit now (from + width) times next w' (omega arith) in
      let all_of : width ≡ (now - from) + (from + width - now) = omega arith in
      let spread = ap (λ t. t * limit) all_of in rw same (omega (arith, rest, spread, spent now s))

  retry_wait :
      (tokens now later : ℕ)
      → (reply limit tokens).allowed ≡ false
      → now ≤ later
      → ((reply limit (refill limit later (bucket_at now (after_take tokens)))).allowed ≡ true)
        ↔ (now + (reply limit tokens).retry_ms ≤ later)
  unfolding refill reply
  retry_wait tokens now later refused h =
      let least = ceil_div-le_iff (unit - tokens) limit (later - now) pos in
      (λ e. ground (arith, least.1), λ e. ground (arith, least.0))

  answer_of :
      (now : ℕ) (s : k.State)
      → (take_token k limit now s).0
        ≡ reply limit (refill limit now (or_full limit now (k.read now s)))
  unfolding take_token
  answer_of now s = refl

  -- A refused client is told the exact wait: with no other request on the key, it is admitted at
  -- any time from `retry_ms` on, and at no time before.
  retry_ms-allowed_iff :
      (now later : ℕ) (s : k.State)
      → (take_token k limit now s).0.allowed ≡ false
      → now ≤ later
      → ((take_token k limit later (take_token k limit now s).1).0.allowed ≡ true)
        ↔ (now + (take_token k limit now s).0.retry_ms ≤ later)
  retry_ms-allowed_iff now later s refused h =
      let b = or_full limit now (k.read now s) in
      let holds = Holds-later k limit pos h (take_token-Holds k limit pos now s) in
      let again = take_token-reply later (take_token k limit now s).1 (taken limit now b) holds in
      let first = answer_of now s in
      let refused' : (reply limit (refill limit now b)).allowed ≡ false = rw first at refused in
      rw (again.0, first) (retry_wait (refill limit now b) now later refused' h)
