-- ===== src/RateLimit/Expiry.antt =====
-- The bucket's key may expire: what a request finds then is what it would have found.
use drills.Prelude.{ℕ, ◌+◌, ◌-◌, ◌≤◌, ◌<◌, ◌≡◌, ◌⊎◌, inl, inr, none, some, ltb, arith, Bool-cases}
use drills.Prelude.Division.{ceil_div-le_iff}
use drills.RateLimit.{Key, Bucket, capacity, max, refill, or_full, after_take, full_ms, take_token}

-- The bucket with no expiry.
abbrev pub taken : ℕ → ℕ → Bucket → Bucket
taken limit now b = record { tokens = after_take (refill limit now b); ts = now }

module _ (k : Key Bucket) (limit : ℕ) (pos : 0 < limit) where
  -- From `now` on the key holds the bucket `b`, or has expired with `b` full.
  abbrev pub Holds : ℕ → k.State → Bucket → Type 0
  Holds now s b =
      (later : ℕ)
      → now ≤ later
      → (k.read later s ≡ some b)
        ⊎ ((k.read later s ≡ none) × (refill limit later b ≡ capacity limit))

  full_at_expiry :
      (left now later : ℕ)
      → now + max (full_ms limit left) 1 ≤ later
      → refill limit later (record { tokens = left; ts = now }) ≡ capacity limit
  unfolding refill full_ms
  full_at_expiry left now later h =
      let enough =
        (ceil_div-le_iff (capacity limit - left) limit (later - now) pos).0 (ground arith) in
      omega (arith, enough)

  pub take_token-Holds :
      (now : ℕ) (s : k.State)
      → Holds now (take_token k limit now s).1 (taken limit now (or_full limit now (k.read now s)))
  unfolding take_token
  take_token-Holds now s later h =
      let left = after_take (refill limit now (or_full limit now (k.read now s))) in
      let ttl = max (full_ms limit left) 1 in
      let found = k.read-write now later (record { tokens = left; ts = now }) ttl s h in
      elim (Bool-cases (ltb later (now + ttl))) [
        | inl live ↦ inl (rw live at found)
        | inr over ↦ inr (rw over at found, full_at_expiry left now later (ground arith))
      ]

  -- What the script reads is what the bucket with no expiry holds.
  pub refill-Holds :
      (now : ℕ) (s : k.State) (b : Bucket)
      → Holds now s b
      → refill limit now (or_full limit now (k.read now s)) ≡ refill limit now b
  unfolding refill
  refill-Holds now s b h = elim (h now (omega arith)) [
    | inl found ↦ rw found
    | inr (gone, full) ↦ rw gone (ground (arith, full))
  ]
