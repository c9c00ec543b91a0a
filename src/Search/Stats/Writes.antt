-- ===== src/Search/Stats/Writes.antt =====
-- What a step writes.
use drills.Prelude.{ℕ, ◌+◌, ◌≡◌, ◌⊎◌, inl, inr, refl, true, false, Option, some, ◌∷◌, arith}
use drills.Search.Messages.{MessageStats}
use drills.Search.Stats.{
  Phase, idle, claiming, rereading, computing_only, computing, storing, releasing, polling, done,
  Event, claim_lock, advance,
}
use drills.Search.StatsCache.{
  StatsCacheMode, Envelope, Redis, Reply, answered, failed_reply, set_if_absent, del_if_equals, put,
  applied,
}

-- What is written: nothing, or the value of a request that had computed it.
unfoldable pub Writes : Event → Phase → Redis → Redis → Type 0
Writes e phase r r' =
    ((r'.entry ≡ r.entry) × (r'.stored ≡ r.stored))
    ⊎ ((owner : Option ℕ) × (v : Envelope) × (keep : ℕ) × (phase ≡ storing owner v keep)
        × (r'.entry ≡ some (record { envelope = v; expires_at = e.now + keep }))
        × (r'.stored ≡ v ∷ r.stored))

claim_lock-kept :
    (cached : Option Envelope) (deadline : ℕ) (e : Event) (r : Redis)
    → ((claim_lock cached deadline e r).1.entry ≡ r.entry)
      × ((claim_lock cached deadline e r).1.stored ≡ r.stored)
unfolding claim_lock set_if_absent
claim_lock-kept cached deadline e r = ground arith

released-kept :
    (reply : Reply) (p : ℕ) (r : Redis)
    → ((applied reply r (del_if_equals p r)).entry ≡ r.entry)
      × ((applied reply r (del_if_equals p r)).stored ≡ r.stored)
unfolding del_if_equals
released-kept reply p r = ground arith

put-Writes :
    (e : Event) (owner : Option ℕ) (v : Envelope) (keep : ℕ) (r : Redis) (reply : Reply)
    → Writes e (storing owner v keep) r (applied reply r (put v (e.now + keep) r))
unfolding Writes put
put-Writes e owner v keep r answered = inr (owner, v, keep, refl, refl, refl)
put-Writes e owner v keep r (failed_reply true) = inr (owner, v, keep, refl, refl, refl)
put-Writes e owner v keep r (failed_reply false) = inl (refl, refl)

pub advance-Writes :
    (mode : StatsCacheMode) (aggregate : ℕ → MessageStats) (e : Event) (phase : Phase) (r : Redis)
    → Writes e phase r (advance mode aggregate e phase r).1
unfolding advance Writes put
advance-Writes mode aggregate e idle r = inl (refl, refl)
advance-Writes mode aggregate e (claiming cached deadline) r =
    inl (claim_lock-kept cached deadline e r)
advance-Writes mode aggregate e (rereading cached deadline since) r = inl (refl, refl)
advance-Writes mode aggregate e (computing_only bypassed) r = inl (refl, refl)
advance-Writes mode aggregate e (computing owner background) r = inl (refl, refl)
advance-Writes mode aggregate e (storing owner v keep) r = put-Writes e owner v keep r e.reply
advance-Writes mode aggregate e (releasing since) r = inl (released-kept e.reply e.request r)
advance-Writes mode aggregate e (polling deadline) r = inl (refl, refl)
advance-Writes mode aggregate e done r = inl (refl, refl)
