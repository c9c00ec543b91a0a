-- ===== src/Jobs/Terms.antt =====
-- Terms: however the lease passes between processes, no two hold the same one.
use drills.Prelude.{
  ℕ, suc, ◌≤◌, ◌≡◌, ◌≢◌, refl, none, List, [], ◌∷◌, ◌==◌, ◌⊎◌, inl, if◌then◌else◌, arith,
}
use drills.Jobs.{Lease, acquire, del_if_equals, Reply, taken, lead, hand_back}

-- Process `p` leads or stops, or the lease expires.
pub data Move : Type 0 where
  leads stops : ℕ → Reply → Move
  expires : Move

pub record State : Type 0 where
  pub lease : Lease
  pub terms : ℕ → ℕ

unfoldable pub set_term : ℕ → ℕ → (ℕ → ℕ) → ℕ → ℕ
set_term p term terms q = if q == p then term else terms q

unfoldable pub step : Move → State → State
step (leads p reply) s =
    let ((leading, term), l) = lead reply p (s.terms p) s.lease in
    record { lease = l; terms = set_term p term s.terms }
step (stops p reply) s = record {
  lease = hand_back reply p (s.terms p) s.lease;
  terms = set_term p 0 s.terms;
}
step expires s = record s { lease = record s.lease { holder = none } }

unfoldable pub steps : List Move → State → State
unfolding step
steps [] s = s
steps (move ∷ moves) s = steps moves (step move s)

-- The terms held are of those given, and no two processes hold the same one.
IsTermed : State → Type 0
IsTermed s =
    ((p : ℕ) → s.terms p ≤ s.lease.terms)
    × ((p q : ℕ) → s.terms p ≢ 0 → s.terms p ≡ s.terms q → p ≡ q)

-- What `lead` leaves: no term, the term that was held, or a new one.
lead-terms :
    (reply : Reply) (p term : ℕ) (l : Lease)
    → let ((leading, term'), l') = lead reply p term l in
      (l.terms ≤ l'.terms)
      × ((term' ≡ 0) ⊎ (term' ≡ term) ⊎ ((term' ≡ suc l.terms) × (l'.terms ≡ suc l.terms)))
unfolding lead taken acquire
lead-terms reply p term l = ground arith

hand_back-terms :
    (reply : Reply) (p term : ℕ) (l : Lease) → (hand_back reply p term l).terms ≡ l.terms
unfolding hand_back del_if_equals
hand_back-terms reply p term l = ground arith

-- A process's new term: none, its own, or one that nobody has.
set_term-IsTermed :
    (lease lease' : Lease) (terms : ℕ → ℕ) (p term : ℕ)
    → IsTermed (record { lease = lease; terms = terms })
    → lease.terms ≤ lease'.terms
    → (term ≡ 0) ⊎ (term ≡ terms p) ⊎ ((term ≡ suc lease.terms) × (lease'.terms ≡ suc lease.terms))
    → IsTermed (record { lease = lease'; terms = set_term p term terms })
unfolding IsTermed set_term
set_term-IsTermed lease lease' terms p term (low, own) grows is = (
  λ q. ground (arith, low q, low p),
  λ q r held same. ground (arith, low q, low r, own q r, own p r, own q p),
)

step-IsTermed : (move : Move) (s : State) → IsTermed s → IsTermed (step move s)
unfolding step IsTermed
step-IsTermed (leads p reply) s h =
    let (grows, is) = lead-terms reply p (s.terms p) s.lease in
    set_term-IsTermed s.lease (lead reply p (s.terms p) s.lease).1 s.terms p
      (lead reply p (s.terms p) s.lease).0.1 h grows is
step-IsTermed (stops p reply) s h =
    set_term-IsTermed s.lease (hand_back reply p (s.terms p) s.lease) s.terms p 0 h
      (omega (arith, hand_back-terms reply p (s.terms p) s.lease)) (inl refl)
step-IsTermed expires s h = h

steps-IsTermed : (moves : List Move) (s : State) → IsTermed s → IsTermed (steps moves s)
unfolding steps
steps-IsTermed [] s h = h
steps-IsTermed (move ∷ moves) s h = steps-IsTermed moves (step move s) (step-IsTermed move s h)

-- No process leads.
unfoldable pub leaderless : Lease → State
leaderless l = record { lease = l; terms = λ p. 0 }

-- From a state where no process leads, however processes lead, stop, lose commands and the lease
-- expires, two processes that hold the same term are one: a term that is not 0 names its holder.
pub terms_distinct :
    (moves : List Move) (l : Lease) (p q : ℕ)
    → (steps moves (leaderless l)).terms p ≢ 0
    → (steps moves (leaderless l)).terms p ≡ (steps moves (leaderless l)).terms q
    → p ≡ q
unfolding IsTermed leaderless
terms_distinct moves l p q held same =
    (steps-IsTermed moves (leaderless l) (λ r. omega arith, λ r q no same. ground arith)).1 p q held
      same
