-- ===== src/Entitlements/Interceptor/Isolation.antt =====
-- Whose traffic a request is judged by.
use drills.Prelude.{
  ℕ, ◌≡◌, refl, ◌∙◌, Bool, true, false, Option, none, some, List, [], ◌∷◌, ◌++◌, if◌then◌else◌,
  Bool-cases, inl, inr, arith,
}
use drills.Prelude.Text.{Text, text_eq, text_eq_refl, text_eq_iff}
use drills.Prelude.Sorting.{keep}
use drills.RateLimit.Arms.{Decision}
use drills.Entitlements.{CacheMode, Plan, World, set_plan, on_notice}
use drills.Entitlements.Interceptor.{
  OrgState, Shared, Request, Answer, Event, asks, sets, hears, serve, entitlement_prefix,
  entitlement_key, rate_limit_prefix, rate_limit_key, put_at, view, write_back, speaks_for,
  intercept_at, intercept, set_org, happen,
}

-- Keys with one prefix are as different as what follows it.
text_eq-append : (prefix x y : Text) → text_eq (prefix ++ x) (prefix ++ y) ≡ text_eq x y
text_eq-append [] x y = refl
text_eq-append (c ∷ prefix) x y = ground (arith, text_eq-append prefix x y)

entitlement_key-text_eq :
    (o org_id : Text) → text_eq (entitlement_key o) (entitlement_key org_id) ≡ text_eq o org_id
unfolding entitlement_key
entitlement_key-text_eq o org_id = text_eq-append entitlement_prefix o org_id

rate_limit_key-text_eq :
    (arm o org_id : Text)
    → text_eq (rate_limit_key arm o) (rate_limit_key arm org_id) ≡ text_eq o org_id
unfolding rate_limit_key
rate_limit_key-text_eq arm o org_id = text_eq-append (rate_limit_prefix arm) o org_id

put_at-own :
    {A : Type 0} (key : Text) (value : A) (values : Text → A) → put_at key value values key ≡ value
put_at-own key value values = rw (text_eq_refl key) refl

put_at-other :
    {A : Type 0} (key k : Text) (value : A) (values : Text → A)
    → text_eq k key ≡ false
    → put_at key value values k ≡ values k
put_at-other key k value values other = rw other refl

view-write_back_own :
    {S : Type 0} (arm o : Text) (s : OrgState S) (st : Shared S)
    → view arm o (write_back arm o s st) ≡ s
unfolding view write_back
view-write_back_own arm o s st = λ i. record {
  world = record {
    plan = put_at-own o s.world.plan st.plans i;
    entry = put_at-own (entitlement_key o) s.world.entry st.entries i;
  };
  bucket = put_at-own (rate_limit_key arm o) s.bucket st.buckets i;
}

view-write_back_other :
    {S : Type 0} (arm o org_id : Text) (s : OrgState S) (st : Shared S)
    → text_eq o org_id ≡ false
    → view arm o (write_back arm org_id s st) ≡ view arm o st
unfolding view write_back
view-write_back_other arm o org_id s st other =
    let entry =
      put_at-other (entitlement_key org_id) (entitlement_key o) s.world.entry st.entries
        (entitlement_key-text_eq o org_id ∙ other) in
    let bucket =
      put_at-other (rate_limit_key arm org_id) (rate_limit_key arm o) s.bucket st.buckets
        (rate_limit_key-text_eq arm o org_id ∙ other) in
    λ i. record {
      world = record {
        plan = put_at-other org_id o s.world.plan st.plans other i;
        entry = entry i;
      };
      bucket = bucket i;
    }

abbrev is_org : Text → Option Text → Bool
is_org o none = false
is_org o (some org_id) = text_eq o org_id

abbrev pub is_of : Text → Event → Bool
is_of o (asks req) = is_org o (speaks_for req)
is_of o (sets org_id plan now reply) = text_eq o org_id
is_of o (hears org_id reply) = text_eq o org_id

module _ {S : Type 0} (mode : CacheMode) (arm : Text) (limits : Plan → Option ℕ) (ttl_ms : ℕ)
    (decide : ℕ → ℕ → S → Option Decision × S) where
  -- What happens to one organisation, answered, in a run over all that happens.
  unfoldable pub answers_of : Text → List Event → Shared S → List (Option Answer)
  unfolding happen
  answers_of o [] st = []
  answers_of o (e ∷ es) st =
      let (answer, st') = happen mode arm limits ttl_ms decide e st in
      let rest = answers_of o es st' in if is_of o e then answer ∷ rest else rest

  -- An event of an organisation that there is nothing beside.
  unfoldable pub alone : Event → OrgState S → Option Answer × OrgState S
  unfolding serve
  alone (asks req) s =
      let (answer, s') = serve mode arm limits ttl_ms decide req s in (some answer, s')
  alone (sets org_id plan now reply) s =
      (none, record s { world = (set_plan mode reply limits plan now s.world).1 })
  alone (hears org_id reply) s = (none, record s { world = on_notice mode reply s.world })

  unfoldable pub serve_all : List Event → OrgState S → List (Option Answer)
  unfolding alone
  serve_all [] s = []
  serve_all (e ∷ es) s = let (answer, s') = alone e s in answer ∷ serve_all es s'

  set_org-other :
      (f : World → World) (o org_id : Text) (st : Shared S)
      → text_eq o org_id ≡ false
      → view arm o (set_org mode arm limits ttl_ms decide f org_id st) ≡ view arm o st
  unfolding set_org
  set_org-other f o org_id st other = view-write_back_other arm o org_id _ st other

  set_org-own :
      (f : World → World) (o org_id : Text) (st : Shared S)
      → text_eq o org_id ≡ true
      → view arm o (set_org mode arm limits ttl_ms decide f org_id st)
        ≡ record (view arm o st) { world = f (view arm o st).world }
  unfolding set_org
  set_org-own f o org_id st own =
      let same : o ≡ org_id = (text_eq_iff o org_id).0 own in
      rw (← same) (view-write_back_own arm o _ st)

  intercept_at-other :
      (spoken : Option Text) (o : Text) (req : Request) (st : Shared S)
      → is_org o spoken ≡ false
      → view arm o (intercept_at mode arm limits ttl_ms decide spoken req st).1 ≡ view arm o st
  unfolding intercept_at
  intercept_at-other none o req st other = refl
  intercept_at-other (some org_id) o req st other = view-write_back_other arm o org_id _ st other

  intercept_at-own :
      (spoken : Option Text) (o : Text) (req : Request) (st : Shared S)
      → is_org o spoken ≡ true
      → let (answer, st') = intercept_at mode arm limits ttl_ms decide spoken req st in
        let (own_answer, s) = serve mode arm limits ttl_ms decide req (view arm o st) in
        (answer ≡ own_answer) × (view arm o st' ≡ s)
  unfolding intercept_at
  intercept_at-own none o req st own = cc
  intercept_at-own (some org_id) o req st own =
      let same : o ≡ org_id = (text_eq_iff o org_id).0 own in
      rw (← same) (refl, view-write_back_own arm o _ st)

  -- An event of another organisation leaves this one alone.
  happen-other :
      (o : Text) (e : Event) (st : Shared S)
      → is_of o e ≡ false
      → view arm o (happen mode arm limits ttl_ms decide e st).1 ≡ view arm o st
  unfolding happen intercept
  happen-other o (asks req) st other = intercept_at-other (speaks_for req) o req st other
  happen-other o (sets org_id plan now reply) st other =
      set_org-other (λ w. (set_plan mode reply limits plan now w).1) o org_id st other
  happen-other o (hears org_id reply) st other =
      set_org-other (on_notice mode reply) o org_id st other

  happen-own :
      (o : Text) (e : Event) (st : Shared S)
      → is_of o e ≡ true
      → let (answer, st') = happen mode arm limits ttl_ms decide e st in
        let (own_answer, s) = alone e (view arm o st) in
        (answer ≡ own_answer) × (view arm o st' ≡ s)
  unfolding happen intercept alone
  happen-own o (asks req) st own =
      let (answer, state) = intercept_at-own (speaks_for req) o req st own in
      (rw answer refl, state)
  happen-own o (sets org_id plan now reply) st own =
      (refl, set_org-own (λ w. (set_plan mode reply limits plan now w).1) o org_id st own)
  happen-own o (hears org_id reply) st own =
      (refl, set_org-own (on_notice mode reply) o org_id st own)

  -- Over the keys that `entitlementKey` and `rateLimitKey` name, an organisation is answered as if
  -- it were alone: whatever requests and changes of plan of others come in between, the answers
  -- to its requests - run, or refused with which limit, with which headers - are those of its
  -- own requests, changes of plan and notices on its own state. Each of them is one step.
  pub answers_of-serve_all :
      (o : Text) (es : List Event) (st : Shared S)
      → answers_of o es st ≡ serve_all (keep (is_of o) es) (view arm o st)
  unfolding answers_of serve_all keep
  answers_of-serve_all o [] st = refl
  answers_of-serve_all o (e ∷ es) st =
      let rest = answers_of-serve_all o es (happen mode arm limits ttl_ms decide e st).1 in
      elim (Bool-cases (is_of o e)) [
        | inl own ↦
            let (answer, state) = happen-own o e st own in rw (own, answer, rest, state) refl
        | inr other ↦ rw (other, rest, happen-other o e st other) refl
      ]
