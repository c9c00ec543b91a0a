-- ===== src/Observability/Finish/Reports.antt =====
-- What is reported of a request.
use drills.Prelude.{
  ℕ, ◌+◌, ◌≡◌, refl, subst, Bool, true, ◌&&◌, ◌||◌, Option, none, some, List, [], ltb,
  if◌then◌else◌, arith,
}
use drills.Prelude.Result.{Result}
use drills.Prelude.Text.{Text}
use drills.Observability.Counters.{
  QueryCounterMode, off, on, header, counting, RequestContext, new_context,
}
use drills.Observability.Connections.{Pg, Action}
use drills.Observability.Connections.Accounts.{
  counted_in, restarts_in, Books, act_all-Books, is_inside, queries_of, retries_of,
}
use drills.Observability.Finish.{budget_of, finish, intercept, handle, Ending, or_omitted}

-- Each wait for a client ended as a client that is lent, as a hold or as an error.
abbrev pub IsBalanced : {Db : Type 0} → Pg Db → Type 0
IsBalanced pg =
    pg.process.wait.count
    ≡ pg.process.hold.count + pg.process.timeouts + pg.process.refusals + pg.lent

intercept-warned :
    (mode : QueryCounterMode) (debug : Bool) (declared : Option ℕ) (ending : Ending)
    (store : Option RequestContext) (n retries : ℕ)
    → is_inside store ≡ true
    → queries_of store ≡ (if counting mode then n else 0)
    → retries_of store ≡ retries
    → (intercept mode true debug declared ending store).warned ≡ (
        if counting mode && ltb (budget_of declared) n
        then some
            (record { queries = n; budget = budget_of declared; retries = or_omitted retries })
        else none)
unfolding intercept finish counting
intercept-warned off debug declared ending (some c) n retries inside q r = ground arith
intercept-warned on debug declared ending (some c) n retries inside q r = ground arith
intercept-warned header debug declared ending (some c) n retries inside q r = ground arith
intercept-warned mode debug declared ending none n retries inside q r = cc

intercept-txn_retries :
    (mode : QueryCounterMode) (debug : Bool) (declared : Option ℕ) (ending : Ending)
    (store : Option RequestContext) (retries : ℕ)
    → is_inside store ≡ true
    → retries_of store ≡ retries
    → (intercept mode true debug declared ending store).txn_retries
      ≡ (if debug || counting mode then or_omitted retries else none)
unfolding intercept finish counting
intercept-txn_retries off debug declared ending (some c) retries inside r = ground arith
intercept-txn_retries on debug declared ending (some c) retries inside r = ground arith
intercept-txn_retries header debug declared ending (some c) retries inside r = ground arith
intercept-txn_retries mode debug declared ending none retries inside r = cc

module _ {Db P E R : Type 0} (exec : Text → P → Db → Result E R × Db) (mode : QueryCounterMode)
    (tracing debug : Bool) (declared : Option ℕ) (id : Text) (actions : List (Action P E R))
    (ending : Ending) (pg : Pg Db) where
  -- A request begins.
  begun :
      pg.sent ≡ []
      → IsBalanced pg
      → Books mode pg.lent 0
          (record pg { process = record pg.process { store = some (new_context id) } })
  unfolding new_context
  begun empty balanced = record {
    acquires = balanced;
    lent_is = refl;
    inside = refl;
    queries_are = rw empty (ground arith);
    round_trips_are = rw empty (ground arith);
    restarts_are = refl;
  }

  handle-Books :
      pg.sent ≡ []
      → IsBalanced pg
      → Books mode pg.lent
          (restarts_in actions)
          (handle exec mode tracing debug declared id actions ending pg).1
  unfolding handle
  handle-Books empty balanced =
      let moved : restarts_in actions + 0 ≡ restarts_in actions = omega arith in
      let pg' = (handle exec mode tracing debug declared id actions ending pg).1 in
      subst (λ (n : ℕ). Books mode pg.lent n pg') moved
        (act_all-Books exec mode tracing actions pg.lent 0 _ (begun empty balanced))

  -- A request leaves the pool as it found it, whatever its statements and transactions answer
  -- and whichever connection fails: each client that it was lent is back, and each wait for
  -- one is matched by a hold or a counted error. It takes a pool whose numbers match before
  -- it.
  pub handle-IsBalanced :
      pg.sent ≡ []
      → IsBalanced pg
      → let pg' = (handle exec mode tracing debug declared id actions ending pg).1 in
        (pg'.lent ≡ pg.lent) × IsBalanced pg'
  handle-IsBalanced empty balanced =
      let books = handle-Books empty balanced in
      (books.lent_is, omega (arith, books.acquires, books.lent_is))

  -- A request over its budget is reported, and only such a one, as long as statements are
  -- counted: the number reported is that of the statements that were sent and count, those
  -- that failed included, and the budget is the declared one or 5.
  pub handle-warned :
      pg.sent ≡ []
      → IsBalanced pg
      → let (report, pg') = handle exec mode tracing debug declared id actions ending pg in
        report.warned ≡ (
          if counting mode && ltb (budget_of declared) (counted_in pg'.sent)
          then some (record {
            queries = counted_in pg'.sent;
            budget = budget_of declared;
            retries = or_omitted (restarts_in actions);
          })
          else none)
  unfolding handle
  handle-warned empty balanced =
      let books = handle-Books empty balanced in
      intercept-warned mode debug declared ending _ _ _ books.inside books.queries_are
        books.restarts_are

  -- The response says how many transactions were restarted, if any were, except where neither the
  -- queries are counted nor debug lines are logged: there it never does.
  pub handle-txn_retries :
      pg.sent ≡ []
      → IsBalanced pg
      → (handle exec mode tracing debug declared id actions ending pg).0.txn_retries
        ≡ (if debug || counting mode then or_omitted (restarts_in actions) else none)
  unfolding handle
  handle-txn_retries empty balanced =
      let books = handle-Books empty balanced in
      intercept-txn_retries mode debug declared ending _ _ books.inside books.restarts_are
