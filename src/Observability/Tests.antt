-- ===== src/Observability/Tests.antt =====
-- A request that a client names badly, with a query, a failed acquire and a restarted transaction.
use drills.Prelude.{
  ℕ, zero, suc, ◌+◌, ◌≤◌, ◌≡◌, ◌≢◌, refl, true, false, ◌&&◌, ◌||◌, Option, none, some, List, [],
  ◌∷◌, ◌++◌, map, length, ◌==◌, ltb, if◌then◌else◌, arith,
}
use drills.Prelude.Result.{Result, ok, err}
use drills.Prelude.Text.{Text}
use drills.Observability.RequestId.{request_id_for, sql_for, is_safe_id, all_safe, is_safe_char}
use drills.Observability.RequestId.Comment.{IsCommentLexer, request_id_for-commented}
use drills.Observability.Counters.{on, off, counting, pool_buckets, new_histogram, render_histogram}
use drills.Observability.Counters.Observed.{
  observe_all, at_most, sum_of, sample_for, render_histogram-observe_all,
}
use drills.Observability.Connections.{
  Pg, Program, done, query_then, control_then, Lending, Action, queries, transacts, restarts,
}
use drills.Observability.Connections.Accounts.{counted_in, restarts_in}
use drills.Observability.Finish.{budget_of, handle, returned, threw, or_omitted}
use drills.Observability.Finish.Reports.{
  IsBalanced, handle-IsBalanced, handle-warned, handle-txn_retries,
}

-- What follows a comment, `d` comments deep, after the character `before`.
skip_from : ℕ → ℕ → Text → Option Text
skip_from d before [] = none
skip_from d before (c ∷ text) = elim (before == b'*' && c == b'/') [
  | true ↦ elim d [ zero ↦ some text | suc e ↦ skip_from e 0 text ]
  | false ↦ elim (before == b'/' && c == b'*') [
    | true ↦ skip_from (suc d) 0 text
    | false ↦ skip_from d c text
  ]
]

skip_from_plain :
    (d c : ℕ) (text : Text) → c ≢ b'*' → c ≢ b'/' → skip_from d c text ≡ skip_from d 0 text
unfolding skip_from
skip_from_plain d c [] star slash = refl
skip_from_plain d c (x ∷ text) star slash = ground arith

skip-IsCommentLexer : IsCommentLexer (λ d text. skip_from d 0 text)
unfolding skip_from
skip-IsCommentLexer = record {
  closes = λ text. refl;
  closes_inner = λ d text. refl;
  opens = λ d text. refl;
  reads = λ d c text star slash. skip_from_plain d c text star slash;
}

-- "*/ x"
abbrev bad_id : Text
bad_id = b'*' ∷ b'/' ∷ b' ' ∷ b'x' ∷ []

abbrev uuid : Text
uuid = b'1' ∷ b'2' ∷ b'3' ∷ b'4' ∷ b'-' ∷ b'a' ∷ b'b' ∷ b'c' ∷ b'd' ∷ []

uuid_safe : is_safe_id uuid ≡ true
unfolding is_safe_id all_safe is_safe_char
uuid_safe = refl

abbrev select : Text
select = b's' ∷ b'e' ∷ b'l' ∷ []

request_id_for-commented_example :
    let (id, carrier') =
      request_id_for none uuid (record { header = some bad_id; request_id = none }) in
    ((body : Text) × (sql_for false (some id) select ≡ select ++ (b' ' ∷ b'/' ∷ b'*' ∷ body))
      × (skip_from 0 0 body ≡ some []))
    × (request_id_for none bad_id carrier' ≡ (id, carrier'))
request_id_for-commented_example =
    request_id_for-commented (λ d text. skip_from d 0 text) skip-IsCommentLexer none none uuid
      bad_id (record { header = some bad_id; request_id = none }) select tt uuid_safe tt

abbrev waits : List ℕ
waits = 400 ∷ 700 ∷ 3000000 ∷ []

render_histogram-observe_all_example :
    (render_histogram (observe_all waits new_histogram) ≡ (
      map (λ le. sample_for waits (some le)) pool_buckets ++ (sample_for waits none ∷ []),
      sum_of waits,
      length waits,
    ))
    × ((a b : ℕ)
        → a ≤ b
        → (at_most waits (some a) ≤ at_most waits (some b))
          × (at_most waits (some b) ≤ at_most waits none))
render_histogram-observe_all_example = render_histogram-observe_all waits

-- A server whose every second statement fails.
abbrev exec : Text → ℕ → ℕ → Result ℕ ℕ × ℕ
exec sql params db = (if (db == 1) then err 40001 else ok db, db + 1)

abbrev lending : Lending ℕ
lending = record { failure = none; waited = 300; held = 1200 }

abbrev refused : Lending ℕ
refused = record { failure = some (bad_id, 9); waited = 2000000; held = 0 }

abbrev program : Program ℕ ℕ ℕ ℕ
program =
    control_then select 0
      (λ begun. query_then select 1 (λ rows. control_then select 2 (λ ended. done rows)))

abbrev actions : List (Action ℕ ℕ ℕ)
actions =
    queries lending true select 0
    ∷ transacts lending program
    ∷ restarts
    ∷ queries refused true select 0
    ∷ transacts lending program
    ∷ []

abbrev idle : Pg ℕ
idle = record {
  process = record {
    store = none;
    wait = new_histogram;
    hold = new_histogram;
    timeouts = 0;
    refusals = 0;
  };
  lent = 0;
  discarded = 0;
  sent = [];
  db = 0;
}

idle-IsBalanced : IsBalanced idle
unfolding new_histogram
idle-IsBalanced = refl

handle-IsBalanced_example :
    let pg' = (handle exec on false false none uuid actions (returned 200) idle).1 in
    (pg'.lent ≡ idle.lent) × IsBalanced pg'
handle-IsBalanced_example =
    handle-IsBalanced exec on false false none uuid actions (returned 200) idle refl idle-IsBalanced

handle-warned_example :
    let (report, pg') = handle exec on false false (some 2) uuid actions (returned 200) idle in
    report.warned ≡ (
      if counting on && ltb (budget_of (some 2)) (counted_in pg'.sent)
      then some (record {
        queries = counted_in pg'.sent;
        budget = budget_of (some 2);
        retries = or_omitted (restarts_in actions);
      })
      else none)
handle-warned_example =
    handle-warned exec on false false (some 2) uuid actions (returned 200) idle refl idle-IsBalanced

handle-txn_retries_example :
    (handle exec off false false none uuid actions (threw none) idle).0.txn_retries
    ≡ (if false || counting off then or_omitted (restarts_in actions) else none)
handle-txn_retries_example =
    handle-txn_retries exec off false false none uuid actions (threw none) idle refl idle-IsBalanced
