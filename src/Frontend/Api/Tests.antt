-- ===== src/Frontend/Api/Tests.antt =====
-- A conversation that is read, closed and read again, over a cache that keeps each answer
-- until its tags are expired.
use drills.Prelude.{
  ℕ, ◌+◌, ◌≡◌, ◌⊎◌, ◌↔◌, inl, inr, refl, ap, sym, subst, Bool, true, false, ◌&&◌, Option, none,
  some, List, [], ◌∷◌, ◌==◌, if◌then◌else◌, Bool-cases, arith,
}
use drills.Prelude.Text.{Text, text_eq, text_eq_iff}
use drills.Frontend.Api.{
  fetch, ask, with_served, served_of, served_from, age_of, drop_tagged, Stored, DataCache, Origin,
  Times, Served, cache, fetch_source, call_api, fetch, fetch_unmemoized,
}
use drills.Frontend.Arms.{
  CachePolicy, nostore, cached, tagged, cache_arm, Target, Tag, force_cache, org, stats,
}
use drills.Frontend.Sources.{
  Param, page_key, page_size_key, sort_key, status_key, updated_from_key, updated_to_key,
  paging_key, cursor_key, Resource, list_page, all_agents, org_stats, row, messages, Source,
}
use drills.Frontend.Api.Actions.{WriteReply, accepted}
use drills.Frontend.Api.Actions.Expired.{
  expires, by_claim, by_status, by_route, write, IsTagged, tags_for, get-write,
}
use drills.Frontend.Api.Actions.Fresh.{run-FromApi}
use drills.Frontend.Api.Actions.Held.{Event, reads, writes, FromApi, IsStamped, run}
use drills.Frontend.Api.Label.{AnsweredBefore, call_api-from_iff}

abbrev number : Param → ℕ
number page_key = 0
number page_size_key = 1
number sort_key = 2
number status_key = 3
number updated_from_key = 4
number updated_to_key = 5
number paging_key = 6
number cursor_key = 7

number_sound : (k j : Param) → number k == number j ≡ true → k ≡ j
number_sound k j h = ground arith

abbrev query_eq : List (Param × Text) → List (Param × Text) → Bool
query_eq [] [] = true
query_eq ((k, t) ∷ q) ((j, u) ∷ r) = number k == number j && text_eq t u && query_eq q r
query_eq _ _ = false

query_eq_sound : (q r : List (Param × Text)) → query_eq q r ≡ true → q ≡ r
query_eq_sound [] [] h = refl
query_eq_sound [] (p ∷ r) h = cc
query_eq_sound (p ∷ q) [] h = cc
query_eq_sound ((k, t) ∷ q) ((j, u) ∷ r) h =
    ground (arith, number_sound k j, text_eq_iff t u, query_eq_sound q r)

abbrev resource_eq : Resource → Resource → Bool
resource_eq (list_page q) (list_page r) = query_eq q r
resource_eq all_agents all_agents = true
resource_eq org_stats org_stats = true
resource_eq (row i) (row j) = i == j
resource_eq (messages i) (messages j) = i == j
resource_eq _ _ = false

abbrev source_eq : Source → Source → Bool
source_eq a b = a.org_id == b.org_id && resource_eq a.resource b.resource

resource_eq_sound : (a b : Resource) → resource_eq a b ≡ true → a ≡ b
resource_eq_sound (list_page q) (list_page r) h = ap list_page (query_eq_sound q r h)
resource_eq_sound all_agents all_agents h = refl
resource_eq_sound org_stats org_stats h = refl
resource_eq_sound (row i) (row j) h = ground arith
resource_eq_sound (messages i) (messages j) h = ground arith
resource_eq_sound (list_page q) all_agents h = cc
resource_eq_sound (list_page q) org_stats h = cc
resource_eq_sound a b h = ground arith

source_eq_sound : (a b : Source) → source_eq a b ≡ true → a ≡ b
source_eq_sound a b h = ground (arith, resource_eq_sound a.resource b.resource)

abbrev State : Type 0
State = Source → Option (Stored ℕ)

abbrev get_entry : State → Source → Option (Stored ℕ)
get_entry s k = s k

abbrev put_entry : Source → Stored ℕ → State → State
put_entry source x s k = if source_eq k source then some x else s k

abbrev expire_entries : Tag → State → State
expire_entries tag s k = drop_tagged tag (s k)

get-put_entry :
    (source k : Source) (x y : Stored ℕ) (s : State)
    → get_entry (put_entry source x s) k ≡ some y
    → ((k ≡ source) × (y ≡ x)) ⊎ (get_entry s k ≡ some y)
get-put_entry source k x y s found = elim (Bool-cases (source_eq k source)) [
  | inl same ↦ let here = rw same at found in inl (source_eq_sound k source same, ground arith)
  | inr other ↦ inr (rw other at found)
]

abbrev next_cache : DataCache ℕ
next_cache = record {
  State = State;
  get = λ now s k. get_entry s k;
  put = λ now source revalidate x s. put_entry source x s;
  expire = λ tag s. expire_entries tag s;
  get-put = λ now later source k revalidate x y s found. get-put_entry source k x y s found;
  get-expire = λ now tag k s. refl;
}

-- The body is the time of the answer.
abbrev api : Origin ℕ
api t sent source = some (record { status = 200; body = t; served_at = some t; request_id = none })

api-IsStamped : IsStamped api
api-IsStamped t sent source r e = ground arith

abbrev empty : State
empty k = none

abbrev seven : Target
seven = record { org_id = 1; id = 7 }

abbrev row_seven : Source
row_seven = record { org_id = 1; resource = row 7 }

abbrev other_stats : Source
other_stats = record { org_id = 1; resource = org_stats }

abbrev at_time : ℕ → Times
at_time t = record { rid = b'r' ∷ []; asked = t; stamped = t + 1; ended = t + 2 }

abbrev reply : WriteReply ℕ ℕ
reply = accepted 0

abbrev before : List (Event ℕ ℕ)
before = reads tagged (at_time 10) row_seven ∷ reads cached (at_time 12) other_stats ∷ []

abbrev after : List (Event ℕ ℕ)
after = reads nostore (at_time 101) other_stats ∷ writes by_route [] seven reply ∷ []

after_empty : (now : ℕ) (k : Source) → next_cache.get now empty k ≡ none
after_empty now k = refl

run-FromApi_example :
    FromApi api 100
      (at_time 110)
      row_seven
      (fetch_source next_cache api none row_seven cached (at_time 110) (
        run next_cache api after
          (write next_cache by_status [] seven reply (run next_cache api before empty)))).0
unfolding cache_arm
run-FromApi_example =
    run-FromApi next_cache api api-IsStamped before after empty by_status [] seven reply 100
      row_seven cached (at_time 110) after_empty refl (omega arith) (omega arith)

abbrev stored_stats : Stored ℕ
stored_stats = record {
  tags = org 1 ∷ stats 1 ∷ [];
  response = record { status = 200; body = 13; served_at = some 13; request_id = none };
}

abbrev one_entry : State
one_entry = put_entry other_stats stored_stats empty

one_entry-IsTagged : IsTagged next_cache one_entry
one_entry-IsTagged now source x found = elim (Bool-cases (source_eq source other_stats)) [
  | inl same ↦
      let here = rw same at found in
      subst (λ (k : Source). x.tags ≡ tags_for k) (sym (source_eq_sound source other_stats same))
        (ground arith)
  | inr other ↦ absurd (cc (rw other at found))
]

get-write_example :
    next_cache.get 20 (write next_cache by_claim [] seven reply one_entry) other_stats ≡ (
      if expires (cache_arm []) seven other_stats
      then none
      else next_cache.get 20 one_entry other_stats)
get-write_example =
    get-write next_cache by_claim [] seven reply one_entry 20 other_stats one_entry-IsTagged

abbrev by_tags : CachePolicy
by_tags = force_cache (org 1 ∷ stats 1 ∷ []) none

abbrev served : Served
served = record { from = cache; age_ms = 9; rid = none }

called :
    (call_api next_cache api none by_tags (at_time 20) other_stats one_entry).0
    ≡ some (stored_stats.response, served)
unfolding call_api fetch fetch_unmemoized ask with_served served_of served_from age_of
called = refl

call_api-from_iff_example :
    (served.from ≡ cache)
    ↔ AnsweredBefore next_cache api none by_tags (at_time 20) other_stats one_entry
call_api-from_iff_example =
    call_api-from_iff next_cache api none api-IsStamped by_tags (at_time 20) other_stats one_entry
      stored_stats.response served (omega arith) called
