-- ===== src/Frontend/Api.antt =====
-- The cached reads of apps/frontend/lib/api.ts: `callApi` and the fetches, over the data cache of
-- Next.
pub mod Actions
pub mod Label
mod Tests
use drills.Prelude.{
  ℕ, ◌-◌, ◌≡◌, ◌⊎◌, Bool, true, false, ◌&&◌, ◌||◌, Option, none, some, List, [], ◌∷◌, any, ltb, leb,
  ◌==◌, if◌then◌else◌,
}
use drills.Prelude.Text.{Text, text_eq}
use drills.Frontend.Arms.{
  CacheArm, cache_arm, Tag, tag_eq, Target, tags_after_write, CachePolicy, policy_for, nostore,
  cached, tagged, blanket, org, conversations, agents, stats, conversation, no_store, force_cache,
}
use drills.Frontend.Sources.{
  Param, ListParams, set_param, query_of, Resource, Source, page_key, page_size_key, sort_key,
  status_key, updated_from_key, updated_to_key, paging_key, cursor_key, list_page, all_agents,
  org_stats, row, messages,
}

-- A response, with the headers that `callApi` reads. A date that does not parse is none.
pub record Response (B : Type 0) : Type 0 where
  pub status : ℕ
  pub body : B
  pub served_at : Option ℕ
  pub request_id : Option Text

-- An entry of the data cache.
pub record Stored (B : Type 0) : Type 0 where
  pub tags : List Tag
  pub response : Response B

unfoldable pub has_tag : Tag → List Tag → Bool
unfolding tag_eq
has_tag tag tags = any (tag_eq tag) tags

unfoldable pub drop_tagged : {B : Type 0} → Tag → Option (Stored B) → Option (Stored B)
unfolding has_tag
drop_tagged tag none = none
drop_tagged tag (some x) = if has_tag tag x.tags then none else some x

-- The data cache of Next as its documentation has it: `get` is what a fetch with
-- `force-cache` finds at a time, `put` what it leaves after it asked the origin, which may be
-- dropped again, and `expire` is `updateTag`, or `revalidateTag` with `expire: 0`.
pub record DataCache (B : Type 0) : Type 1 where
  pub State : Type 0
  pub get : ℕ → State → Source → Option (Stored B)
  pub put : ℕ → Source → Option ℕ → Stored B → State → State
  pub expire : Tag → State → State
  pub get-put :
      (now later : ℕ) (source source' : Source) (revalidate : Option ℕ) (x y : Stored B) (s : State)
      → get now (put later source revalidate x s) source' ≡ some y
      → ((source' ≡ source) × (y ≡ x)) ⊎ (get now s source' ≡ some y)
  pub get-expire :
      (now : ℕ) (tag : Tag) (source : Source) (s : State)
      → get now (expire tag s) source ≡ drop_tagged tag (get now s source)

-- The headers that `callApi` sends besides the organisation: its id, and `cache-control: no-cache`.
pub record SentHeaders : Type 0 where
  pub request_id : Option Text
  pub no_cache : Bool

unfoldable pub headers_for : CachePolicy → Text → SentHeaders
headers_for no_store rid = record { request_id = some rid; no_cache = true }
headers_for (force_cache tags revalidate) rid = record { request_id = none; no_cache = false }

-- The API, by the time at which it answers; none is no answer.
abbrev pub Origin : Type 0 → Type 0
Origin B = ℕ → SentHeaders → Source → Option (Response B)

-- The id of the request that makes a call, when it is made, when the API answers it if it is
-- asked, and when the call ends.
pub record Times : Type 0 where
  pub rid : Text
  pub asked : ℕ
  pub stamped : ℕ
  pub ended : ℕ

pub data ServedFrom : Type 0 where
  origin cache : ServedFrom

pub record Served : Type 0 where
  pub from : ServedFrom
  pub age_ms : ℕ
  pub rid : Option Text

abbrev pub unserved : Served
unserved = record { from = origin; age_ms = 0; rid = none }

unfoldable pub served_from : ℕ → Option ℕ → ServedFrom
served_from asked none = origin
served_from asked (some served_at) = if ltb served_at asked then cache else origin

-- Math.max (0, ended - served_at)
unfoldable pub age_of : ℕ → Option ℕ → ℕ
age_of ended none = 0
age_of ended (some served_at) = ended - served_at

unfoldable pub served_of : {B : Type 0} → Times → Response B → Served
unfolding served_from age_of
served_of times r = record {
  from = served_from times.asked r.served_at;
  age_ms = age_of times.ended r.served_at;
  rid = r.request_id;
}

-- What a fetch returns. An error has the status of the API, unless nobody answered.
pub data Fetched (B : Type 0) : Type 0 where
  loaded : B → Served → Fetched B
  refused : Option B → ℕ → Served → Fetched B
  unreachable : Served → Fetched B

module _ {B : Type 0} (dc : DataCache B) (api : Origin B) where
  -- The origin's answer is stored.
  unfoldable pub keep_answer :
      Option (Response B)
      → Times
      → List Tag
      → Option ℕ
      → Source
      → dc.State
      → Option (Response B) × dc.State
  keep_answer none times tags revalidate source s = (none, s)
  keep_answer (some r) times tags revalidate source s =
      (some r, dc.put times.stamped source revalidate (record { tags = tags; response = r }) s)

  -- `fetch` with `force-cache`, once the cache is read.
  unfoldable pub ask :
      Option (Stored B)
      → Times
      → List Tag
      → Option ℕ
      → Source
      → dc.State
      → Option (Response B) × dc.State
  unfolding keep_answer headers_for
  ask (some x) times tags revalidate source s = (some x.response, s)
  ask none times tags revalidate source s =
      keep_answer (api times.stamped (headers_for (force_cache tags revalidate) times.rid) source)
        times tags revalidate source s

  -- `fetch`, by the data cache or the API.
  unfoldable pub fetch_unmemoized :
      CachePolicy → Times → Source → dc.State → Option (Response B) × dc.State
  unfolding ask headers_for
  fetch_unmemoized no_store times source s =
      (api times.stamped (headers_for no_store times.rid) source, s)
  fetch_unmemoized (force_cache tags revalidate) times source s =
      ask (dc.get times.asked s source) times tags revalidate source s

  unfoldable pub with_served : Times → Option (Response B) → Option (Response B × Served)
  unfolding served_of
  with_served times none = none
  with_served times (some r) = some (r, served_of times r)

  -- `response.ok`
  abbrev is_ok_status : ℕ → Bool
  is_ok_status status = leb 200 status && leb status 299

  -- The list's error carries the body.
  unfoldable pub read_result : Bool → Option (Response B × Served) → Fetched B
  read_result detailed none = unreachable unserved
  read_result detailed (some (r, served)) =
      if is_ok_status r.status
      then loaded r.body served
      else refused (if detailed then some r.body else none) r.status served

  -- Within one render, a call with the arguments of an earlier one is handed the response that
  -- the earlier call got, if it got one: Next memoizes `fetch` for the length of the request.
  module _ (memo : Option (Response B)) where
    unfoldable pub fetch : CachePolicy → Times → Source → dc.State → Option (Response B) × dc.State
    unfolding fetch_unmemoized
    fetch policy times source s = elim memo [
      | some r ↦ (some r, s)
      | none ↦ fetch_unmemoized policy times source s
    ]

    -- `callApi`; a fetch that throws is none.
    unfoldable pub call_api :
        CachePolicy → Times → Source → dc.State → Option (Response B × Served) × dc.State
    unfolding fetch with_served
    call_api policy times source s =
        let (answer, s') = fetch policy times source s in (with_served times answer, s')

    unfoldable pub fetch_with :
        Bool → CachePolicy → Times → Source → dc.State → Fetched B × dc.State
    unfolding call_api read_result
    fetch_with detailed policy times source s =
        let (answer, s') = call_api policy times source s in (read_result detailed answer, s')

    -- `fetchConversations` on its query string.
    unfoldable pub fetch_list :
        ℕ → List (Param × Text) → CacheArm → Times → dc.State → Fetched B × dc.State
    unfolding fetch_with policy_for
    fetch_list o query arm times s =
        fetch_with true (policy_for arm (org o ∷ conversations o ∷ []) none) times
          (record { org_id = o; resource = list_page query }) s

    unfoldable pub fetch_conversations :
        ℕ → ListParams → CacheArm → Times → dc.State → Fetched B × dc.State
    unfolding fetch_list query_of
    fetch_conversations o params arm times s = fetch_list o (query_of params) arm times s

    unfoldable pub fetch_agents : ℕ → CacheArm → Times → dc.State → Fetched B × dc.State
    unfolding fetch_with policy_for
    fetch_agents o arm times s =
        fetch_with false (policy_for arm (org o ∷ agents o ∷ []) none) times
          (record { org_id = o; resource = all_agents }) s

    abbrev stats_max_age_s : ℕ
    stats_max_age_s = 60

    unfoldable pub fetch_org_stats : ℕ → CacheArm → Times → dc.State → Fetched B × dc.State
    unfolding fetch_with policy_for
    fetch_org_stats o arm times s =
        fetch_with false (policy_for arm (org o ∷ stats o ∷ []) (some stats_max_age_s)) times
          (record { org_id = o; resource = org_stats }) s

    unfoldable pub fetch_conversation : ℕ → ℕ → CacheArm → Times → dc.State → Fetched B × dc.State
    unfolding fetch_with policy_for
    fetch_conversation o id arm times s =
        fetch_with false (policy_for arm (org o ∷ conversation id ∷ []) none) times
          (record { org_id = o; resource = row id }) s

    unfoldable pub fetch_messages : ℕ → ℕ → CacheArm → Times → dc.State → Fetched B × dc.State
    unfolding fetch_with policy_for
    fetch_messages o id arm times s =
        fetch_with false (policy_for arm (org o ∷ conversation id ∷ []) none) times
          (record { org_id = o; resource = messages id }) s

    -- The fetch of a source.
    unfoldable pub fetch_source : Source → CacheArm → Times → dc.State → Fetched B × dc.State
    unfolding fetch_list fetch_agents fetch_org_stats fetch_conversation fetch_messages
    fetch_source source arm times s = elim source.resource [
      | list_page query ↦ fetch_list source.org_id query arm times s
      | all_agents ↦ fetch_agents source.org_id arm times s
      | org_stats ↦ fetch_org_stats source.org_id arm times s
      | row id ↦ fetch_conversation source.org_id id arm times s
      | messages id ↦ fetch_messages source.org_id id arm times s
    ]
