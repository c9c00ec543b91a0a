-- ===== src/Frontend/Api/Actions/Held.antt =====
-- What the data cache holds as reads and writes go on: answers of the API, each with its time.
use drills.Prelude.{
  ℕ, ◌≤◌, ◌≡◌, inl, inr, refl, ap, sym, subst, subst₂, ◌∙◌, Bool, true, false, Option, none, some,
  List, [], ◌∷◌, All, if◌then◌else◌, Bool-cases, arith,
}
use drills.Prelude.Text.{Text}
use drills.Frontend.Api.{
  SentHeaders, headers_for, has_tag, drop_tagged, with_served, keep_answer, Response, Stored,
  DataCache, Origin, Times, served_of, Fetched, loaded, refused, unreachable, ask, fetch_unmemoized,
  fetch, call_api, read_result, fetch_with, fetch_list, fetch_agents, fetch_org_stats,
  fetch_conversation, fetch_messages, fetch_source,
}
use drills.Frontend.Arms.{
  CacheArm, nostore, cached, tagged, blanket, cache_arm, Tag, Target, tags_after_write, policy_for,
}
use drills.Frontend.Sources.{Resource, list_page, all_agents, org_stats, row, messages, Source}
use drills.Frontend.Api.Actions.{WriteReply, expire_all}
use drills.Frontend.Api.Actions.Expired.{tags_for, Way, write, write-expire_all}

-- The API stamps each answer with the time at which it makes it.
abbrev pub IsStamped : {B : Type 0} → Origin B → Type 0
IsStamped {B} api =
    (t : ℕ) (h : SentHeaders) (source : Source) (r : Response B)
    → api t h source ≡ some r
    → r.served_at ≡ some t

-- The answer is one that the API made at `since` or later.
abbrev pub AnsweredSince : {B : Type 0} → Origin B → ℕ → Source → Response B → Type 0
AnsweredSince api since source r =
    (t : ℕ) × (since ≤ t) × ((h : SentHeaders) × (api t h source ≡ some r)) × (r.served_at ≡ some t)

-- What is returned is such an answer, with its age, unless nobody answered.
abbrev pub FromApi : {B : Type 0} → Origin B → ℕ → Times → Source → Fetched B → Type 0
FromApi {B} api since times source (loaded body served) =
    (r : Response B) × AnsweredSince api since source r
    × (r.body ≡ body)
    × (served ≡ served_of times r)
FromApi {B} api since times source (refused body status served) =
    (r : Response B) × AnsweredSince api since source r
    × (r.status ≡ status)
    × (served ≡ served_of times r)
FromApi api since times source (unreachable served) = Unit

-- What happens on the server that renders: reads, and writes told to the cache by one of the ways.
-- A read that an earlier one of its render answers leaves the cache alone, and is no event.
pub data Event (A C : Type 0) : Type 0 where
  reads : CacheArm → Times → Source → Event A C
  writes : Way → Text → Target → WriteReply A C → Event A C

-- Every answer of the API in an event comes at `since` or later.
abbrev pub Since : {A C : Type 0} → ℕ → Event A C → Type 0
Since since (reads arm times source) = since ≤ times.stamped
Since since (writes way arm target reply) = Unit

-- What a call with the tags of its source answers and leaves.
abbrev pub revalidate_for : Source → Option ℕ
revalidate_for source = elim source.resource [
  | list_page query ↦ none
  | all_agents ↦ none
  | org_stats ↦ some 60
  | row id ↦ none
  | messages id ↦ none
]

abbrev pub is_detailed : Source → Bool
is_detailed source = elim source.resource [
  | list_page query ↦ true
  | all_agents ↦ false
  | org_stats ↦ false
  | row id ↦ false
  | messages id ↦ false
]

-- The headers of a fetch that the cache may answer.
abbrev pub shared : Times → SentHeaders
shared times = record { request_id = none; no_cache = false }

abbrev pub Entry : {B : Type 0} → Origin B → (Source → Bool) → ℕ → Source → Stored B → Type 0
Entry api about since source x =
    (x.tags ≡ tags_for source)
    × AnsweredSince api (if about source then since else 0) source x.response

module _ {B : Type 0} (dc : DataCache B) (api : Origin B) where
  unfoldable pub step : {A C : Type 0} → Event A C → dc.State → dc.State
  unfolding fetch_source write
  step (reads arm times source) s = (fetch_source dc api none source arm times s).1
  step (writes way arm target reply) s = write dc way arm target reply s

  unfoldable pub run : {A C : Type 0} → List (Event A C) → dc.State → dc.State
  unfolding step
  run [] s = s
  run (e ∷ events) s = run events (step e s)

  -- Every entry has the tags of its source and an answer of the API, made since `since` if
  -- the source is one of those in question.
  abbrev pub Holds : (Source → Bool) → ℕ → dc.State → Type 0
  Holds about since s =
      (now : ℕ) (source : Source) (x : Stored B)
      → dc.get now s source ≡ some x
      → Entry api about since source x

  fetch_source_lem :
      (o : ℕ) (resource : Resource) (arm : CacheArm) (times : Times) (s : dc.State)
      → let source : Source = record { org_id = o; resource = resource } in
        fetch_source dc api none source arm times s
        ≡ fetch_with dc api none
            (is_detailed source)
            (policy_for arm (tags_for source) (revalidate_for source))
            times
            source
            s
  unfolding fetch_source fetch_list fetch_agents fetch_org_stats fetch_conversation fetch_messages
  fetch_source_lem o (list_page query) arm times s = refl
  fetch_source_lem o all_agents arm times s = refl
  fetch_source_lem o org_stats arm times s = refl
  fetch_source_lem o (row id) arm times s = refl
  fetch_source_lem o (messages id) arm times s = refl

  fetch_source-state :
      (source : Source) (arm : CacheArm) (times : Times) (s : dc.State)
      → (fetch_source dc api none source arm times s).1
        ≡ (fetch_unmemoized dc api
            (policy_for arm (tags_for source) (revalidate_for source))
            times
            source
            s).1
  unfolding fetch_with call_api fetch
  fetch_source-state source arm times s =
      ap (λ (p : Fetched B × dc.State). p.1)
        (fetch_source_lem source.org_id source.resource arm times s)

  pub fetch_source-result :
      (source : Source) (arm : CacheArm) (times : Times) (s : dc.State)
      → (fetch_source dc api none source arm times s).0
        ≡ read_result dc api (is_detailed source) (
            with_served dc api times
              (fetch_unmemoized dc api
                (policy_for arm (tags_for source) (revalidate_for source))
                times
                source
                s).0)
  unfolding fetch_with call_api fetch
  fetch_source-result source arm times s =
      ap (λ (p : Fetched B × dc.State). p.0)
        (fetch_source_lem source.org_id source.resource arm times s)

  module _ (stamped : IsStamped api) (about : Source → Bool) (since : ℕ) where
    bound-le : (b : Bool) (t : ℕ) → since ≤ t → (if b then since else 0) ≤ t
    bound-le b t late = ground arith

    put-Holds :
        (times : Times) (sent : SentHeaders) (source : Source) (revalidate : Option ℕ)
        (r : Response B) (s : dc.State)
        → since ≤ times.stamped
        → api times.stamped sent source ≡ some r
        → Holds about since s
        → Holds about since (
            dc.put times.stamped source revalidate
              (record { tags = tags_for source; response = r })
              s)
    put-Holds times sent source revalidate r s late answer h now source' x found =
        let y : Stored B = record { tags = tags_for source; response = r } in
        let fresh : Entry api about since source y = (
          refl,
          (
            times.stamped,
            bound-le (about source) times.stamped late,
            (sent, answer),
            stamped times.stamped sent source r answer,
          ),
        ) in
        elim (dc.get-put now times.stamped source source' revalidate y x s found) [
          | inl (same, is_y) ↦
              subst₂ (λ (k : Source) (z : Stored B). Entry api about since k z) (sym same)
                (sym is_y) fresh
          | inr old ↦ h now source' x old
        ]

    keep_answer-Holds :
        (answer : Option (Response B)) (times : Times) (sent : SentHeaders) (source : Source)
        (revalidate : Option ℕ) (s : dc.State)
        → since ≤ times.stamped
        → api times.stamped sent source ≡ answer
        → Holds about since s
        → Holds about since
            (keep_answer dc api answer times (tags_for source) revalidate source s).1
    unfolding keep_answer
    keep_answer-Holds none times sent source revalidate s late is h = h
    keep_answer-Holds (some r) times sent source revalidate s late is h =
        put-Holds times sent source revalidate r s late is h

    ask-Holds :
        (found : Option (Stored B)) (times : Times) (source : Source) (revalidate : Option ℕ)
        (s : dc.State)
        → since ≤ times.stamped
        → Holds about since s
        → Holds about since (ask dc api found times (tags_for source) revalidate source s).1
    unfolding ask headers_for
    ask-Holds (some x) times source revalidate s late h = h
    ask-Holds none times source revalidate s late h =
        keep_answer-Holds (api times.stamped (shared times) source) times (shared times) source
          revalidate s late refl h

    fetch-Holds :
        (arm : CacheArm) (times : Times) (source : Source) (revalidate : Option ℕ) (s : dc.State)
        → since ≤ times.stamped
        → Holds about since s
        → Holds about since
            (fetch_unmemoized dc api (policy_for arm (tags_for source) revalidate) times source s).1
    unfolding fetch_unmemoized policy_for headers_for
    fetch-Holds nostore times source revalidate s late h = h
    fetch-Holds cached times source revalidate s late h =
        ask-Holds (dc.get times.asked s source) times source revalidate s late h
    fetch-Holds tagged times source revalidate s late h =
        ask-Holds (dc.get times.asked s source) times source revalidate s late h
    fetch-Holds blanket times source revalidate s late h =
        ask-Holds (dc.get times.asked s source) times source revalidate s late h

    drop_tagged-some :
        (tag : Tag) (found : Option (Stored B)) (x : Stored B)
        → drop_tagged tag found ≡ some x
        → found ≡ some x
    unfolding drop_tagged
    drop_tagged-some tag none x h = h
    drop_tagged-some tag (some y) x h = elim (Bool-cases (has_tag tag y.tags)) [
      | inl there ↦ cc
      | inr not_there ↦ ground arith
    ]

    expire_all-Holds :
        (tags : List Tag) (s : dc.State)
        → Holds about since s
        → Holds about since (expire_all dc tags s)
    unfolding expire_all
    expire_all-Holds [] s h = h
    expire_all-Holds (tag ∷ tags) s h =
        expire_all-Holds tags (dc.expire tag s) (λ now source x found. h now source x (
          drop_tagged-some tag (dc.get now s source) x
            (sym (dc.get-expire now tag source s) ∙ found)))

    step-Holds :
        {A C : Type 0} (e : Event A C) (s : dc.State)
        → Since since e
        → Holds about since s
        → Holds about since (step e s)
    unfolding step
    step-Holds (reads arm times source) s late h =
        subst (Holds about since) (sym (fetch_source-state source arm times s))
          (fetch-Holds arm times source (revalidate_for source) s late h)
    step-Holds (writes way arm target reply) s late h =
        subst (Holds about since) (sym (write-expire_all dc way arm target reply s))
          (expire_all-Holds (tags_after_write (cache_arm arm) target) s h)

    pub run-Holds :
        {A C : Type 0} (events : List (Event A C)) (s : dc.State)
        → All (λ e. Since since e) events
        → Holds about since s
        → Holds about since (run events s)
    unfolding run
    run-Holds [] s late h = h
    run-Holds (e ∷ events) s (now, late) h = run-Holds events (step e s) late (step-Holds e s now h)
