-- ===== src/Frontend/Api/Actions/Fresh.antt =====
-- What a read answers after a write, over any reads and writes.
use drills.Prelude.{
  ℕ, ◌≤◌, ◌≡◌, inl, inr, refl, sym, subst, ◌∙◌, Bool, true, false, ◌&&◌, Option, none, some, List,
  [], ◌∷◌, All, leb, Bool-cases, arith,
}
use drills.Prelude.Text.{Text}
use drills.Frontend.Api.{
  SentHeaders, headers_for, with_served, keep_answer, Response, Stored, DataCache, Origin, Times,
  ask, fetch_unmemoized, read_result, fetch_source,
}
use drills.Frontend.Arms.{
  no_store, CacheArm, nostore, cached, tagged, blanket, cache_arm, Tag, Target, policy_for,
}
use drills.Frontend.Sources.{Source}
use drills.Frontend.Api.Actions.{WriteReply}
use drills.Frontend.Api.Actions.Expired.{tags_for, expires, Way, write, get-write}
use drills.Frontend.Api.Actions.Held.{
  IsStamped, AnsweredSince, FromApi, Event, reads, writes, Since, run, Holds, Entry, revalidate_for,
  is_detailed, shared, fetch_source-result, run-Holds,
}

module _ {B : Type 0} (dc : DataCache B) (api : Origin B) where
  pub keep_answer-answer :
      (answer : Option (Response B)) (times : Times) (tags : List Tag) (source : Source)
      (revalidate : Option ℕ) (s : dc.State)
      → (keep_answer dc api answer times tags revalidate source s).0 ≡ answer
  unfolding keep_answer
  keep_answer-answer none times tags source revalidate s = refl
  keep_answer-answer (some r) times tags source revalidate s = refl

  module _ (stamped : IsStamped api) (about : Source → Bool) (since : ℕ) where
    answered :
        (times : Times) (sent : SentHeaders) (source : Source) (r : Response B)
        → since ≤ times.stamped
        → api times.stamped sent source ≡ some r
        → AnsweredSince api since source r
    answered times sent source r late e =
        (times.stamped, late, (sent, e), stamped times.stamped sent source r e)

    module _ (source : Source) (asks : about source ≡ true) where
      -- A read of a source in question is answered by the API since then.
      ask-answer :
          (found : Option (Stored B)) (times : Times) (revalidate : Option ℕ) (s : dc.State)
          (r : Response B)
          → since ≤ times.stamped
          → ((x : Stored B) → found ≡ some x → Entry api about since source x)
          → (ask dc api found times (tags_for source) revalidate source s).0 ≡ some r
          → AnsweredSince api since source r
      unfolding ask headers_for
      ask-answer (some x) times revalidate s r late known e =
          let (t, bound, made, stamp) = (known x refl).1 in
          let same : x.response ≡ r = cc in
          subst (AnsweredSince api since source) same (t, rw asks at bound, made, stamp)
      ask-answer none times revalidate s r late known e =
          answered times (shared times) source r late (
            sym (
              keep_answer-answer (api times.stamped (shared times) source) times (tags_for source)
                source revalidate s)
            ∙ e)

      fetch-answer :
          (arm : CacheArm) (times : Times) (revalidate : Option ℕ) (s : dc.State) (r : Response B)
          → since ≤ times.stamped
          → Holds dc api about since s
          → (fetch_unmemoized dc api (policy_for arm (tags_for source) revalidate) times source s).0
            ≡ some r
          → AnsweredSince api since source r
      unfolding fetch_unmemoized policy_for headers_for
      fetch-answer nostore times revalidate s r late h e =
          answered times (headers_for no_store times.rid) source r late e
      fetch-answer cached times revalidate s r late h e =
          ask-answer (dc.get times.asked s source) times revalidate s r late
            (λ x. h times.asked source x) e
      fetch-answer tagged times revalidate s r late h e =
          ask-answer (dc.get times.asked s source) times revalidate s r late
            (λ x. h times.asked source x) e
      fetch-answer blanket times revalidate s r late h e =
          ask-answer (dc.get times.asked s source) times revalidate s r late
            (λ x. h times.asked source x) e

  read_result-FromApi :
      (detailed : Bool) (answer : Option (Response B)) (since : ℕ) (times : Times) (source : Source)
      → ((r : Response B) → answer ≡ some r → AnsweredSince api since source r)
      → FromApi api since times source
          (read_result dc api detailed (with_served dc api times answer))
  unfolding read_result with_served
  read_result-FromApi detailed none since times source known = tt
  read_result-FromApi detailed (some r) since times source known =
      elim (Bool-cases (leb 200 r.status && leb r.status 299)) [
        | inl fine ↦ rw fine (r, known r refl, refl, refl)
        | inr failed ↦ rw failed (r, known r refl, refl, refl)
      ]

  Since-zero : {A C : Type 0} (events : List (Event A C)) → All (λ e. Since 0 e) events
  Since-zero [] = tt
  Since-zero (reads arm times source ∷ events) = (omega arith, Since-zero events)
  Since-zero (writes way arm target reply ∷ events) = (tt, Since-zero events)

  -- A write makes the entries that it expires those in question.
  write-Holds :
      {A C : Type 0} (way : Way) (arm : Text) (target : Target) (reply : WriteReply A C)
      (s : dc.State) (since : ℕ)
      → Holds dc api (λ _. false) 0 s
      → Holds dc api (expires (cache_arm arm) target) since (write dc way arm target reply s)
  write-Holds way arm target reply s since h now source x found =
      let e =
        sym (get-write dc way arm target reply s now source (λ n k y there. (h n k y there).0))
        ∙ found in
      elim (Bool-cases (expires (cache_arm arm) target source)) [
        | inl gone ↦ absurd (cc (rw gone at e))
        | inr stays ↦ rw stays (h now source x (rw stays at e))
      ]

  -- After a write on the arm `tagged` or `blanket`, by whichever way it is told to the cache,
  -- and from a cache that was empty once: a read of what the write expires - on `tagged` the
  -- row, its messages and the organisation's lists, on `blanket` all that the organisation
  -- reads - returns what the API answered at `since` or later, with its age, or that nobody
  -- answered, on any arm of the reader, whatever was read and written before and in between. The
  -- read is the first of its arguments in its render: a later one is handed the first one's answer.
  -- Here `since` is a time after which all answers of the API come that were asked for after
  -- the write. A fetch is one step.
  pub run-FromApi :
      {A C : Type 0} (stamped : IsStamped api) (before after : List (Event A C)) (s : dc.State)
      (way : Way) (arm : Text) (target : Target) (reply : WriteReply A C) (since : ℕ)
      (source : Source) (read_arm : CacheArm) (times : Times)
      → ((now : ℕ) (k : Source) → dc.get now s k ≡ none)
      → expires (cache_arm arm) target source ≡ true
      → All (λ e. Since since e) after
      → since ≤ times.stamped
      → FromApi api since times source
          (fetch_source dc api none source read_arm times
            (run dc api after (write dc way arm target reply (run dc api before s)))).0
  run-FromApi stamped before after s way arm target reply since source read_arm times empty asks
        late now =
      let about : Source → Bool = λ k. expires (cache_arm arm) target k in
      let start : Holds dc api (λ _. false) 0 s = λ n k x found. absurd (cc (empty n k)) in
      let middle = run-Holds dc api stamped (λ _. false) 0 before s (Since-zero before) start in
      let written = write-Holds way arm target reply (run dc api before s) since middle in
      let last =
        run-Holds dc api stamped about since after
          (write dc way arm target reply (run dc api before s)) late written in
      let s' = run dc api after (write dc way arm target reply (run dc api before s)) in
      subst (FromApi api since times source)
        (sym (fetch_source-result dc api source read_arm times s'))
        (read_result-FromApi (is_detailed source) _ since times source (λ r e.
          fetch-answer stamped about since source asks read_arm times (revalidate_for source) s' r
            now last e))
