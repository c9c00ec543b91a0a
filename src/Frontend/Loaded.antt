-- ===== src/Frontend/Loaded.antt =====
-- What stands on the screen, whatever is clicked and whatever fails.
use drills.Prelude.{
  ℕ, zero, suc, ◌≤◌, ◌≡◌, ◌≢◌, ◌⊎◌, inl, inr, refl, sym, ap, subst, ◌∙◌, Bool, true, false, ◌&&◌,
  Option, none, some, List, [], ◌∷◌, ◌++◌, length, not_b, Bool-cases, Option-cases, All, arith,
}
use mathlib.Core.List.{append_assoc, append-nil}
use drills.Prelude.Strict.{IsDistinct}
use drills.Prelude.Result.{Result, ok, err}
use drills.Prelude.Text.{Text}
use drills.Conversations.Paging.Query.{keyset, ListQuery, Runtime, ListError, Filters, filters_for}
use drills.Conversations.Paging.Listing.{
  ListItem, Tables, Page, offset_page, cursor_page, items_naive, ListStrategy,
}
use drills.Conversations.Paging.RoundTrip.{Reads, IsPrinted}
use drills.Conversations.Paging.Arms.{IsCollation}
use drills.Conversations.Paging.Order.{same_id, whole_list}
use drills.Conversations.Paging.Walk.{walk, fetch, walk-whole_list}
use drills.Frontend.ConversationList.{
  Response, page_body, error_body, unreachable, ListState, rows, is_set, load_more, to_response,
  on_response, Event, clicks, responds, breaks, settle, drop_request, step, run, first_state,
}

module _ (get : Option Text → Result ListError Page) where
  -- What a walk from the cursor on still brings.
  Leads : Option Text → List ListItem → Type 0
  Leads none rest = rest ≡ []
  Leads (some c) rest = (n : ℕ) × (walk n get (some c) ≡ some (ok rest))

  -- A page of the walk, and what comes after it.
  Follows : List ListItem → List ListItem → Option Text → Type 0
  Follows rest items next = (after : List ListItem) × (rest ≡ items ++ after) × Leads next after

  walk-Follows :
      (n : ℕ) (c : Option Text) (rest items : List ListItem) (size : ℕ) (next : Option Text)
      (more : Bool)
      → walk n get c ≡ some (ok rest)
      → get c ≡ ok (cursor_page items size next more)
      → Follows rest items next
  unfolding walk Follows Leads
  walk-Follows zero c rest items size next more walked page = absurd (ground (arith, walked))
  walk-Follows (suc n) c rest items size none more walked page =
      ([], ground (arith, walked, page, append-nil items), refl)
  walk-Follows (suc n) c rest items size (some d) more walked page =
      elim (Option-cases (walk n get (some d))) [
        | inl out ↦ absurd (ground (arith, walked, page, out))
        | inr (err e, failed) ↦ absurd (ground (arith, walked, page, failed))
        | inr (ok after, walked_on) ↦
            (after, ground (arith, walked, page, walked_on), (n, walked_on))
      ]

  walk-offset_page :
      (n : ℕ) (c : Option Text) (rest items : List ListItem) (page size total pages : ℕ)
      → walk n get c ≡ some (ok rest)
      → get c ≡ ok (offset_page items page size total pages)
      → rest ≡ items
  unfolding walk
  walk-offset_page zero c rest items page size total pages walked at =
      absurd (ground (arith, walked))
  walk-offset_page (suc n) c rest items page size total pages walked at = ground (arith, walked, at)

  module _ (all : List ListItem) where
    -- What is loaded, and what its cursor leads to, are the whole list.
    record IsLoaded (s : ListState) : Type 0 where
      pub left : List ListItem
      pub covers : rows s ++ left ≡ all
      pub leads : Leads s.cursor left
      pub asked : (s.pending ≡ none) ⊎ (s.pending ≡ s.cursor)

    append-IsLoaded :
        (s : ListState) (h : IsLoaded s) (items : List ListItem) (next : Option Text)
        → Follows h.left items next
        → IsLoaded (on_response (page_body items next) s)
    unfolding on_response Follows
    append-IsLoaded s h items next (after, split, leads) = record {
      left = after;
      covers =
          ap (λ r. r ++ after) (sym (append_assoc s.initial_items s.appended items))
          ∙ append_assoc (rows s) items after
          ∙ ap (λ r. rows s ++ r) (sym split)
          ∙ h.covers;
      leads = leads;
      asked = inl refl;
    }

    kept-IsLoaded :
        (s : ListState)
        → IsLoaded s
        → (loading : Bool) (failure : Option Response) (pending : Option Text)
        → (pending ≡ none) ⊎ (pending ≡ s.cursor)
        → IsLoaded (record s { loading = loading; failure = failure; pending = pending })
    kept-IsLoaded s h loading failure pending asked = record {
      left = h.left;
      covers = h.covers;
      leads = h.leads;
      asked = asked;
    }

    load_more-IsLoaded : (s : ListState) → IsLoaded s → IsLoaded (load_more s)
    unfolding load_more
    load_more-IsLoaded s h = elim (Bool-cases (is_set s.cursor && not_b s.loading)) [
      | inl asks ↦ rw asks (kept-IsLoaded s h true none s.cursor (inr refl))
      | inr stays ↦ rw stays h
    ]

    drop_request-IsLoaded :
        (s : ListState) (pending : Option Text) → IsLoaded s → IsLoaded (drop_request pending s)
    unfolding drop_request on_response
    drop_request-IsLoaded s none h = h
    drop_request-IsLoaded s (some c) h = kept-IsLoaded s h false (some unreachable) none (inl refl)

    -- The answer to the request for the page at `c`.
    answer-IsLoaded :
        (s : ListState) (h : IsLoaded s) (c : Text) (answer : Result ListError Page)
        → get (some c) ≡ answer
        → Leads (some c) h.left
        → IsLoaded (on_response (to_response answer) s)
    unfolding on_response Leads Follows
    answer-IsLoaded s h c (err e) at (n, walked) =
        kept-IsLoaded s h false (some (error_body e)) none (inl refl)
    answer-IsLoaded s h c (ok (offset_page items page size total pages)) at (n, walked) =
        append-IsLoaded s h items none (
          [],
          walk-offset_page n (some c) h.left items page size total pages walked at
              ∙ sym (append-nil items),
          refl,
        )
    answer-IsLoaded s h c (ok (cursor_page items size next more)) at (n, walked) =
        append-IsLoaded s h items next
          (walk-Follows n (some c) h.left items size next more walked at)

    settle-IsLoaded :
        (s : ListState) (pending : Option Text)
        → s.pending ≡ pending
        → IsLoaded s
        → IsLoaded (settle get pending s)
    unfolding settle
    settle-IsLoaded s none is h = h
    settle-IsLoaded s (some c) is h = elim h.asked [
      | inl idle ↦ absurd (ground (arith, idle, is))
      | inr same ↦
          answer-IsLoaded s h c (get (some c)) refl
            (subst (λ cursor. Leads cursor h.left) (sym same ∙ is) h.leads)
    ]

    step-IsLoaded : (e : Event) (s : ListState) → IsLoaded s → IsLoaded (step get e s)
    unfolding step
    step-IsLoaded clicks s h = load_more-IsLoaded s h
    step-IsLoaded responds s h = settle-IsLoaded s s.pending refl h
    step-IsLoaded breaks s h = drop_request-IsLoaded s s.pending h

    run-IsLoaded : (es : List Event) (s : ListState) → IsLoaded s → IsLoaded (run get es s)
    unfolding run
    run-IsLoaded [] s h = h
    run-IsLoaded (e ∷ es) s h = run-IsLoaded es (step get e s) (step-IsLoaded e s h)

    -- Some of the list stands on the screen, and all of it once there is no cursor.
    IsLoaded-end :
        (s : ListState)
        → IsLoaded s
        → ((rest : List ListItem) × (rows s ++ rest ≡ all)) × ((s.cursor ≢ none) ⊎ (rows s ≡ all))
    unfolding Leads
    IsLoaded-end s h = (
      (h.left, h.covers),
      elim (Option-cases s.cursor) [
        | inl over ↦ inr (
            sym (append-nil (rows s))
            ∙ ap (λ r. rows s ++ r) (sym (subst (λ c. Leads c h.left) over h.leads))
            ∙ h.covers)
        | inr (c, there) ↦ inl (λ over. ground (arith, over, there))
      ],
    )

-- Over tables that do not change, from a first page that the keyset arm gave, under what the
-- walk of cursors takes: whatever the clicks, the answers and the failures, in any order, the
-- rows on the screen are a first part of the rows that the filters pass, in their order and
-- each once, and all of them as soon as there is no cursor.
pub run-rows :
    (strategy : ListStrategy) (rt : Runtime) (t : Tables) (org : ℕ) (query : ListQuery)
    (f : Filters) (items : List ListItem) (size : ℕ) (next : Option Text) (more : Bool)
    (es : List Event)
    → query.paging ≡ keyset
    → 1 ≤ query.page_size
    → filters_for rt org query ≡ ok f
    → Reads rt
    → IsCollation rt
    → All (IsPrinted rt query.sort) t.conversations
    → IsDistinct same_id t.conversations
    → fetch strategy rt t org query none ≡ ok (cursor_page items size next more)
    → let s = run (fetch strategy rt t org query) es (first_state items next) in
      let all = items_naive rt t (whole_list query.sort f t.conversations) in
      ((rest : List ListItem) × (rows s ++ rest ≡ all)) × ((s.cursor ≢ none) ⊎ (rows s ≡ all))
unfolding first_state Follows
run-rows strategy rt t org query f items size next more es mode positive filters reads law printed
      distinct page =
    let get = fetch strategy rt t org query in
    let all = items_naive rt t (whole_list query.sort f t.conversations) in
    let n = suc (length t.conversations) in
    let walked =
      (walk-whole_list strategy rt t org query f n mode positive filters reads law printed distinct
        (omega arith)).0 in
    let (after, split, leads) = walk-Follows get n none all items size next more walked page in
    IsLoaded-end get all (run get es (first_state items next)) (
      run-IsLoaded get all es (first_state items next) (record {
        left = after;
        covers = ap (λ r. r ++ after) (append-nil items) ∙ sym split;
        leads = leads;
        asked = inl refl;
      }))
