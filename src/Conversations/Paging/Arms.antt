-- ===== src/Conversations/Paging/Arms.antt =====
-- The two arms of `list`, one statement for each row and one for all of them, give the same page.
use drills.Prelude.{
  ℕ, ◌≡◌, refl, sym, ap, ◌∙◌, Bool, true, false, none, List, [], ◌∷◌, ◌++◌, map, any, ◌==◌,
  if◌then◌else◌, All, fun_ext, arith,
}
use mathlib.Core.List.{append-nil, append_assoc}
use drills.Prelude.Sorting.{keep, sort, IsOrder, keep-sort, keep-All, keep-keep, sort-same, All-map}
use drills.Prelude.Result.{ok, err}
use drills.Prelude.Text.{Text}
use drills.Conversations.Table.{Row}
use drills.Conversations.Paging.Query.{ListQuery, Runtime, cursor_with_offset}
use drills.Conversations.Paging.Listing.{
  TagRow, Tables, Page, tag_item, of_conversation, tags_of, items_naive, tag_before, is_one_of,
  TagMap, or_nil, push_tag, push_tags, tag_map, items_by, items_batched, naive, batched,
  ListStrategy, items_for, list_page, list, Paging, slice, select_rows, count_for, to_result,
  mixes_arms, paging_for,
}

-- What `ORDER BY t.name` relies on: the collation is a strict weak order.
pub record IsCollation (rt : Runtime) : Type 0 where
  pub order : IsOrder rt.collates
  pub asymmetric : (x y : Text) → rt.collates y x ≡ true → rt.collates x y ≡ false

or_nil-push_tag :
    (r : TagRow) (m : TagMap) (id : ℕ) (rest : List TagRow)
    → or_nil (push_tag r m id) ++ map tag_item rest
      ≡ or_nil (m id) ++ map tag_item (if of_conversation id r then r ∷ rest else rest)
unfolding push_tag
or_nil-push_tag r m id rest =
    ground (arith, append_assoc (or_nil (m id)) (tag_item r ∷ []) (map tag_item rest))

or_nil-push_tags :
    (rs : List TagRow) (m : TagMap) (id : ℕ)
    → or_nil (push_tags rs m id) ≡ or_nil (m id) ++ map tag_item (keep (of_conversation id) rs)
unfolding push_tags keep
or_nil-push_tags [] m id = sym (append-nil (or_nil (m id)))
or_nil-push_tags (r ∷ rs) m id =
    or_nil-push_tags rs (push_tag r m) id ∙ or_nil-push_tag r m id (keep (of_conversation id) rs)

tag_before-IsOrder : (rt : Runtime) → IsCollation rt → IsOrder (tag_before rt)
unfolding tag_before
tag_before-IsOrder rt law z y x below front =
    ground (arith, law.order z.name y.name x.name, below, front)

tag_before-asymmetric :
    (rt : Runtime)
    → IsCollation rt
    → (x y : TagRow) → tag_before rt y x ≡ true
    → tag_before rt x y ≡ false
unfolding tag_before
tag_before-asymmetric rt law x y later = ground (arith, later, law.asymmetric x.name y.name)

same_conversation :
    (rt : Runtime) (id : ℕ) (x y : TagRow)
    → of_conversation id x ≡ true
    → of_conversation id y ≡ true
    → tag_before rt y x ≡ rt.collates y.name x.name
unfolding tag_before
same_conversation rt id x y hx hy = ground (arith, hx, hy)

is_one_of-member :
    (ids : List ℕ) (r : TagRow) (id : ℕ)
    → any (λ i. i == id) ids ≡ true
    → of_conversation id r ≡ true
    → is_one_of ids r ≡ true
unfolding is_one_of
is_one_of-member [] r id there own = ground (arith, there)
is_one_of-member (i ∷ ids) r id there own = ground (arith, there, own, is_one_of-member ids r id)

-- What the map holds for a row of the page is what a statement of its own returns.
tag_map-tags_of :
    (rt : Runtime) (rows : List TagRow) (ids : List ℕ) (id : ℕ)
    → IsCollation rt
    → any (λ i. i == id) ids ≡ true
    → or_nil (tag_map rt rows ids id) ≡ tags_of rt rows id
unfolding tag_map tags_of
tag_map-tags_of rt rows [] id law there = ground (arith, there)
tag_map-tags_of rt rows (i ∷ ids) id law there =
    or_nil-push_tags (sort (tag_before rt) (keep (is_one_of (i ∷ ids)) rows)) (λ id. none) id
    ∙ ap (map tag_item) (
        keep-sort (tag_before rt) (tag_before-IsOrder rt law) (tag_before-asymmetric rt law)
          (of_conversation id) (keep (is_one_of (i ∷ ids)) rows)
        ∙ ap (sort (tag_before rt)) (
            keep-keep (is_one_of (i ∷ ids)) (of_conversation id) rows
              (λ r own. is_one_of-member (i ∷ ids) r id there own))
        ∙ sort-same (λ r. of_conversation id r ≡ true) (tag_before rt)
            (λ a b. rt.collates a.name b.name) (λ x y hx hy. same_conversation rt id x y hx hy)
            (keep (of_conversation id) rows) (keep-All (of_conversation id) rows))

ids_of : List Row → List ℕ
ids_of rows = map (λ row. row.id) rows

All-ids_of : (rows : List Row) → All (λ row. any (λ i. i == row.id) (ids_of rows) ≡ true) rows
unfolding ids_of
All-ids_of [] = tt
All-ids_of (row ∷ rows) =
    (ground arith, All-map _ _ rows (λ r there. ground (arith, there)) (All-ids_of rows))

items_by-items_naive :
    (rt : Runtime) (t : Tables) (tags : TagMap) (rows : List Row)
    → All (λ row. or_nil (tags row.id) ≡ tags_of rt t.tag_rows row.id) rows
    → items_by t.names tags rows ≡ items_naive rt t rows
unfolding items_by items_naive
items_by-items_naive rt t tags [] same = refl
items_by-items_naive rt t tags (row ∷ rows) (here, rest) =
    rw (here, items_by-items_naive rt t tags rows rest) refl

items_batched-items_naive :
    (rt : Runtime) (t : Tables) (rows : List Row)
    → IsCollation rt
    → items_batched rt t rows ≡ items_naive rt t rows
unfolding items_batched ids_of
items_batched-items_naive rt t rows law =
    items_by-items_naive rt t (tag_map rt t.tag_rows (ids_of rows)) rows (
      All-map _ _ rows (λ row. tag_map-tags_of rt t.tag_rows (ids_of rows) row.id law)
        (All-ids_of rows))

list_page-batched_naive :
    (rt : Runtime) (t : Tables) (query : ListQuery) (p : Paging)
    → IsCollation rt
    → list_page batched rt t t query p ≡ list_page naive rt t t query p
unfolding list_page items_for
list_page-batched_naive rt t query p law =
    let (rows, has_more) = slice query (select_rows query.sort p t.conversations) in
    ap (λ items. to_result rt items rows has_more (count_for p t.conversations) query)
      (items_batched-items_naive rt t rows law)

-- On tables that do not change between the statements, and under a collation that is a strict weak
-- order, one statement for all rows' tags and one statement for each row give the same answer to
-- every query, errors included.
pub list-batched_naive :
    (rt : Runtime) (t : Tables) (tiebreak : Bool) (org : ℕ) (query : ListQuery)
    → IsCollation rt
    → list batched tiebreak rt t t org query ≡ list naive tiebreak rt t t org query
unfolding list
list-batched_naive rt t tiebreak org query law =
    ap
      (λ (page : Paging → Page).
        if mixes_arms query
        then err cursor_with_offset
        else elim (paging_for rt tiebreak org query) [ err e ↦ err e | ok p ↦ ok (page p) ])
      (fun_ext (λ p. list_page-batched_naive rt t query p law))

pub list-naive :
    (strategy : ListStrategy) (rt : Runtime) (t : Tables) (tiebreak : Bool) (org : ℕ)
    → IsCollation rt
    → (query : ListQuery)
    → list strategy tiebreak rt t t org query ≡ list naive tiebreak rt t t org query
list-naive naive rt t tiebreak org law query = refl
list-naive batched rt t tiebreak org law query = list-batched_naive rt t tiebreak org query law
