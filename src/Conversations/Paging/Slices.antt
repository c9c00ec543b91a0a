-- ===== src/Conversations/Paging/Slices.antt =====
-- The rows of a page as a piece of the whole list: WHERE before ORDER BY, OFFSET, LIMIT and
-- `slice`.
use drills.Prelude.{
  ℕ, suc, ◌+◌, ◌≡◌, refl, sym, ap, ◌∙◌, inl, inr, Bool, true, false, some, List, [], ◌∷◌, ◌++◌,
  length, take, drop, take_all, take-take, length-take, ltb, if◌then◌else◌, Bool-cases, arith,
}
use native.Mathlib.Numerals.{add-one}
use drills.Prelude.Sorting.{keep, sort, keep-sort}
use drills.Prelude.Strict.{keep-keep_and}
use drills.Conversations.Table.{Row}
use drills.Conversations.Paging.Query.{SortKey, keyset, ListQuery, matches, before}
use drills.Conversations.Paging.Listing.{
  start, Paging, in_position, select_rows, slice, last_of, or_zero,
}
use drills.Conversations.Paging.Order.{before-IsOrder, before-asymmetric, whole_list}

-- WHERE before ORDER BY: the page is cut from what the position leaves of the whole list.
pub select_rows-whole_list :
    (key : SortKey) (p : Paging) (table : List Row)
    → select_rows key p table
      ≡ take p.limit (
          drop
            (or_zero p.offset)
            (keep (in_position key p.position) (whole_list key p.filters table)))
unfolding select_rows whole_list
select_rows-whole_list key p table =
    ap (λ rows. take p.limit (drop (or_zero p.offset) rows))
      (sym (
        keep-sort (before key) (before-IsOrder key) (before-asymmetric key)
          (in_position key p.position) (keep (matches p.filters) table)
        ∙ ap (sort (before key))
            (keep-keep_and (matches p.filters) (in_position key p.position) table)))

ltb_more : {A : Type 0} (n : ℕ) (xs : List A) → ltb n (length (take (suc n) xs)) ≡ ltb n (length xs)
ltb_more n xs = ground (arith, length-take (suc n) xs)

abbrev cut : {A : Type 0} → ℕ → List A → List A × Bool
cut n rows = if ltb n (length rows) then (take n rows, true) else (rows, false)

cut-take :
    {A : Type 0} (n : ℕ) (xs : List A) → cut n (take (suc n) xs) ≡ (take n xs, ltb n (length xs))
cut-take n xs = elim (Bool-cases (ltb n (length xs))) [
  | inl more ↦ rw (ltb_more n xs, more, take-take n xs) refl
  | inr done ↦
      rw
        (
          ltb_more n xs,
          done,
          take_all (suc n) xs (ground (arith, done)),
          take_all n xs (ground (arith, done)),
        )
        refl
]

-- One row more than the page tells whether another page follows.
pub slice-take :
    {A : Type 0} (query : ListQuery) (xs : List A)
    → query.paging ≡ keyset
    → slice query (take (query.page_size + 1) xs)
      ≡ (take query.page_size xs, ltb query.page_size (length xs))
unfolding slice
slice-take query xs mode = rw (mode, add-one) (cut-take query.page_size xs)

pub last_of-snoc :
    {A : Type 0} (x : A) (xs : List A)
    → (front : List A) × (l : A) × (x ∷ xs ≡ front ++ (l ∷ [])) × (last_of (x ∷ xs) ≡ some l)
unfolding last_of
last_of-snoc x [] = ([], x, refl, refl)
last_of-snoc x (y ∷ ys) =
    let (front, l, split, last) = last_of-snoc y ys in (x ∷ front, l, ap (λ r. x ∷ r) split, last)

pub keep-start : (key : SortKey) (rows : List Row) → keep (in_position key start) rows ≡ rows
unfolding keep in_position
keep-start key [] = refl
keep-start key (row ∷ rows) = ap (λ rest. row ∷ rest) (keep-start key rows)
