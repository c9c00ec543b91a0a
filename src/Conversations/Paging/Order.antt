-- ===== src/Conversations/Paging/Order.antt =====
-- The order of the list: newest first, ties by the larger id. With distinct ids it is strict.
use drills.Prelude.{◌≡◌, Bool, true, false, List, ◌==◌, arith}
use drills.Prelude.Sorting.{keep, sort, IsOrder}
use drills.Prelude.Strict.{IsStrict, IsDistinct, keep-IsDistinct, sort-IsStrict}
use drills.Conversations.Table.{Row}
use drills.Conversations.Paging.Query.{SortKey, Filters, matches, row_lt, before}

pub before-IsOrder : (key : SortKey) → IsOrder (before key)
unfolding before row_lt
before-IsOrder key z y x below front = ground (arith, below, front)

pub before-asymmetric : (key : SortKey) (x y : Row) → before key y x ≡ true → before key x y ≡ false
unfolding before row_lt
before-asymmetric key x y later = ground (arith, later)

pub before-chain :
    (key : SortKey) (x y z : Row)
    → before key x y ≡ true
    → before key y z ≡ true
    → before key x z ≡ true
unfolding before row_lt
before-chain key x y z one two = ground (arith, one, two)

abbrev pub same_id : Row → Row → Bool
same_id x y = x.id == y.id

before-connected :
    (key : SortKey) (x y : Row)
    → same_id x y ≡ false
    → before key y x ≡ false
    → before key x y ≡ true
unfolding before row_lt
before-connected key x y other front = ground (arith, other, front)

-- All rows that the filters pass, in the order of the list.
unfoldable pub whole_list : SortKey → Filters → List Row → List Row
whole_list key f table = sort (before key) (keep (matches f) table)

pub whole_list-IsStrict :
    (key : SortKey) (f : Filters) (table : List Row)
    → IsDistinct same_id table
    → IsStrict (before key) (whole_list key f table)
unfolding whole_list
whole_list-IsStrict key f table distinct =
    sort-IsStrict (before key) (before-chain key) (λ x y. before-asymmetric key y x) same_id
      (before-connected key) (keep (matches f) table)
      (keep-IsDistinct same_id (matches f) table distinct)
