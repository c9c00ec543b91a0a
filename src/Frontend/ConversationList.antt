-- ===== src/Frontend/ConversationList.antt =====
-- `ConversationList` of apps/frontend/app/conversations/conversation-list.tsx: the pages that the
-- browser has loaded. Its requests go through apps/frontend/app/api/conversations/route.ts and
-- `fetchConversations` of apps/frontend/lib/api.ts to the list of the backend.
use drills.Prelude.{
  Bool, true, false, ◌&&◌, Option, none, some, List, [], ◌∷◌, ◌++◌, if◌then◌else◌, not_b,
}
use drills.Prelude.Result.{Result, ok, err}
use drills.Prelude.Text.{Text}
use drills.Conversations.Paging.Query.{ListError}
use drills.Conversations.Paging.Listing.{ListItem, Page, offset_page, cursor_page}

-- The answer of the route: a page, the API's error with its status, or none at all.
pub data Response : Type 0 where
  page_body : List ListItem → Option Text → Response
  error_body : ListError → Response
  unreachable : Response

-- The first page comes from the server's render. `pending` is the cursor of the request on its way.
pub record ListState : Type 0 where
  pub initial_items : List ListItem
  pub appended : List ListItem
  pub cursor : Option Text
  pub loading : Bool
  pub failure : Option Response
  pub pending : Option Text

abbrev pub rows : ListState → List ListItem
rows s = s.initial_items ++ s.appended

-- `!cursor`: there is none, or it is empty.
abbrev pub is_set : Option Text → Bool
is_set none = false
is_set (some []) = false
is_set (some (c ∷ text)) = true

-- `loadMore` up to its request. React renders between two clicks, so the second one sees `loading`.
unfoldable pub load_more : ListState → ListState
load_more s =
    if is_set s.cursor && not_b s.loading
    then record s { loading = true; failure = none; pending = s.cursor }
    else s

-- The JSON of the route. A page of the offset arm has no `nextCursor`.
abbrev pub to_response : Result ListError Page → Response
to_response (err e) = error_body e
to_response (ok (offset_page items page size total pages)) = page_body items none
to_response (ok (cursor_page items size next more)) = page_body items next

-- `loadMore` after its request.
unfoldable pub on_response : Response → ListState → ListState
on_response (page_body items next) s = record s {
  appended = s.appended ++ items;
  cursor = next;
  loading = false;
  pending = none;
}
on_response (error_body e) s = record s {
  loading = false;
  failure = some (error_body e);
  pending = none;
}
on_response unreachable s = record s { loading = false; failure = some unreachable; pending = none }

pub data Event : Type 0 where
  clicks responds breaks : Event

unfoldable pub settle : (Option Text → Result ListError Page) → Option Text → ListState → ListState
unfolding on_response
settle get none s = s
settle get (some c) s = on_response (to_response (get (some c))) s

unfoldable pub drop_request : Option Text → ListState → ListState
unfolding on_response
drop_request none s = s
drop_request (some c) s = on_response unreachable s

unfoldable pub step : (Option Text → Result ListError Page) → Event → ListState → ListState
unfolding load_more settle drop_request
step get clicks s = load_more s
step get responds s = settle get s.pending s
step get breaks s = drop_request s.pending s

unfoldable pub run : (Option Text → Result ListError Page) → List Event → ListState → ListState
unfolding step
run get [] s = s
run get (e ∷ es) s = run get es (step get e s)

-- `useState`, on a first page.
unfoldable pub first_state : List ListItem → Option Text → ListState
first_state items next = record {
  initial_items = items;
  appended = [];
  cursor = next;
  loading = false;
  failure = none;
  pending = none;
}
