-- ===== src/Frontend/Sources.antt =====
-- What the cached fetches of apps/frontend/lib/api.ts read: the URL with its query string, and the
-- header of the organisation.
use drills.Prelude.{ℕ, Option, none, some, List, [], ◌∷◌}
use drills.Prelude.Text.{Text}

-- The keys of a list's query string.
pub data Param : Type 0 where
  page_key page_size_key sort_key status_key updated_from_key updated_to_key paging_key cursor_key :
      Param

pub record ListParams : Type 0 where
  pub page : Text
  pub page_size : Text
  pub sort : Text
  pub status : Option Text
  pub updated_from : Option Text
  pub updated_to : Option Text
  pub paging : Option Text
  pub cursor : Option Text

-- `if (value) query.set(key, value)`
unfoldable pub set_param : Param → Option Text → List (Param × Text) → List (Param × Text)
set_param key none rest = rest
set_param key (some []) rest = rest
set_param key (some (c ∷ value)) rest = (key, c ∷ value) ∷ rest

unfoldable pub query_of : ListParams → List (Param × Text)
unfolding set_param
query_of params =
    (page_key, params.page)
    ∷ (page_size_key, params.page_size)
    ∷ (sort_key, params.sort)
    ∷ set_param status_key params.status (
        set_param updated_from_key params.updated_from (
          set_param updated_to_key params.updated_to
            (set_param paging_key params.paging (set_param cursor_key params.cursor []))))

-- What a cached fetch reads: a list by its query string, the agents, the aggregate, a row,
-- its messages.
pub data Resource : Type 0 where
  list_page : List (Param × Text) → Resource
  all_agents org_stats : Resource
  row messages : ℕ → Resource

-- A GET of one organisation: its URL and its header.
pub record Source : Type 0 where
  pub org_id : ℕ
  pub resource : Resource
