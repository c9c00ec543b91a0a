-- ===== src/Search/Messages.antt =====
-- `search` and `computeStats` over the rows of `messages`. What Postgres does with a pattern
-- and with a text query is an argument.
use drills.Prelude.{
  ℕ, ◌+◌, ◌/◌, Bool, ◌&&◌, ◌||◌, Option, none, some, List, [], ◌∷◌, ◌++◌, map, length, take, leb,
  ltb, ◌==◌, if◌then◌else◌,
}
use drills.Prelude.Sorting.{keep, sort}
use drills.Prelude.Text.{Text}

pub data SearchStrategy : Type 0 where
  like fts : SearchStrategy

pub record MessageRow : Type 0 where
  pub id : ℕ
  pub conversation_id : ℕ
  pub org_id : ℕ
  pub message : Text
  pub created_at : ℕ

pub record MessageHit : Type 0 where
  pub id : ℕ
  pub conversation_id : ℕ
  pub message : Text
  pub created_at : ℕ

-- The text search of Postgres: ILIKE with its pattern, and `@@` with a web search or a query.
pub record TextSearch : Type 0 where
  pub ilike : Text → Text → Bool
  pub websearch : Text → Text → Bool
  pub tsquery : Text → Text → Bool

abbrev pub is_special : ℕ → Bool
is_special c = c == b'\\' || c == b'%' || c == b'_'

-- `escapeLike`
unfoldable pub escape_like : Text → Text
escape_like [] = []
escape_like (c ∷ text) =
    let rest = escape_like text in if is_special c then b'\\' ∷ c ∷ rest else c ∷ rest

unfoldable pub predicate : SearchStrategy → TextSearch → Text → Text → Bool
unfolding escape_like
predicate like db q message = db.ilike (b'%' ∷ escape_like q ++ (b'%' ∷ [])) message
predicate fts db q message = db.websearch q message

-- toISOString
abbrev pub to_millis : ℕ → ℕ
to_millis micros = micros / 1000

unfoldable pub to_hit : MessageRow → MessageHit
to_hit row = record {
  id = row.id;
  conversation_id = row.conversation_id;
  message = row.message;
  created_at = to_millis row.created_at;
}

-- ORDER BY m.created_at DESC, m.id DESC
unfoldable pub newer : MessageRow → MessageRow → Bool
newer a b = ltb b.created_at a.created_at || b.created_at == a.created_at && ltb b.id a.id

unfoldable pub search :
    SearchStrategy → TextSearch → List MessageRow → ℕ → Text → ℕ → List MessageHit
search strategy db messages org q limit = map to_hit (
    take limit (
      sort newer (keep (λ row. row.org_id == org && predicate strategy db q row.message) messages)))

-- The average is kept as a sum over a count.
pub record MessageStats : Type 0 where
  pub messages : ℕ
  pub negative : ℕ
  pub positive : ℕ
  pub recent : ℕ
  pub avg_length : ℕ × ℕ
  pub last_message_at : Option ℕ

abbrev pub count_where : (MessageRow → Bool) → List MessageRow → ℕ
count_where test rows = length (keep test rows)

abbrev pub total_length : List MessageRow → ℕ
total_length [] = 0
total_length (row ∷ rows) = length row.message + total_length rows

abbrev latest_of : Option ℕ → ℕ → ℕ
latest_of none t = t
latest_of (some s) t = if ltb s t then t else s

abbrev pub last_created : List MessageRow → Option ℕ
last_created [] = none
last_created (row ∷ rows) = some (latest_of (last_created rows) row.created_at)

abbrev to_iso : Option ℕ → Option ℕ
to_iso none = none
to_iso (some micros) = some (to_millis micros)

-- 90 days in microseconds
abbrev recent_span : ℕ
recent_span = 7776000000000

-- `computeStats`, its statement run at `now`.
unfoldable pub compute_stats : TextSearch → Text → Text → List MessageRow → ℕ → ℕ → MessageStats
compute_stats db negative positive table org now =
    let rows = keep (λ row. row.org_id == org) table in
    record {
      messages = length rows;
      negative = count_where (λ row. db.tsquery negative row.message) rows;
      positive = count_where (λ row. db.tsquery positive row.message) rows;
      recent = count_where (λ row. leb now (row.created_at + recent_span)) rows;
      avg_length = if length rows == 0 then (0, 1) else (total_length rows, length rows);
      last_message_at = to_iso (last_created rows);
    }
