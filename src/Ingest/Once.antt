-- ===== src/Ingest/Once.antt =====
-- The conversations of an event across one transaction: found again, and never two.
use drills.Prelude.{
  ℕ, suc, ◌≤◌, ◌≡◌, refl, sym, ap, subst, subst₂, ◌∙◌, true, none, some, List, [], ◌∷◌, inl, inr,
  arith, if◌then◌else◌,
}
use drills.Prelude.Text.{Text, text_eq_refl, text_eq_iff}
use drills.Ingest.Store.{Conversation, Db, is_event, lookup}
use drills.Ingest.Write.{IngestResult}
use drills.Ingest.Effect.{Added, Effect}

-- How many conversations have an event's key.
unfoldable pub count : ℕ → Text → List Conversation → ℕ
count org key [] = 0
count org key (c ∷ cs) =
    let rest = count org key cs in if is_event org key c then suc rest else rest

pub lookup-none-count :
    (org : ℕ) (key : Text) (cs : List Conversation)
    → lookup org key cs ≡ none
    → count org key cs ≡ 0
unfolding lookup count
lookup-none-count org key [] h = refl
lookup-none-count org key (c ∷ cs) h = ground (arith, lookup-none-count org key cs)

pub lookup-some-count :
    (org : ℕ) (key : Text) (cs : List Conversation) (id : ℕ)
    → lookup org key cs ≡ some id
    → 1 ≤ count org key cs
unfolding lookup count
lookup-some-count org key [] id h = ground arith
lookup-some-count org key (c ∷ cs) id h = ground (arith, lookup-some-count org key cs id)

-- The row that `Grown` adds is of one event only.
is_event-same :
    (org org' : ℕ) (key key' : Text) (c : Conversation)
    → c.org_id ≡ org
    → c.provider_event_id ≡ some key
    → is_event org' key' c ≡ true
    → (org' ≡ org) × (key' ≡ key)
is_event-same org org' key key' c h k same = ground (arith, text_eq_iff key key')

is_event_own :
    (org : ℕ) (key : Text) (c : Conversation)
    → c.org_id ≡ org
    → c.provider_event_id ≡ some key
    → is_event org key c ≡ true
is_event_own org key c h k = ground (arith, text_eq_refl key)

-- A conversation that was found is found again.
pub Effect-lookup :
    (org : ℕ) (key : Text) (db : Db) (result : IngestResult) (db' : Db)
    → Effect org key db result db'
    → (org' : ℕ) (key' : Text) (id : ℕ) → lookup org' key' db.conversations ≡ some id
    → lookup org' key' db'.conversations ≡ some id
unfolding lookup
Effect-lookup org key db result db' (inl (same, next, none_made, names)) org' key' id h =
    ap (lookup org' key') same ∙ h
Effect-lookup org key db result db' (inr (fresh, (c, grown, next, new, own, event), named, made_it))
      org' key' id h =
    ap (lookup org' key') grown
    ∙ ground (arith, is_event-same org org' key key' c own event, fresh_key org' key')
  where
    fresh_key :
        (org' : ℕ) (key' : Text)
        → org' ≡ org
        → key' ≡ key
        → lookup org' key' db.conversations ≡ none
    fresh_key org' key' o k =
        subst₂ (λ x y. lookup x y db.conversations ≡ none) (sym o) (sym k) fresh

-- The new one is found under its id.
pub Added-lookup :
    (org : ℕ) (key : Text) (db : Db) (result : IngestResult) (db' : Db)
    → Added org key db result db'
    → lookup org key db'.conversations ≡ some db.next_id
unfolding lookup
Added-lookup org key db result db' (fresh, (c, grown, next, new, own, event), named, made_it) =
    ap (lookup org key) grown ∙ ground (arith, is_event_own org key c own event)

-- An event that had at most one conversation has at most one.
pub Effect-count :
    (org : ℕ) (key : Text) (db : Db) (result : IngestResult) (db' : Db)
    → Effect org key db result db'
    → (org' : ℕ) (key' : Text) → count org' key' db.conversations ≤ 1
    → count org' key' db'.conversations ≤ 1
unfolding count
Effect-count org key db result db' (inl (same, next, none_made, names)) org' key' h =
    subst (λ cs. count org' key' cs ≤ 1) (sym same) h
Effect-count org key db result db' (inr (fresh, (c, grown, next, new, own, event), named, made_it))
      org' key' h =
    subst (λ cs. count org' key' cs ≤ 1) (sym grown)
      (ground (arith, is_event-same org org' key key' c own event, none_yet org' key'))
  where
    none_yet :
        (org' : ℕ) (key' : Text) → org' ≡ org → key' ≡ key → count org' key' db.conversations ≡ 0
    none_yet org' key' o k =
        subst₂ (λ x y. count x y db.conversations ≡ 0) (sym o) (sym k)
          (lookup-none-count org key db.conversations fresh)

pub Effect-next_id :
    (org : ℕ) (key : Text) (db : Db) (result : IngestResult) (db' : Db)
    → Effect org key db result db'
    → db.next_id ≤ db'.next_id
Effect-next_id org key db result db' (inl (same, next, none_made, names)) = omega (arith, next)
Effect-next_id org key db result db'
      (inr (fresh, (c, grown, next, new, own, event), named, made_it)) =
    omega (arith, next)
