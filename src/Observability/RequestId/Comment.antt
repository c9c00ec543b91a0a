-- ===== src/Observability/RequestId/Comment.antt =====
-- What a request's header can do to the SQL text that its id is written into.
use drills.Prelude.{
  ℕ, zero, suc, ◌≡◌, ◌≢◌, inl, inr, refl, ◌∙◌, Bool, true, false, ◌&&◌, ◌||◌, Option, none, some,
  [], ◌∷◌, ◌++◌, ◌==◌, length, Option-cases, subst, arith,
}
use drills.Prelude.Text.{Text}
use drills.Conversations.Paging.Cursor.{is_hex}
use drills.Observability.RequestId.{
  is_safe_char, all_safe, is_safe_id, or_else, derive_request_id, Carrier, request_id_for, closing,
  sql_for,
}

-- How Postgres reads a comment: `skip d text` is what follows it, `d` comments deep inside
-- it. Comments nest.
pub record IsCommentLexer (skip : ℕ → Text → Option Text) : Type 0 where
  pub closes : (text : Text) → skip zero (b'*' ∷ b'/' ∷ text) ≡ some text
  pub closes_inner : (d : ℕ) (text : Text) → skip (suc d) (b'*' ∷ b'/' ∷ text) ≡ skip d text
  pub opens : (d : ℕ) (text : Text) → skip d (b'/' ∷ b'*' ∷ text) ≡ skip (suc d) text
  pub reads : (d c : ℕ) (text : Text) → c ≢ b'*' → c ≢ b'/' → skip d (c ∷ text) ≡ skip d text

abbrev pub all_hex : Text → Bool
all_hex [] = true
all_hex (c ∷ id) = is_hex c && all_hex id

is_hex→is_safe_char : (c : ℕ) → is_hex c ≡ true → is_safe_char c ≡ true
unfolding is_safe_char is_hex
is_hex→is_safe_char c h = ground arith

all_hex→all_safe : (id : Text) → all_hex id ≡ true → all_safe id ≡ true
unfolding all_safe
all_hex→all_safe [] h = refl
all_hex→all_safe (c ∷ id) h = ground (arith, is_hex→is_safe_char c, all_hex→all_safe id)

-- A trace id as OpenTelemetry checks it: 32 hexadecimal digits.
abbrev pub IsTraceId : Option Text → Type 0
IsTraceId none = Unit
IsTraceId (some id) = (length id ≡ 32) × (all_hex id ≡ true)

or_else-safe :
    (trace : Option Text) (uuid : Text)
    → IsTraceId trace
    → is_safe_id uuid ≡ true
    → is_safe_id (or_else trace uuid) ≡ true
unfolding is_safe_id
or_else-safe none uuid t u = u
or_else-safe (some id) uuid (size, digits) u = rw (size, all_hex→all_safe id digits) refl

derive_request_id-safe :
    (raw trace : Option Text) (uuid : Text)
    → IsTraceId trace
    → is_safe_id uuid ≡ true
    → is_safe_id (derive_request_id raw trace uuid) ≡ true
unfolding derive_request_id
derive_request_id-safe none trace uuid t u = or_else-safe trace uuid t u
derive_request_id-safe (some raw) trace uuid t u = ground (arith, or_else-safe trace uuid t u)

-- `none` is a request whose id is not derived yet.
abbrev pub HasSafeId : Option Text → Type 0
HasSafeId none = Unit
HasSafeId (some id) = is_safe_id id ≡ true

is_safe_char-ne : (c : ℕ) → is_safe_char c ≡ true → (c ≢ b'*') × (c ≢ b'/')
unfolding is_safe_char
is_safe_char-ne c h = (λ e. ground arith, λ e. ground arith)

module _ (skip : ℕ → Text → Option Text) (lexer : IsCommentLexer skip) where
  skip-safe : (id rest : Text) → all_safe id ≡ true → skip zero (id ++ rest) ≡ skip zero rest
  unfolding all_safe
  skip-safe [] rest h = refl
  skip-safe (c ∷ id) rest h =
      let here : is_safe_char c ≡ true = ground arith in
      let (star, slash) = is_safe_char-ne c here in
      lexer.reads zero c (id ++ rest) star slash ∙ skip-safe id rest (ground arith)

  -- The first characters are read over.
  plain :
      (c : ℕ) (text out : Text)
      → c == b'*' || c == b'/' ≡ false
      → skip zero text ≡ some out
      → skip zero (c ∷ text) ≡ some out
  plain c text out h e = lexer.reads zero c text (λ e. ground arith) (λ e. ground arith) ∙ e

  commented :
      (id text : Text)
      → is_safe_id id ≡ true
      → (body : Text) × (sql_for false (some id) text ≡ text ++ (b' ' ∷ b'/' ∷ b'*' ∷ body))
        × (skip zero body ≡ some [])
  unfolding sql_for is_safe_id
  commented [] text h = cc
  commented (c ∷ id) text h =
      let safe : all_safe (c ∷ id) ≡ true = ground arith in
      let last = plain b' ' (b'*' ∷ b'/' ∷ []) [] refl (lexer.closes []) in
      let whole = skip-safe (c ∷ id) closing safe ∙ last in
      (
        b' ' ∷ b'r' ∷ b'i' ∷ b'd' ∷ b'=' ∷ ((c ∷ id) ++ closing),
        refl,
        plain b' ' _ [] refl (
            plain b'r' _ [] refl
              (plain b'i' _ [] refl (plain b'd' _ [] refl (plain b'=' _ [] refl whole)))),
      )

  -- Without tracing, and whatever the request's header says: a statement is sent as its text
  -- and one comment, which Postgres reads as closed at the very end, so that nothing of the
  -- header is SQL. The request then keeps its id. It takes a trace id and a uuid of the
  -- documented form.
  pub request_id_for-commented :
      (trace later : Option Text) (uuid uuid' : Text) (carrier : Carrier) (text : Text)
      → IsTraceId trace
      → is_safe_id uuid ≡ true
      → HasSafeId carrier.request_id
      → let (id, carrier') = request_id_for trace uuid carrier in
        ((body : Text) × (sql_for false (some id) text ≡ text ++ (b' ' ∷ b'/' ∷ b'*' ∷ body))
          × (skip zero body ≡ some []))
        × (request_id_for later uuid' carrier' ≡ (id, carrier'))
  unfolding request_id_for
  request_id_for-commented trace later uuid uuid' carrier text t u h =
      elim (Option-cases carrier.request_id) [
        | inl fresh ↦
            rw fresh (commented _ text (derive_request_id-safe carrier.header trace uuid t u), refl)
        | inr (id, known) ↦ rw known (commented id text (subst HasSafeId known h), refl)
      ]
