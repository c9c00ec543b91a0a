-- ===== src/Search/Tests.antt =====
-- A search for `5%` with a matcher that follows the rules of LIKE.
use drills.Prelude.{ℕ, ◌≡◌, refl, Bool, true, false, ◌&&◌, [], ◌∷◌, ◌==◌, if◌then◌else◌, arith}
use drills.Prelude.Text.{Text}
use drills.Search.Messages.{like, TextSearch, escape_like, predicate}
use drills.Search.Like.{from_anywhere, contains, IsLike, predicate-contains}

abbrev literal : ℕ → (Text → Bool) → Text → Bool
literal c rest [] = false
literal c rest (d ∷ text) = c == d && rest text

abbrev any_char : (Text → Bool) → Text → Bool
any_char rest [] = false
any_char rest (d ∷ text) = rest text

-- `escaped` is whether the character before was an escape.
abbrev matcher : Text → Bool → Text → Bool
matcher [] escaped [] = true
matcher [] escaped (d ∷ text) = false
matcher (c ∷ p) true text = literal c (matcher p false) text
matcher (c ∷ p) false text =
    let plain = matcher p false in
    let after = matcher p true in
    if c == b'%'
    then from_anywhere plain text
    else if c == b'\\'
    then after text
    else if c == b'_'
    then any_char plain text
    else literal c plain text

same_char : ℕ → ℕ → Bool
same_char c d = c == d

abbrev db : TextSearch
db = record {
  ilike = λ p text. matcher p false text;
  websearch = λ q text. false;
  tsquery = λ q text. false;
}

db-IsLike : IsLike same_char db.ilike
unfolding same_char
db-IsLike = record {
  end_end = refl;
  end_char = λ d text. refl;
  any_text = λ p text. refl;
  escaped_end = λ c p. refl;
  escaped = λ c p d text. refl;
  char_end = λ c p plain. ground (arith, plain);
  char = λ c p d text plain. ground (arith, plain);
}

abbrev term : Text
term = b'5' ∷ b'%' ∷ []

abbrev discount : Text
discount = b'a' ∷ b'5' ∷ b'%' ∷ []

abbrev five : Text
five = b'5' ∷ b'0' ∷ []

found : predicate like db term discount ≡ true
unfolding predicate escape_like
found = refl

not_found : predicate like db term five ≡ false
unfolding predicate escape_like
not_found = refl

predicate-contains_example : predicate like db term five ≡ contains same_char term five
predicate-contains_example = predicate-contains db same_char term five db-IsLike
