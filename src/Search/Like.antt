-- ===== src/Search/Like.antt =====
-- What the pattern of the arm `like` matches.
use drills.Prelude.{
  ℕ, ◌≡◌, ap, ◌∙◌, inl, inr, Bool, true, false, ◌&&◌, ◌||◌, [], ◌∷◌, ◌++◌, Bool-cases, arith,
}
use drills.Prelude.Text.{Text}
use drills.Search.Messages.{like, TextSearch, is_special, escape_like, predicate}

-- Does the pattern match the text from one of its places on?
abbrev pub from_anywhere : (Text → Bool) → Text → Bool
from_anywhere matches [] = matches []
from_anywhere matches (c ∷ text) = matches (c ∷ text) || from_anywhere matches text

-- The documentation's rules for LIKE with the escape character `\`: `%` stands for any text,
-- an escaped character and one that is not special for itself. `same` says which characters
-- ILIKE takes for one another. Patterns are matched as a whole.
pub record IsLike (same : ℕ → ℕ → Bool) (ilike : Text → Text → Bool) : Type 0 where
  pub end_end : ilike [] [] ≡ true
  pub end_char : (d : ℕ) (text : Text) → ilike [] (d ∷ text) ≡ false
  pub any_text : (p text : Text) → ilike (b'%' ∷ p) text ≡ from_anywhere (ilike p) text
  pub escaped_end : (c : ℕ) (p : Text) → ilike (b'\\' ∷ c ∷ p) [] ≡ false
  pub escaped :
      (c : ℕ) (p : Text) (d : ℕ) (text : Text)
      → ilike (b'\\' ∷ c ∷ p) (d ∷ text) ≡ same c d && ilike p text
  pub char_end : (c : ℕ) (p : Text) → is_special c ≡ false → ilike (c ∷ p) [] ≡ false
  pub char :
      (c : ℕ) (p : Text) (d : ℕ) (text : Text)
      → is_special c ≡ false
      → ilike (c ∷ p) (d ∷ text) ≡ same c d && ilike p text

-- The message starts with the term, and contains it.
abbrev pub starts_with : (ℕ → ℕ → Bool) → Text → Text → Bool
starts_with same [] text = true
starts_with same (c ∷ q) [] = false
starts_with same (c ∷ q) (d ∷ text) = same c d && starts_with same q text

abbrev pub contains : (ℕ → ℕ → Bool) → Text → Text → Bool
contains same q text = from_anywhere (starts_with same q) text

module _ (same : ℕ → ℕ → Bool) (ilike : Text → Text → Bool) (law : IsLike same ilike) where
  from_anywhere-end : (text : Text) → from_anywhere (ilike []) text ≡ true
  from_anywhere-end [] = law.end_end
  from_anywhere-end (c ∷ text) = ground (arith, law.end_char c text, from_anywhere-end text)

  -- A character of the term, escaped or not.
  ilike-escape_like :
      (q text : Text) → ilike (escape_like q ++ (b'%' ∷ [])) text ≡ starts_with same q text
  unfolding escape_like
  ilike-escape_like [] text = law.any_text [] text ∙ from_anywhere-end text
  ilike-escape_like (c ∷ q) [] = elim (Bool-cases (is_special c)) [
    | inl special ↦ rw special (law.escaped_end c (escape_like q ++ (b'%' ∷ [])))
    | inr plain ↦ rw plain (law.char_end c (escape_like q ++ (b'%' ∷ [])) plain)
  ]
  ilike-escape_like (c ∷ q) (d ∷ text) = elim (Bool-cases (is_special c)) [
    | inl special ↦ rw special (
        law.escaped c (escape_like q ++ (b'%' ∷ [])) d text
        ∙ ap (λ b. same c d && b) (ilike-escape_like q text))
    | inr plain ↦ rw plain (
        law.char c (escape_like q ++ (b'%' ∷ [])) d text plain
        ∙ ap (λ b. same c d && b) (ilike-escape_like q text))
  ]

from_anywhere-same :
    (f g : Text → Bool)
    → ((text : Text) → f text ≡ g text)
    → (text : Text) → from_anywhere f text ≡ from_anywhere g text
from_anywhere-same f g agree [] = agree []
from_anywhere-same f g agree (c ∷ text) =
    ground (arith, agree (c ∷ text), from_anywhere-same f g agree text)

-- Under the rules of LIKE, the arm `like` finds a message exactly if it contains the term, whatever
-- characters the term has.
pub predicate-contains :
    (db : TextSearch) (same : ℕ → ℕ → Bool) (q message : Text)
    → IsLike same db.ilike
    → predicate like db q message ≡ contains same q message
unfolding predicate
predicate-contains db same q message law =
    law.any_text (escape_like q ++ (b'%' ∷ [])) message
    ∙ from_anywhere-same (db.ilike (escape_like q ++ (b'%' ∷ []))) (starts_with same q)
        (ilike-escape_like same db.ilike law q) message
