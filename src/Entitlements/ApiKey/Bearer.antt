-- ===== src/Entitlements/ApiKey/Bearer.antt =====
-- Which headers name an API key.
use drills.Prelude.{
  ℕ, ◌≡◌, ◌≢◌, ◌↔◌, refl, ap, sym, ◌∙◌, Bool, true, false, ◌&&◌, some, [], ◌∷◌, ◌++◌, Bool-cases,
  Option-cases, inl, inr, arith,
}
use drills.Prelude.Text.{Text, is_space}
use drills.Entitlements.ApiKey.{
  same_letter, skip_letters, bearer, skip_spaces, no_spaces, whole_word, spaced_word, bearer_key,
}

-- A text is the letters, in any case.
abbrev pub spells : Text → Text → Bool
spells [] [] = true
spells [] (c ∷ text) = false
spells (l ∷ letters) [] = false
spells (l ∷ letters) (c ∷ text) = same_letter l c && spells letters text

abbrev pub all_spaces : Text → Bool
all_spaces [] = true
all_spaces (c ∷ text) = is_space c && all_spaces text

-- A header: the scheme, some white space, and a key without any.
pub record IsBearer (text key : Text) : Type 0 where
  pub scheme : Text
  pub space : ℕ
  pub spaces : Text
  pub is_whole : text ≡ scheme ++ (space ∷ (spaces ++ key))
  pub is_scheme : spells bearer scheme ≡ true
  pub is_spaced : all_spaces (space ∷ spaces) ≡ true
  pub is_some : key ≢ []
  pub is_word : no_spaces key ≡ true

skip_letters-spells :
    (letters scheme rest : Text)
    → spells letters scheme ≡ true
    → skip_letters letters (scheme ++ rest) ≡ some rest
unfolding skip_letters
skip_letters-spells [] [] rest h = refl
skip_letters-spells [] (c ∷ scheme) rest h = cc
skip_letters-spells (l ∷ letters) [] rest h = cc
skip_letters-spells (l ∷ letters) (c ∷ scheme) rest h =
    ground (arith, skip_letters-spells letters scheme rest)

skip_spaces-all :
    (spaces key : Text)
    → all_spaces spaces ≡ true
    → no_spaces key ≡ true
    → skip_spaces (spaces ++ key) ≡ key
unfolding skip_spaces no_spaces
skip_spaces-all [] [] h k = refl
skip_spaces-all [] (c ∷ key) h k = ground arith
skip_spaces-all (c ∷ spaces) key h k = ground (arith, skip_spaces-all spaces key)

whole_word-some : (key : Text) → key ≢ [] → no_spaces key ≡ true → whole_word key ≡ some key
unfolding whole_word
whole_word-some [] some_key h = absurd (some_key refl)
whole_word-some (c ∷ key) some_key h = rw h refl

-- The other way: what was skipped.
Split : Text → Text → Text → Type 0
Split letters text rest = (scheme : Text) × (text ≡ scheme ++ rest) × (spells letters scheme ≡ true)

skip_letters-Split :
    (letters text rest : Text) → skip_letters letters text ≡ some rest → Split letters text rest
unfolding skip_letters Split
skip_letters-Split [] text rest h = ([], ground arith, refl)
skip_letters-Split (l ∷ letters) [] rest h = absurd (cc)
skip_letters-Split (l ∷ letters) (c ∷ text) rest h = elim (Bool-cases (same_letter l c)) [
  | inl same ↦
      let (scheme, whole, is) = skip_letters-Split letters text rest (rw same at h) in
      (c ∷ scheme, ap (λ t. c ∷ t) whole, rw same is)
  | inr other ↦ absurd (cc (rw other at h))
]

skip_spaces-split :
    (text : Text)
    → (spaces : Text) × (text ≡ spaces ++ skip_spaces text) × (all_spaces spaces ≡ true)
unfolding skip_spaces
skip_spaces-split [] = ([], refl, refl)
skip_spaces-split (c ∷ text) = elim (Bool-cases (is_space c)) [
  | inl space ↦
      let (spaces, whole, all) = skip_spaces-split text in
      (c ∷ spaces, rw space (ap (λ t. c ∷ t) whole), rw space all)
  | inr other ↦ ([], rw other refl, refl)
]

whole_word-is :
    (text key : Text)
    → whole_word text ≡ some key
    → (text ≡ key) × (key ≢ []) × (no_spaces key ≡ true)
unfolding whole_word
whole_word-is [] key h = absurd (cc)
whole_word-is (c ∷ text) key h = elim (Bool-cases (no_spaces (c ∷ text))) [
  | inl word ↦
      let is : c ∷ text ≡ key = ground (arith, rw word at h) in (is, λ e. cc, rw (← is) word)
  | inr other ↦ absurd (cc (rw other at h))
]

spaced_word-is :
    (text rest key : Text)
    → Split bearer text rest
    → spaced_word (some rest) ≡ some key
    → IsBearer text key
unfolding spaced_word Split
spaced_word-is text [] key split h = absurd (cc)
spaced_word-is text (c ∷ rest) key (scheme, whole, is_scheme) h = elim (Bool-cases (is_space c)) [
  | inl space ↦
      let (spaces, after, all) = skip_spaces-split rest in
      let (is, some_key, word) = whole_word-is (skip_spaces rest) key (rw space at h) in
      record {
        scheme = scheme;
        space = c;
        spaces = spaces;
        is_whole = whole ∙ ap (λ t. scheme ++ (c ∷ t)) (after ∙ ap (λ t. spaces ++ t) is);
        is_scheme = is_scheme;
        is_spaced = rw space all;
        is_some = some_key;
        is_word = word;
      }
  | inr other ↦ absurd (cc (rw other at h))
]

spaced_word-all :
    (space : ℕ) (spaces key : Text)
    → all_spaces (space ∷ spaces) ≡ true
    → key ≢ []
    → no_spaces key ≡ true
    → spaced_word (some (space ∷ (spaces ++ key))) ≡ some key
unfolding spaced_word
spaced_word-all space spaces key h some_key word =
    let first : is_space space ≡ true = ground arith in
    let others : all_spaces spaces ≡ true = ground arith in
    rw (first, skip_spaces-all spaces key others word) (whole_word-some key some_key word)

printed : (text key : Text) → IsBearer text key → bearer_key text ≡ some key
unfolding bearer_key
printed text key b =
    ap (λ t. spaced_word (skip_letters bearer t)) b.is_whole
    ∙ ap spaced_word (skip_letters-spells bearer b.scheme (b.space ∷ (b.spaces ++ key)) b.is_scheme)
    ∙ spaced_word-all b.space b.spaces key b.is_spaced b.is_some b.is_word

parsed : (text key : Text) → bearer_key text ≡ some key → IsBearer text key
unfolding bearer_key
parsed text key h = elim (Option-cases (skip_letters bearer text)) [
  | inl none_left ↦ absurd (cc (ap spaced_word (sym none_left) ∙ h))
  | inr (rest, left) ↦
      spaced_word-is text rest key (skip_letters-Split bearer text rest left)
        (ap spaced_word (sym left) ∙ h)
]

-- An `Authorization` header, once trimmed, names an API key exactly if it is "Bearer" in any
-- case, white space, and that key, which has no white space and is not empty.
pub bearer_key_iff : (text key : Text) → (bearer_key text ≡ some key) ↔ IsBearer text key
bearer_key_iff text key = (parsed text key, printed text key)
