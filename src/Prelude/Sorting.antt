-- ===== src/Prelude/Sorting.antt =====
-- ORDER BY: a stable sort by a Boolean order, and the rows that a WHERE keeps.
use drills.Prelude.Tests.{if◌then◌else◌, Bool-cases}
use drills.Prelude.Lists.{All, length}
use Prim.Native.Nat.{suc, ◌≤◌}
use mathlib.Core.Path.{◌≡◌, refl, ap, ◌∙◌}
use mathlib.Core.Logic.{inl, inr}
use mathlib.Core.Bool.{Bool, true, false}
use mathlib.Core.List.{List, [], ◌∷◌}
use native.Mathlib.Omega.{arith}

module _ {ℓ} {A : Type ℓ} where
  -- The members that pass a test, in order.
  unfoldable pub keep : (A → Bool) → List A → List A
  keep p [] = []
  keep p (x ∷ xs) = let rest = keep p xs in if p x then x ∷ rest else rest

  -- `before y x`: `y` comes strictly before `x`. An equal member goes in front.
  unfoldable pub insert : (A → A → Bool) → A → List A → List A
  insert before x [] = x ∷ []
  insert before x (y ∷ ys) =
      let rest = insert before x ys in if before y x then y ∷ rest else x ∷ y ∷ ys

  unfoldable pub sort : (A → A → Bool) → List A → List A
  unfolding insert
  sort before [] = []
  sort before (x ∷ xs) = insert before x (sort before xs)

  -- None comes before an earlier one.
  abbrev pub IsSorted : (A → A → Bool) → List A → Type 0
  IsSorted before [] = Unit
  IsSorted before (y ∷ ys) = All (λ z. before z y ≡ false) ys × IsSorted before ys

  module _ (P : A → Type 0) where
    pub All-keep : (p : A → Bool) (xs : List A) → All P xs → All P (keep p xs)
    unfolding keep
    All-keep p [] h = tt
    All-keep p (x ∷ xs) (h, hs) = elim (Bool-cases (p x)) [
      | inl there ↦ rw there (h, All-keep p xs hs)
      | inr gone ↦ rw gone (All-keep p xs hs)
    ]

    pub All-insert :
        (before : A → A → Bool) (x : A) (xs : List A) → P x → All P xs → All P (insert before x xs)
    unfolding insert
    All-insert before x [] h hs = (h, tt)
    All-insert before x (y ∷ ys) h (hy, hs) = elim (Bool-cases (before y x)) [
      | inl later ↦ rw later (hy, All-insert before x ys h hs)
      | inr front ↦ rw front (h, (hy, hs))
    ]

    pub All-sort : (before : A → A → Bool) (xs : List A) → All P xs → All P (sort before xs)
    unfolding sort
    All-sort before [] hs = tt
    All-sort before (x ∷ xs) (h, hs) =
        All-insert before x (sort before xs) h (All-sort before xs hs)

  -- Not to come before is transitive, as in every total order.
  abbrev pub IsOrder : (A → A → Bool) → Type ℓ
  IsOrder before = (z y x : A) → before z y ≡ false → before y x ≡ false → before z x ≡ false

  pub All-map : (P Q : A → Type 0) (xs : List A) → ((x : A) → P x → Q x) → All P xs → All Q xs
  All-map P Q [] f h = tt
  All-map P Q (x ∷ xs) f (h, hs) = (f x h, All-map P Q xs f hs)

  insert_front :
      (before : A → A → Bool) (x : A) (ys : List A)
      → All (λ z. before z x ≡ false) ys
      → insert before x ys ≡ x ∷ ys
  unfolding insert
  insert_front before x [] h = refl
  insert_front before x (y ∷ ys) (h, hs) = rw h refl

  module _ (before : A → A → Bool) (order : IsOrder before) where
    insert-IsSorted :
        (x : A) (ys : List A)
        → ((y : A) → before y x ≡ true → before x y ≡ false)
        → IsSorted before ys
        → IsSorted before (insert before x ys)
    unfolding insert
    insert-IsSorted x [] total h = (tt, tt)
    insert-IsSorted x (y ∷ ys) total (h, hs) = elim (Bool-cases (before y x)) [
      | inl later ↦ rw later (
        All-insert (λ z. before z y ≡ false) before x ys (total y later) h,
        insert-IsSorted x ys total hs,
      )
      | inr front ↦
          rw front ((front, All-map _ _ ys (λ z below. order z y x below front) h), (h, hs))
    ]

    -- A WHERE before a sort and after it give the same rows.
    keep-insert :
        (p : A → Bool) (x : A) (ys : List A)
        → IsSorted before ys
        → keep p (insert before x ys) ≡ (if p x then insert before x (keep p ys) else keep p ys)
    unfolding keep insert
    keep-insert p x [] h = refl
    keep-insert p x (y ∷ ys) (h, hs) = elim (Bool-cases (before y x)) [
      | inl later ↦ ground (arith, keep-insert p x ys hs)
      | inr front ↦ ground (
        arith,
        insert_front before x (keep p ys) (
            All-keep (λ z. before z x ≡ false) p ys
              (All-map _ _ ys (λ z below. order z y x below front) h)),
      )
    ]

    module _ (total : (x y : A) → before y x ≡ true → before x y ≡ false) where
      pub sort-IsSorted : (xs : List A) → IsSorted before (sort before xs)
      unfolding sort
      sort-IsSorted [] = tt
      sort-IsSorted (x ∷ xs) =
          insert-IsSorted x (sort before xs) (λ y. total x y) (sort-IsSorted xs)

      pub keep-sort :
          (p : A → Bool) (xs : List A) → keep p (sort before xs) ≡ sort before (keep p xs)
      unfolding sort keep
      keep-sort p [] = refl
      keep-sort p (x ∷ xs) =
          keep-insert p x (sort before xs) (sort-IsSorted xs) ∙ ground (arith, keep-sort p xs)

  insert-length :
      (before : A → A → Bool) (x : A) (xs : List A) → length (insert before x xs) ≡ suc (length xs)
  unfolding insert
  insert-length before x [] = refl
  insert-length before x (y ∷ ys) = ground (arith, insert-length before x ys)

  pub sort-length : (before : A → A → Bool) (xs : List A) → length (sort before xs) ≡ length xs
  unfolding sort
  sort-length before [] = refl
  sort-length before (x ∷ xs) =
      omega (arith, insert-length before x (sort before xs), sort-length before xs)

  pub length-keep : (p : A → Bool) (xs : List A) → length (keep p xs) ≤ length xs
  unfolding keep
  length-keep p [] = omega arith
  length-keep p (x ∷ xs) = ground (arith, length-keep p xs)

  pub keep-All : (p : A → Bool) (xs : List A) → All (λ x. p x ≡ true) (keep p xs)
  unfolding keep
  keep-All p [] = tt
  keep-All p (x ∷ xs) = elim (Bool-cases (p x)) [
    | inl there ↦ rw there (there, keep-All p xs)
    | inr gone ↦ rw gone (keep-All p xs)
  ]

  -- A test that implies the first one leaves no trace of it.
  pub keep-keep :
      (p q : A → Bool) (xs : List A)
      → ((x : A) → q x ≡ true → p x ≡ true)
      → keep q (keep p xs) ≡ keep q xs
  unfolding keep
  keep-keep p q [] implies = refl
  keep-keep p q (x ∷ xs) implies = ground (arith, implies x, keep-keep p q xs implies)

  -- Two orders that agree on the members sort them alike.
  module _ (P : A → Type 0) (f g : A → A → Bool)
      (same : (x y : A) → P x → P y → f y x ≡ g y x) where
    insert-same : (x : A) (ys : List A) → P x → All P ys → insert f x ys ≡ insert g x ys
    unfolding insert
    insert-same x [] h hs = refl
    insert-same x (y ∷ ys) h (hy, hs) = rw (same x y h hy, insert-same x ys h hs) refl

    pub sort-same : (xs : List A) → All P xs → sort f xs ≡ sort g xs
    unfolding sort
    sort-same [] hs = refl
    sort-same (x ∷ xs) (h, hs) =
        ap (insert f x) (sort-same xs hs) ∙ insert-same x (sort g xs) h (All-sort P g xs hs)
