-- ===== src/Prelude/Strict.antt =====
-- Lists in a strict order, as a sort by a key that tells its members apart gives them.
use drills.Prelude.Tests.{Bool-cases}
use drills.Prelude.Lists.{All}
use drills.Prelude.Sorting.{keep, insert, sort, All-keep, All-insert, All-sort, All-map}
use mathlib.Core.Path.{◌≡◌, refl}
use mathlib.Core.Logic.{inl, inr}
use mathlib.Core.Bool.{Bool, true, false, ◌&&◌}
use mathlib.Core.List.{List, [], ◌∷◌, ◌++◌}
use native.Mathlib.Omega.{arith}

module _ {ℓ} {A : Type ℓ} where
  abbrev pub IsStrict : (A → A → Bool) → List A → Type 0
  IsStrict before [] = Unit
  IsStrict before (y ∷ ys) = All (λ z. before y z ≡ true) ys × IsStrict before ys

  -- Each two members are told apart.
  abbrev pub IsDistinct : (A → A → Bool) → List A → Type 0
  IsDistinct same [] = Unit
  IsDistinct same (y ∷ ys) = All (λ z. same y z ≡ false) ys × IsDistinct same ys

  pub keep-IsDistinct :
      (same : A → A → Bool) (p : A → Bool) (xs : List A)
      → IsDistinct same xs
      → IsDistinct same (keep p xs)
  unfolding keep
  keep-IsDistinct same p [] h = tt
  keep-IsDistinct same p (x ∷ xs) (h, hs) = elim (Bool-cases (p x)) [
    | inl there ↦ rw there (All-keep _ p xs h, keep-IsDistinct same p xs hs)
    | inr gone ↦ rw gone (keep-IsDistinct same p xs hs)
  ]

  pub keep-keep_and :
      (p q : A → Bool) (xs : List A) → keep q (keep p xs) ≡ keep (λ x. p x && q x) xs
  unfolding keep
  keep-keep_and p q [] = refl
  keep-keep_and p q (x ∷ xs) = ground (arith, keep-keep_and p q xs)

  pub keep_of_All : (p : A → Bool) (xs : List A) → All (λ x. p x ≡ true) xs → keep p xs ≡ xs
  unfolding keep
  keep_of_All p [] h = refl
  keep_of_All p (x ∷ xs) (h, hs) = rw (h, keep_of_All p xs hs) refl

  pub All-member : (P : A → Type 0) (xs ys : List A) (x : A) → All P (xs ++ (x ∷ ys)) → P x
  All-member P [] ys x (h, hs) = h
  All-member P (y ∷ xs) ys x (h, hs) = All-member P xs ys x hs

  module _ (before : A → A → Bool)
      (chain : (x y z : A) → before x y ≡ true → before y z ≡ true → before x z ≡ true)
      (asymmetric : (x y : A) → before x y ≡ true → before y x ≡ false) where
    module _ (same : A → A → Bool)
        (connected : (x y : A) → same x y ≡ false → before y x ≡ false → before x y ≡ true) where
      insert-IsStrict :
          (x : A) (ys : List A)
          → All (λ y. same x y ≡ false) ys
          → IsStrict before ys
          → IsStrict before (insert before x ys)
      unfolding insert
      insert-IsStrict x [] others h = (tt, tt)
      insert-IsStrict x (y ∷ ys) (other, others) (h, hs) = elim (Bool-cases (before y x)) [
        | inl later ↦ rw later (
          All-insert (λ z. before y z ≡ true) before x ys later h,
          insert-IsStrict x ys others hs,
        )
        | inr front ↦
            let first = connected x y other front in
            rw front ((first, All-map _ _ ys (λ z below. chain x y z first below) h), (h, hs))
      ]

      pub sort-IsStrict : (xs : List A) → IsDistinct same xs → IsStrict before (sort before xs)
      unfolding sort
      sort-IsStrict [] h = tt
      sort-IsStrict (x ∷ xs) (h, hs) =
          insert-IsStrict x (sort before xs) (All-sort _ before xs h) (sort-IsStrict xs hs)

    -- The members after one of a strict list are what it comes before.
    pub keep_after :
        (xs ys : List A) (x : A)
        → IsStrict before (xs ++ (x ∷ ys))
        → keep (before x) (xs ++ (x ∷ ys)) ≡ ys
    unfolding keep
    keep_after [] ys x (h, hs) = rw (keep_of_All (before x) ys h) (ground (arith, asymmetric x x))
    keep_after (y ∷ xs) ys x (h, hs) =
        rw (asymmetric y x (All-member _ xs ys x h)) (keep_after xs ys x hs)
