-- ===== src/Prelude/Members.antt =====
-- The rows of an appended or sorted list.
use jarvis_skill_registry.Prelude.Tests.{Bool-cases}
use mathlib.Core.Path.{◌≡◌}
use mathlib.Core.Logic.{◌⊎◌, inl, inr}
use mathlib.Core.Bool.{Bool}
use mathlib.Core.List.{List, [], ◌∷◌, ◌++◌}
use native.Mathlib.Omega.{arith}
use jarvis_skill_registry.Prelude.Tables.{Row}
use jarvis_skill_registry.Prelude.Sorting.{insert, sort_by}

module _ {A : Type 0} where
  pub Row-append : (x : A) (xs ys : List A) → Row x (xs ++ ys) → Row x xs ⊎ Row x ys
  Row-append x [] ys row = inr row
  Row-append x (y ∷ xs) ys (inl e) = inl (inl e)
  Row-append x (y ∷ xs) ys (inr row) = elim (Row-append x xs ys row) [
    | inl left ↦ inl (inr left)
    | inr right ↦ inr right
  ]

  pub append-left : (x : A) (xs ys : List A) → Row x xs → Row x (xs ++ ys)
  append-left x [] ys row = absurd row
  append-left x (y ∷ xs) ys (inl e) = inl e
  append-left x (y ∷ xs) ys (inr row) = inr (append-left x xs ys row)

  pub append-right : (x : A) (xs ys : List A) → Row x ys → Row x (xs ++ ys)
  append-right x [] ys row = row
  append-right x (y ∷ xs) ys row = inr (append-right x xs ys row)

  insert-Row :
      (le : A → A → Bool) (x y : A) (l : List A) → (x ≡ y) ⊎ Row x l → Row x (insert le y l)
  unfolding insert
  insert-Row le x y [] row = row
  insert-Row le x y (z ∷ l) row = elim (Bool-cases (le y z)) [
    | inl first ↦ rw first row
    | inr later ↦ rw later (elim row [
      | inl e ↦ inr (insert-Row le x y l (inl e))
      | inr at ↦ elim at [ inl e ↦ inl e | inr below ↦ inr (insert-Row le x y l (inr below)) ]
    ])
  ]

  pub sort_by-Row : (le : A → A → Bool) (x : A) (l : List A) → Row x l → Row x (sort_by le l)
  unfolding sort_by
  sort_by-Row le x [] row = row
  sort_by-Row le x (y ∷ l) (inl e) = insert-Row le x y (sort_by le l) (inl e)
  sort_by-Row le x (y ∷ l) (inr row) =
      insert-Row le x y (sort_by le l) (inr (sort_by-Row le x l row))

-- `a` is a row of what is sorted.
Row-insert :
    {A : Type 0} (le : A → A → Bool) (x a : A) (l : List A)
    → Row a (insert le x l)
    → (a ≡ x) ⊎ Row a l
unfolding insert
Row-insert le x a [] r = grind arith
Row-insert le x a (y ∷ l) r = grind (arith, Row-insert le x a l)

pub Row-sort_by :
    {A : Type 0} (le : A → A → Bool) (a : A) (l : List A) → Row a (sort_by le l) → Row a l
unfolding sort_by
Row-sort_by le a [] r = absurd r
Row-sort_by le a (x ∷ l) r = grind (arith, Row-insert le x a (sort_by le l) r, Row-sort_by le a l)
