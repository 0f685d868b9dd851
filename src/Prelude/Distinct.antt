-- ===== src/Prelude/Distinct.antt =====
-- Lists without duplicates under a test, appended to and sorted.
use jarvis_skill_registry.Prelude.Tests.{Bool-cases}
use mathlib.Core.Path.{◌≡◌, refl, ap, ◌∙◌}
use mathlib.Core.Logic.{inl, inr}
use mathlib.Core.Bool.{Bool, true, false, ◌||◌}
use mathlib.Core.List.{List, [], ◌∷◌, ◌++◌}
use native.Mathlib.Omega.{arith}
use jarvis_skill_registry.Prelude.Tables.{any, unique_by}
use jarvis_skill_registry.Prelude.Sorting.{insert, sort_by}

module _ {A : Type 0} where
  pub any-append : (p : A → Bool) (l m : List A) → any p (l ++ m) ≡ any p l || any p m
  unfolding any
  any-append p [] m = refl
  any-append p (x ∷ l) m = let rest = any-append p l m in ground arith

  any-insert :
      (p : A → Bool) (le : A → A → Bool) (a : A) (l : List A)
      → any p (insert le a l) ≡ p a || any p l
  unfolding any insert
  any-insert p le a [] = refl
  any-insert p le a (x ∷ l) =
      let rest = any-insert p le a l in
      elim (Bool-cases (le a x)) [
        | inl here ↦ rw here refl
        | inr there ↦ rw (there, rest) (swap (p x) (p a) (any p l))
      ]
    where
      swap : (b c d : Bool) → b || (c || d) ≡ c || (b || d)
      swap b c d = ground arith

module _ {A : Type 0} (same : A → A → Bool) (symmetric : (a b : A) → same a b ≡ same b a) where
  pub unique_by-append :
      (t : A) (l : List A)
      → any (same t) l ≡ false
      → unique_by same l ≡ true
      → unique_by same (l ++ t ∷ []) ≡ true
  unfolding any unique_by
  unique_by-append t [] new distinct = refl
  unique_by-append t (x ∷ l) new distinct =
      let rest = unique_by-append t l in
      let others = any-append (same x) l (t ∷ []) in let flipped = symmetric t x in ground arith

  unique_by-insert :
      (le : A → A → Bool) (t : A) (l : List A)
      → any (same t) l ≡ false
      → unique_by same l ≡ true
      → unique_by same (insert le t l) ≡ true
  unfolding any unique_by insert
  unique_by-insert le t [] new distinct = refl
  unique_by-insert le t (x ∷ l) new distinct =
      let rest = unique_by-insert le t l in
      let others = any-insert (same x) le t l in
      let flipped = symmetric t x in
      elim (Bool-cases (le t x)) [
        | inl here ↦ rw here (ground arith)
        | inr there ↦ rw there (ground arith)
      ]

  any-sort_by : (p : A → Bool) (le : A → A → Bool) (l : List A) → any p (sort_by le l) ≡ any p l
  unfolding any sort_by
  any-sort_by p le [] = refl
  any-sort_by p le (x ∷ l) =
      any-insert p le x (sort_by le l) ∙ ap (λ b. p x || b) (any-sort_by p le l)

  pub unique_by-sort_by :
      (le : A → A → Bool) (l : List A)
      → unique_by same l ≡ true
      → unique_by same (sort_by le l) ≡ true
  unfolding unique_by sort_by
  unique_by-sort_by le [] distinct = refl
  unique_by-sort_by le (x ∷ l) distinct =
      let rest = unique_by-sort_by le l in
      let others = any-sort_by (same x) le l in
      unique_by-insert le x (sort_by le l) (ground arith) (ground arith)
