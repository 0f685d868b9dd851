-- ===== src/Prelude/Sorted.antt =====
-- What an insertion sort returns: a list in order.
use jarvis_skill_registry.Prelude.Tests.{Bool-cases}
use mathlib.Core.Path.{◌≡◌, refl}
use mathlib.Core.Logic.{inl, inr}
use mathlib.Core.Bool.{Bool, true, false, ◌&&◌}
use mathlib.Core.List.{List, [], ◌∷◌}
use native.Mathlib.Omega.{arith}
use jarvis_skill_registry.Prelude.Sorting.{insert, sort_by}

module _ {A : Type 0} (before : A → A → Bool) where
  -- Each element is before the next one.
  unfoldable pub chained : List A → Bool
  chained [] = true
  chained (a ∷ []) = true
  chained (a ∷ b ∷ l) = before a b && chained (b ∷ l)

  module _ (le : A → A → Bool) (sound : (a b : A) → le a b ≡ true → before a b ≡ true)
      (total : (a b : A) → le a b ≡ false → before b a ≡ true) where
    chained-cons :
        (a b : A) (l : List A)
        → before a b ≡ true
        → chained (b ∷ l) ≡ true
        → chained (a ∷ b ∷ l) ≡ true
    unfolding chained
    chained-cons a b l first rest = rw (first, rest) refl

    chained-head : (a b : A) (l : List A) → chained (a ∷ b ∷ l) ≡ true → before a b ≡ true
    unfolding chained
    chained-head a b l h = ground arith

    chained-tail : (a b : A) (l : List A) → chained (a ∷ b ∷ l) ≡ true → chained (b ∷ l) ≡ true
    unfolding chained
    chained-tail a b l h = ground arith

    -- What is put into a list that starts at `b`, behind `b`.
    chained-insert_after :
        (a b : A) (l : List A)
        → before b a ≡ true
        → chained (b ∷ l) ≡ true
        → chained (b ∷ insert le a l) ≡ true
    unfolding insert chained
    chained-insert_after a b [] behind h = chained-cons b a [] behind refl
    chained-insert_after a b (c ∷ l) behind h =
        let further = chained-insert_after a c l in
        elim (Bool-cases (le a c)) [
          | inl here ↦ rw here (
              chained-cons b a (c ∷ l) behind
                (chained-cons a c l (sound a c here) (chained-tail b c l h)))
          | inr there ↦ rw there (
              chained-cons b c (insert le a l) (chained-head b c l h)
                (further (total a c there) (chained-tail b c l h)))
        ]

    chained-insert : (a : A) (l : List A) → chained l ≡ true → chained (insert le a l) ≡ true
    unfolding insert chained
    chained-insert a [] h = refl
    chained-insert a (b ∷ l) h = elim (Bool-cases (le a b)) [
      | inl here ↦ rw here (chained-cons a b l (sound a b here) h)
      | inr there ↦ rw there (chained-insert_after a b l (total a b there) h)
    ]

    pub chained-sort_by : (l : List A) → chained (sort_by le l) ≡ true
    unfolding sort_by chained
    chained-sort_by [] = refl
    chained-sort_by (a ∷ l) = chained-insert a (sort_by le l) (chained-sort_by l)
