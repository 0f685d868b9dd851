-- ===== src/Prelude/Tables.antt =====
-- Lists as database tables: WHERE, existence, uniqueness, UPDATE of the rows that match.
use jarvis_skill_registry.Prelude.Tests.{if◌then◌else◌, Bool-cases}
use Prim.Native.Nat.{ℕ, zero, suc}
use mathlib.Core.Path.{◌≡◌, refl, sym, subst}
use mathlib.Core.Logic.{◌⊎◌, inl, inr}
use mathlib.Core.Bool.{Bool, true, false, not, ◌&&◌, ◌||◌}
use mathlib.Core.List.{List, [], ◌∷◌, ◌++◌}
use native.Mathlib.Omega.{arith}

module _ {ℓ} {A : Type ℓ} where
  abbrev pub length : List A → ℕ
  length [] = 0
  length (x ∷ xs) = suc (length xs)

  -- SELECT ... WHERE p
  unfoldable pub rows_where : (A → Bool) → List A → List A
  rows_where p [] = []
  rows_where p (x ∷ xs) = let rest = rows_where p xs in if p x then x ∷ rest else rest

  unfoldable pub any : (A → Bool) → List A → Bool
  any p [] = false
  any p (x ∷ xs) = p x || any p xs

  -- No two rows are the same under `same`: a UNIQUE constraint.
  unfoldable pub unique_by : (A → A → Bool) → List A → Bool
  unfolding any
  unique_by same [] = true
  unique_by same (x ∷ xs) = not (any (same x) xs) && unique_by same xs

  -- UPDATE ... WHERE p
  unfoldable pub update_where : (A → Bool) → (A → A) → List A → List A
  update_where p f [] = []
  update_where p f (x ∷ xs) = (if p x then f x else x) ∷ update_where p f xs

  abbrev pub All {κ} : (A → Type κ) → List A → Type κ
  All P [] = Unit
  All P (x ∷ xs) = P x × All P xs

  -- LIMIT n
  unfoldable pub take : ℕ → List A → List A
  take zero xs = []
  take (suc n) [] = []
  take (suc n) (x ∷ xs) = x ∷ take n xs

-- `x` is a row of the table.
abbrev pub Row : {A : Type 0} → A → List A → Type 0
Row x [] = ⊥
Row x (y ∷ ys) = (x ≡ y) ⊎ Row x ys

pub Row-rows_where :
    {A : Type 0} (p : A → Bool) (x : A) (l : List A)
    → Row x (rows_where p l)
    → (p x ≡ true) × Row x l
unfolding rows_where
Row-rows_where p x [] r = absurd r
Row-rows_where p x (y ∷ l) r = grind (arith, Row-rows_where p x l)

pub rows_where-Row :
    {A : Type 0} (p : A → Bool) (x : A) (l : List A) → p x ≡ true → Row x l → Row x (rows_where p l)
unfolding rows_where
rows_where-Row p x [] px r = absurd r
rows_where-Row p x (y ∷ l) px r = grind (arith, rows_where-Row p x l px)

pub All-Row : {A : Type 0} (P : A → Type 0) (x : A) (l : List A) → All P l → Row x l → P x
All-Row P x [] h r = absurd r
All-Row P x (y ∷ l) (px, h) (inl e) = subst P (sym e) px
All-Row P x (y ∷ l) (px, h) (inr r) = All-Row P x l h r

pub All-map :
    {A : Type 0} {P Q : A → Type 0} → ((x : A) → P x → Q x) → (l : List A) → All P l → All Q l
All-map f [] h = tt
All-map f (x ∷ l) (px, h) = (f x px, All-map f l h)

pub All-append :
    {A : Type 0} (P : A → Type 0) (xs ys : List A) → All P xs → All P ys → All P (xs ++ ys)
All-append P [] ys none_left all_ys = all_ys
All-append P (x ∷ xs) ys (here, rest) all_ys = (here, All-append P xs ys rest all_ys)

pub All-update_where :
    {A : Type 0} (P : A → Type 0) (p : A → Bool) (f : A → A) (l : List A)
    → ((x : A) → P x → P (f x))
    → All P l
    → All P (update_where p f l)
unfolding update_where
All-update_where P p f [] keep h = tt
All-update_where P p f (x ∷ l) keep (px, h) = (
  elim (Bool-cases (p x)) [ inl e ↦ rw e (keep x px) | inr e ↦ rw e px ],
  All-update_where P p f l keep h,
)

pub rows_where-append :
    {A : Type 0} (p : A → Bool) (xs ys : List A)
    → rows_where p (xs ++ ys) ≡ rows_where p xs ++ rows_where p ys
unfolding rows_where
rows_where-append p [] ys = refl
rows_where-append p (x ∷ xs) ys = ground (arith, rows_where-append p xs ys)

pub any-Row :
    {A : Type 0} (p : A → Bool) (x : A) (l : List A) → Row x l → p x ≡ true → any p l ≡ true
unfolding any
any-Row p x [] r h = absurd r
any-Row p x (y ∷ l) r h = grind (arith, any-Row p x l)

pub any-false-Row :
    {A : Type 0} (p : A → Bool) (x : A) (l : List A) → any p l ≡ false → Row x l → p x ≡ false
unfolding any
any-false-Row p x [] h r = absurd r
any-false-Row p x (y ∷ l) h r = grind (arith, any-false-Row p x l)
