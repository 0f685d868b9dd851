-- ===== src/Prelude/Partition.antt =====
-- The part of a table that a predicate selects, under the statements that leave it alone.
use Prim.Native.Nat.{ℕ}
use mathlib.Core.Path.{◌≡◌, refl, sym, subst, ap, ◌∙◌}
use mathlib.Core.Logic.{inl, inr}
use mathlib.Core.Bool.{Bool, true, false}
use mathlib.Core.List.{List, [], ◌∷◌, ◌++◌, append-nil}
use native.Mathlib.Omega.{arith}
use jarvis_skill_registry.Prelude.Tests.{Bool-cases, ◌==◌, ==_iff}
use jarvis_skill_registry.Prelude.Tables.{
  Row, rows_where, any, unique_by, update_where, rows_where-append, any-false-Row, any-Row,
  Row-rows_where,
}

-- An UPDATE that reaches no selected row and moves no row into the selection or out of it.
pub rows_where-update_where :
    {A : Type 0} (selected reached : A → Bool) (f : A → A) (l : List A)
    → ((x : A) → Row x l → reached x ≡ true → selected x ≡ false)
    → ((x : A) → selected (f x) ≡ selected x)
    → rows_where selected (update_where reached f l) ≡ rows_where selected l
unfolding rows_where update_where
rows_where-update_where selected reached f [] apart still = refl
rows_where-update_where selected reached f (x ∷ l) apart still =
    let rest = rows_where-update_where selected reached f l (λ y row. apart y (inr row)) still in
    elim (Bool-cases (reached x)) [
      | inl hit ↦ rw (hit, still x, apart x (inl refl) hit, rest) refl
      | inr miss ↦ rw (miss, rest) refl
    ]

-- An INSERT of a row that is not selected.
pub rows_where-insert :
    {A : Type 0} (selected : A → Bool) (l : List A) (x : A)
    → selected x ≡ false
    → rows_where selected (l ++ x ∷ []) ≡ rows_where selected l
unfolding rows_where
rows_where-insert selected l x out =
    rows_where-append selected l (x ∷ []) ∙ rw out (append-nil (rows_where selected l))

pub any-none :
    {A : Type 0} (p : A → Bool) (l : List A) → ((x : A) → Row x l → p x ≡ false) → any p l ≡ false
unfolding any
any-none p [] h = refl
any-none p (x ∷ l) h = rw (h x (inl refl)) (any-none p l (λ y row. h y (inr row)))

key-clash :
    {A : Type 0} (key : A → ℕ) (x y : A) (l : List A)
    → any (λ b. key x == key b) l ≡ false
    → Row y l
    → key x ≡ key y
    → ⊥
key-clash key x y l apart row same =
    cc (sym (any-false-Row (λ b. key x == key b) y l apart row) ∙ (==_iff (key x) (key y)).1 same)

-- Two selected rows with one key show that the key is not unique.
pub unique_by-rows_where :
    {A : Type 0} (selected : A → Bool) (key : A → ℕ) (u : ℕ) (l : List A) (a b : A) (rows : List A)
    → ((x : A) → selected x ≡ true → key x ≡ u)
    → rows_where selected l ≡ a ∷ b ∷ rows
    → unique_by (λ x y. key x == key y) l ≡ false
unfolding rows_where unique_by
unique_by-rows_where selected key u [] a b rows keyed two = cc
unique_by-rows_where selected key u (x ∷ l) a b rows keyed two = elim (Bool-cases (selected x)) [
  | inl here ↦
      (let tail : rows_where selected l ≡ b ∷ rows = cc (rw here at two) in
        let (test, row) = Row-rows_where selected b l (subst (Row b) (sym tail) (inl refl)) in
        let clash =
          any-Row (λ y. key x == key y) b l row
            ((==_iff (key x) (key b)).1 (keyed x here ∙ sym (keyed b test))) in
        ground arith)
  | inr there ↦
      (let rest = unique_by-rows_where selected key u l a b rows keyed (rw there at two) in
        ground arith)
]

-- A key determines its row.
pub unique_by-Row :
    {A : Type 0} (key : A → ℕ) (l : List A) (x y : A)
    → unique_by (λ a b. key a == key b) l ≡ true
    → Row x l
    → Row y l
    → key x ≡ key y
    → x ≡ y
unfolding unique_by
unique_by-Row key [] x y unique at_x at_y same = absurd at_x
unique_by-Row key (z ∷ l) x y unique (inl e) (inl e') same = e ∙ sym e'
unique_by-Row key (z ∷ l) x y unique (inl e) (inr row) same =
    absurd (key-clash key z y l (ground arith) row (ap key (sym e) ∙ same))
unique_by-Row key (z ∷ l) x y unique (inr row) (inl e) same =
    absurd (key-clash key z x l (ground arith) row (ap key (sym e) ∙ sym same))
unique_by-Row key (z ∷ l) x y unique (inr row) (inr row') same =
    unique_by-Row key l x y (ground arith) row row' same
