-- ===== src/Database/Updates.antt =====
-- What an UPDATE, or an INSERT at the end, leaves true of a table's keys.
use jarvis_skill_registry.Prelude.{
  ◌≡◌, refl, inl, inr, Bool, true, false, not, ◌==◌, Bool-cases, List, [], ◌∷◌, arith,
  if◌then◌else◌, ℕ,
}
use jarvis_skill_registry.Prelude.Tables.{any, rows_where, unique_by, update_where, Row}
use jarvis_skill_registry.Database.Constraints.{all_rows}

module _ {A : Type 0} where
  pub any-update_where :
      (q reached : A → Bool) (f : A → A) (l : List A)
      → ((x : A) → q (f x) ≡ q x)
      → any q (update_where reached f l) ≡ any q l
  unfolding any update_where
  any-update_where q reached f [] still = refl
  any-update_where q reached f (x ∷ l) still =
      let rest = any-update_where q reached f l still in
      elim (Bool-cases (reached x)) [
        | inl e ↦ rw (e, still x, rest) refl
        | inr e ↦ rw (e, rest) refl
      ]

  pub all_rows-update_where :
      (q reached : A → Bool) (f : A → A) (l : List A)
      → ((x : A) → q (f x) ≡ q x)
      → all_rows q (update_where reached f l) ≡ all_rows q l
  unfolding all_rows update_where
  all_rows-update_where q reached f [] still = refl
  all_rows-update_where q reached f (x ∷ l) still =
      let rest = all_rows-update_where q reached f l still in
      elim (Bool-cases (reached x)) [
        | inl e ↦ rw (e, still x, rest) refl
        | inr e ↦ rw (e, rest) refl
      ]

  pub unique_by-update_where :
      (same : A → A → Bool) (reached : A → Bool) (f : A → A) (l : List A)
      → ((x : A) → same (f x) ≡ same x)
      → ((x y : A) → same x (f y) ≡ same x y)
      → unique_by same (update_where reached f l) ≡ unique_by same l
  unfolding unique_by update_where
  unique_by-update_where same reached f [] left right = refl
  unique_by-update_where same reached f (x ∷ l) left right =
      let rest = unique_by-update_where same reached f l left right in
      let others = any-update_where (same x) reached f l (right x) in
      elim (Bool-cases (reached x)) [
        | inl e ↦ rw (e, left x, others, rest) refl
        | inr e ↦ rw (e, others, rest) refl
      ]

  -- An UPDATE whose rows all have what `selected` tests only if they had it.
  any-rows_where-update_where :
      (q selected reached : A → Bool) (f : A → A) (l : List A)
      → ((x : A) → q (f x) ≡ q x)
      → ((x : A) → selected (f x) ≡ true → selected x ≡ true)
      → any q (rows_where selected l) ≡ false
      → any q (rows_where selected (update_where reached f l)) ≡ false
  unfolding any update_where rows_where
  any-rows_where-update_where q selected reached f [] still old none = refl
  any-rows_where-update_where q selected reached f (x ∷ l) still old none =
      elim (Bool-cases (reached x)) [
        | inl e ↦ rw e (
            grind
              (arith, still x, old x, any-rows_where-update_where q selected reached f l still old))
        | inr e ↦ rw e (grind (arith, any-rows_where-update_where q selected reached f l still old))
      ]

  unique_by-cons :
      (same : A → A → Bool) (y : A) (l : List A) (kept : Bool)
      → (kept ≡ true → any (same y) l ≡ false)
      → unique_by same l ≡ true
      → unique_by same (if kept then y ∷ l else l) ≡ true
  unfolding unique_by
  unique_by-cons same y l true apart rest = rw (apart refl, rest) refl
  unique_by-cons same y l false apart rest = rest

  cons-unique_by :
      (same : A → A → Bool) (y : A) (l : List A) (kept : Bool)
      → unique_by same (if kept then y ∷ l else l) ≡ true
      → (kept ≡ true → any (same y) l ≡ false) × (unique_by same l ≡ true)
  unfolding unique_by
  cons-unique_by same y l true unique = (λ _. ground arith, ground arith)
  cons-unique_by same y l false unique = (λ kept. cc, unique)

  pub unique_by-retired :
      (same : A → A → Bool) (selected reached : A → Bool) (f : A → A) (l : List A)
      → ((x : A) → same (f x) ≡ same x)
      → ((x y : A) → same x (f y) ≡ same x y)
      → ((x : A) → selected (f x) ≡ true → selected x ≡ true)
      → unique_by same (rows_where selected l) ≡ true
      → unique_by same (rows_where selected (update_where reached f l)) ≡ true
  unfolding update_where rows_where
  unique_by-retired same selected reached f [] left right old unique = unique
  unique_by-retired same selected reached f (x ∷ l) left right old unique =
      let (apart, tail) = cons-unique_by same x (rows_where selected l) (selected x) unique in
      let rest = unique_by-retired same selected reached f l left right old tail in
      let others = any-rows_where-update_where (same x) selected reached f l (right x) old in
      elim (Bool-cases (reached x)) [
        | inl e ↦ rw e (
            unique_by-cons same (f x) _ (selected (f x))
              (λ on. rw (left x) (others (apart (old x on)))) rest)
        | inr e ↦ rw e (unique_by-cons same x _ (selected x) (λ on. others (apart on)) rest)
      ]

  pub update_where-none :
      (reached : A → Bool) (f : A → A) (l : List A)
      → any reached l ≡ false
      → update_where reached f l ≡ l
  unfolding any update_where
  update_where-none reached f [] none = refl
  update_where-none reached f (x ∷ l) none = grind (arith, update_where-none reached f l)

  -- A DELETE that reaches no row.
  pub rows_where-none :
      (reached : A → Bool) (l : List A)
      → any reached l ≡ false
      → rows_where (λ x. not (reached x)) l ≡ l
  unfolding any rows_where
  rows_where-none reached [] none = refl
  rows_where-none reached (x ∷ l) none = grind (arith, rows_where-none reached l)

  any-rows_where-reached :
      (q selected reached : A → Bool) (f : A → A) (l : List A)
      → ((x : A) → Row x l → reached x ≡ true → q (f x) ≡ false)
      → any q (rows_where selected l) ≡ false
      → any q (rows_where selected (update_where reached f l)) ≡ false
  unfolding any update_where rows_where
  any-rows_where-reached q selected reached f [] out none = refl
  any-rows_where-reached q selected reached f (x ∷ l) out none =
      let rest = any-rows_where-reached q selected reached f l (λ y row. out y (inr row)) in
      elim (Bool-cases (reached x)) [
        | inl e ↦ rw e (grind (arith, out x (inl refl) e, rest))
        | inr e ↦ rw e (grind (arith, rest))
      ]

  module _ (id key : A → ℕ) (i k : ℕ) (selected : A → Bool) (f : A → A) where
    alone :
        (x : A) (l : List A)
        → id x == i ≡ true
        → any (λ b. id x == id b) l ≡ false
        → any (λ b. id b == i) l ≡ false
    unfolding any
    alone x [] same others = refl
    alone x (y ∷ l) same others = grind (arith, alone x l same)

    dropped :
        (x : A) (l : List A)
        → any (λ b. k == key b) (rows_where selected (x ∷ l)) ≡ false
        → any (λ b. k == key b) (rows_where selected l) ≡ false
    unfolding any rows_where
    dropped x l free = elim (Bool-cases (selected x)) [
      | inl e ↦ (let free' = rw e at free in ground arith)
      | inr e ↦ rw e at free
    ]

    selected_apart :
        (x : A) (l : List A)
        → selected x ≡ true
        → any (λ b. k == key b) (rows_where selected (x ∷ l)) ≡ false
        → key x == k ≡ false
    unfolding any rows_where
    selected_apart x l on free = let free' = rw on at free in ground arith

    -- The rows of one id come to be selected where no selected row has their key.
    pub unique_by-joined :
        (l : List A)
        → ((x : A) → Row x l → id x == i ≡ true → key x ≡ k)
        → ((x : A) → key (f x) ≡ key x)
        → unique_by (λ a b. id a == id b) l ≡ true
        → any (λ b. k == key b) (rows_where selected l) ≡ false
        → unique_by (λ a b. key a == key b) (rows_where selected l) ≡ true
        → unique_by
            (λ a b. key a == key b)
            (rows_where selected (update_where (λ x. id x == i) f l))
          ≡ true
    unfolding unique_by update_where rows_where any
    unique_by-joined [] at keeps ids free unique = refl
    unique_by-joined (x ∷ l) at keeps ids free unique =
        let (apart, tail) =
          cons-unique_by (λ a b. key a == key b) x (rows_where selected l) (selected x) unique in
        let reached = λ (y : A). id y == i in
        elim (Bool-cases (id x == i)) [
          | inl e ↦
              (let unmoved = update_where-none reached f l (alone x l e (ground arith)) in
                rw (e, unmoved)
                  (unique_by-cons (λ a b. key a == key b) (f x) _ (selected (f x))
                    (λ on. rw (keeps x, at x (inl refl) e) (dropped x l free)) tail))
          | inr e ↦
              (let rest =
                  unique_by-joined l (λ y row. at y (inr row)) keeps (ground arith)
                    (dropped x l free) tail in
                rw e (
                  unique_by-cons (λ a b. key a == key b) x _ (selected x)
                    (λ on.
                      any-rows_where-reached (λ b. key x == key b) selected reached f l
                        (λ y row on_y.
                          rw (keeps y, at y (inr row) on_y) (selected_apart x l on free))
                        (apart on))
                    rest))
        ]
