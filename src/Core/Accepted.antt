-- ===== src/Core/Accepted.antt =====
-- app/core/tools.py: `validate_requested_tools` name by name.
use jarvis_skill_registry.Prelude.{
  ◌≡◌, ◌↔◌, ◌⊎◌, refl, sym, ap, ◌∙◌, subst, Text, true, Bool-cases, text_eq, text_eq_iff, inl, inr,
  List, [], ◌∷◌, arith,
}
use jarvis_skill_registry.Prelude.Tables.{All, Row, any, unique_by}
use jarvis_skill_registry.Prelude.Distinct.{unique_by-append, unique_by-sort_by}
use jarvis_skill_registry.Prelude.Sorting.{sort_by, text_leb}
use jarvis_skill_registry.Prelude.Members.{
  Row-sort_by, sort_by-Row, Row-append, append-left, append-right,
}
use jarvis_skill_registry.Core.Errors.{Result, ok, err, ◌>>=◌}
use jarvis_skill_registry.Core.Allowlist.{IsNamed, check_name-IsNamed}
use jarvis_skill_registry.Core.Tools.{
  member, strip, check_name, append_new, collect, validate_requested_tools,
}

text_eq_comm : (s t : Text) → text_eq s t ≡ text_eq t s
unfolding text_eq
text_eq_comm [] [] = refl
text_eq_comm [] (b ∷ t) = refl
text_eq_comm (a ∷ s) [] = refl
text_eq_comm (a ∷ s) (b ∷ t) = let rest = text_eq_comm s t in ground arith

member-Row : (t : Text) (l : List Text) → member t l ≡ true → Row t l
unfolding member any
member-Row t [] h = ground arith
member-Row t (x ∷ l) h = elim (Bool-cases (text_eq t x)) [
  | inl here ↦ inl ((text_eq_iff t x).0 here)
  | inr there ↦ inr (member-Row t l (ground arith))
]

module _ (lower : Text → Text) where
  -- The lowered form of one of the raw names, which meets the conditions on a name.
  pub record IsAccepted (names : List Text) (t : Text) : Type 0 where
    pub raw : Text
    pub given : Row raw names
    pub accepted : IsNamed lower raw t

  -- The first name is accepted, and the loop goes on behind it.
  collect-first :
      (raw : Text) (names canonical ts : List Text)
      → collect lower (raw ∷ names) canonical ≡ ok ts
      → (t : Text) × (check_name lower raw ≡ ok t)
        × (collect lower names (append_new lower t canonical) ≡ ok ts)
  unfolding collect
  collect-first raw names canonical ts e = from (check_name lower raw) refl e
    where
      from :
          (r : Result Text)
          → check_name lower raw ≡ r
          → (r >>= λ t. collect lower names (append_new lower t canonical)) ≡ ok ts
          → (t : Text) × (check_name lower raw ≡ ok t)
            × (collect lower names (append_new lower t canonical) ≡ ok ts)
      from (ok t) is rest = (t, is, rest)
      from (err x) is rest = cc

  append_new-Row : (x t : Text) (l : List Text) → Row x (append_new lower t l) ↔ (Row x l ⊎ (x ≡ t))
  unfolding append_new
  append_new-Row x t l = elim (Bool-cases (member t l)) [
    | inl known ↦ rw known (
      λ at. inl at,
      λ at. elim at [
        | inl old ↦ old
        | inr same ↦ subst (λ y. Row y l) (sym same) (member-Row t l known)
      ],
    )
    | inr new ↦ rw new (
      λ at. elim (Row-append x l (t ∷ []) at) [
        | inl old ↦ inl old
        | inr (inl same) ↦ inr same
        | inr (inr nowhere) ↦ absurd nowhere
      ],
      λ at. elim at [
        | inl old ↦ append-left x l (t ∷ []) old
        | inr same ↦ append-right x l (t ∷ []) (inl same)
      ],
    )
  ]

  append_new-distinct :
      (t : Text) (l : List Text)
      → unique_by text_eq l ≡ true
      → unique_by text_eq (append_new lower t l) ≡ true
  unfolding append_new member
  append_new-distinct t l distinct = elim (Bool-cases (member t l)) [
    | inl known ↦ rw known distinct
    | inr new ↦ rw new (unique_by-append text_eq text_eq_comm t l new distinct)
  ]

  collect-distinct :
      (names canonical ts : List Text)
      → unique_by text_eq canonical ≡ true
      → collect lower names canonical ≡ ok ts
      → unique_by text_eq ts ≡ true
  unfolding collect
  collect-distinct [] canonical ts distinct e =
      let same : canonical ≡ ts = cc in subst (λ l. unique_by text_eq l ≡ true) same distinct
  collect-distinct (raw ∷ names) canonical ts distinct e =
      let (t, accepted, rest) = collect-first raw names canonical ts e in
      collect-distinct names (append_new lower t canonical) ts
        (append_new-distinct t canonical distinct) rest

  collect-Row :
      (names canonical ts : List Text) (x : Text)
      → collect lower names canonical ≡ ok ts
      → Row x ts ↔ (Row x canonical ⊎ IsAccepted names x)
  unfolding collect
  collect-Row [] canonical ts x e =
      let same : canonical ≡ ts = cc in
      (
        λ at. inl (subst (Row x) (sym same) at),
        λ at. elim at [ inl old ↦ subst (Row x) same old | inr found ↦ absurd found.given ],
      )
  collect-Row (raw ∷ names) canonical ts x e =
      let (t, accepted, rest) = collect-first raw names canonical ts e in
      let (to, from) = collect-Row names (append_new lower t canonical) ts x rest in
      (
        λ at. elim (to at) [
          | inl old ↦ elim ((append_new-Row x t canonical).0 old) [
            | inl before ↦ inl before
            | inr same ↦ inr (record {
              raw = raw;
              given = inl refl;
              accepted = (check_name-IsNamed lower raw x).0 (accepted ∙ ap ok (sym same));
            })
          ]
          | inr later ↦
              inr (record { raw = later.raw; given = inr later.given; accepted = later.accepted })
        ],
        λ at. elim at [
          | inl before ↦ from (inl ((append_new-Row x t canonical).1 (inl before)))
          | inr found ↦ elim found.given [
            | inl first ↦ from (
                inl (
                  (append_new-Row x t canonical).1 (
                    inr (
                      lowered x t (sym (checked found) ∙ ap (check_name lower) first ∙ accepted)))))
            | inr later ↦
                from (inr (record { raw = found.raw; given = later; accepted = found.accepted }))
          ]
        ],
      )
    where
      checked : (found : IsAccepted (raw ∷ names) x) → check_name lower found.raw ≡ ok x
      checked found = (check_name-IsNamed lower found.raw x).1 found.accepted

      lowered : (a b : Text) → ◌≡◌ {A = Result Text} (ok a) (ok b) → a ≡ b
      lowered a b h = cc

  collect-All :
      (names canonical ts : List Text)
      → collect lower names canonical ≡ ok ts
      → All (λ raw. IsNamed lower raw (lower (strip raw))) names
  collect-All [] canonical ts e = tt
  collect-All (raw ∷ names) canonical ts e =
      let (t, accepted, rest) = collect-first raw names canonical ts e in
      let named = (check_name-IsNamed lower raw t).0 accepted in
      (
        subst (IsNamed lower raw) (sym named.lowered) named,
        collect-All names (append_new lower t canonical) ts rest,
      )

  All-collect :
      (names canonical : List Text)
      → All (λ raw. IsNamed lower raw (lower (strip raw))) names
      → (ts : List Text) × (collect lower names canonical ≡ ok ts)
  unfolding collect
  All-collect [] canonical h = (canonical, refl)
  All-collect (raw ∷ names) canonical (named, h) =
      let t = lower (strip raw) in
      let (ts, collected) = All-collect names (append_new lower t canonical) h in
      (ts, rw ((check_name-IsNamed lower raw t).1 named) collected)

  -- The result is what the loop collects, sorted.
  validate_requested_tools-collect :
      (names ts : List Text)
      → validate_requested_tools lower names ≡ ok ts
      → (l : List Text) × (collect lower names [] ≡ ok l) × (sort_by text_leb l ≡ ts)
  unfolding validate_requested_tools
  validate_requested_tools-collect names ts e = from (collect lower names []) refl e
    where
      from :
          (r : Result (List Text))
          → collect lower names [] ≡ r
          → (r >>= λ canonical. ok (sort_by text_leb canonical)) ≡ ok ts
          → (l : List Text) × (collect lower names [] ≡ ok l) × (sort_by text_leb l ≡ ts)
      from (ok l) is h = (l, is, cc)
      from (err x) is h = cc

  -- If the validation accepts the names, it returns the lowered forms of the names, without the
  -- blanks around them, and nothing else, each once, and each name was not empty, had no forbidden
  -- shape, and is harmless, well formed and on the allowlist in its lowered form.
  pub validate_requested_tools_lem :
      (names ts : List Text)
      → validate_requested_tools lower names ≡ ok ts
      → ((t : Text) → Row t ts ↔ IsAccepted names t) × (unique_by text_eq ts ≡ true)
  unfolding unique_by
  validate_requested_tools_lem names ts e =
      let (l, collected, sorted) = validate_requested_tools-collect names ts e in
      (
        λ t.
            (let (to, from) = collect-Row names [] l t collected in
              (
                λ at. elim (to (Row-sort_by text_leb t l (subst (Row t) (sym sorted) at))) [
                  | inl nowhere ↦ absurd nowhere
                  | inr accepted ↦ accepted
                ],
                λ accepted. subst (Row t) sorted (sort_by-Row text_leb t l (from (inr accepted))),
              )),
        subst (λ m. unique_by text_eq m ≡ true) sorted
            (unique_by-sort_by text_eq text_eq_comm text_leb l
              (collect-distinct names [] l refl collected)),
      )

  -- The validation accepts the names if and only if each of them, without the blanks around it, is
  -- not empty and has no forbidden shape, and in its lowered form is not destructive, is well formed
  -- and is on the allowlist.
  pub validate_requested_tools_iff :
      (names : List Text)
      → ((ts : List Text) × (validate_requested_tools lower names ≡ ok ts))
        ↔ All (λ raw. IsNamed lower raw (lower (strip raw))) names
  unfolding validate_requested_tools
  validate_requested_tools_iff names = (
    λ (ts, e).
        (let (l, collected, sorted) = validate_requested_tools-collect names ts e in
          collect-All names [] l collected),
    λ h. (let (l, collected) = All-collect names [] h in (sort_by text_leb l, rw collected refl)),
  )
