-- ===== src/Core/Allowlist.antt =====
-- app/core/tools.py: what `validate_requested_tools` returns.
use jarvis_skill_registry.Prelude.{
  ◌≡◌, ◌↔◌, refl, ap, none, Text, Bool, true, false, Bool-cases, Option-cases, subst, inl, inr,
  List, [], ◌∷◌, arith, text_eq,
}
use jarvis_skill_registry.Prelude.Tables.{All, All-append}
use jarvis_skill_registry.Prelude.Sorting.{sort_by, insert, text_leb}
use jarvis_skill_registry.Prelude.Sorted.{chained, chained-sort_by}
use jarvis_skill_registry.Core.Errors.{Result, ok, err, ◌>>=◌}
use jarvis_skill_registry.Core.Tools.{
  member, allowed_tools, destructive_tools, strip, forbidden_shape, is_well_formed, check_name,
  append_new, collect, validate_requested_tools,
}

-- No name comes after a name that it precedes.
abbrev pub ascending : List Text → Bool
ascending = chained text_leb

text_leb_total : (a b : Text) → text_leb a b ≡ false → text_leb b a ≡ true
unfolding text_leb
text_leb_total [] b h = ground arith
text_leb_total (c ∷ a) [] h = refl
text_leb_total (c ∷ a) (d ∷ b) h = ground (arith, text_leb_total a b)

module _ (P : Text → Type 0) where
  All-insert : (a : Text) (l : List Text) → P a → All P l → All P (insert text_leb a l)
  unfolding insert
  All-insert a [] pa h = (pa, tt)
  All-insert a (b ∷ l) pa (pb, h) = elim (Bool-cases (text_leb a b)) [
    | inl le ↦ rw le (pa, (pb, h))
    | inr gt ↦ rw gt (pb, All-insert a l pa h)
  ]

  All-sort_by : (l : List Text) → All P l → All P (sort_by text_leb l)
  unfolding sort_by
  All-sort_by [] h = tt
  All-sort_by (a ∷ l) (pa, h) = All-insert a (sort_by text_leb l) pa (All-sort_by l h)

abbrev pub IsAllowed : Text → Type 0
IsAllowed t = member t allowed_tools ≡ true

module _ (lower : Text → Text) where
  -- What the validation asks of one raw name: what is left of it without the blanks around it is not
  -- empty and has no forbidden shape, and `t`, its lowered form, is not destructive, is well formed
  -- and is on the allowlist.
  pub record IsNamed (raw t : Text) : Type 0 where
    pub named : text_eq (strip raw) [] ≡ false
    pub plain : forbidden_shape (strip raw) ≡ none
    pub harmless : member (lower (strip raw)) destructive_tools ≡ false
    pub formed : is_well_formed (lower (strip raw)) ≡ true
    pub allowed : IsAllowed (lower (strip raw))
    pub lowered : lower (strip raw) ≡ t

  accepted-IsNamed : (raw t : Text) → check_name lower raw ≡ ok t → IsNamed raw t
  unfolding check_name
  accepted-IsNamed raw t e = elim (Bool-cases (text_eq (strip raw) [])) [
    | inl no_name ↦ absurd (cc (rw no_name at e))
    | inr named ↦ elim (Option-cases (forbidden_shape (strip raw))) [
      | inr (reason, bad) ↦ absurd (cc (rw (named, bad) at e))
      | inl good ↦ elim (Bool-cases (member (lower (strip raw)) destructive_tools)) [
        | inl bad ↦ absurd (cc (rw (named, good, bad) at e))
        | inr harmless ↦ elim (Bool-cases (is_well_formed (lower (strip raw)))) [
          | inr bad ↦ absurd (cc (rw (named, good, harmless, bad) at e))
          | inl formed ↦ elim (Bool-cases (member (lower (strip raw)) allowed_tools)) [
            | inr bad ↦ absurd (cc (rw (named, good, harmless, formed, bad) at e))
            | inl allowed ↦ record {
              named = named;
              plain = good;
              harmless = harmless;
              formed = formed;
              allowed = allowed;
              lowered = cc (rw (named, good, harmless, formed, allowed) at e);
            }
          ]
        ]
      ]
    ]
  ]

  -- One name is accepted under these conditions, and under no others.
  pub check_name-IsNamed : (raw t : Text) → (check_name lower raw ≡ ok t) ↔ IsNamed raw t
  unfolding check_name
  check_name-IsNamed raw t = (
    accepted-IsNamed raw t,
    λ h. rw (h.named, h.plain, h.harmless, h.formed, h.allowed) (ap ok h.lowered),
  )

  check_name-IsAllowed : (raw t : Text) → check_name lower raw ≡ ok t → IsAllowed t
  check_name-IsAllowed raw t e =
      let h = accepted-IsNamed raw t e in subst IsAllowed h.lowered h.allowed

  collect-IsAllowed :
      (names canonical ts : List Text)
      → All IsAllowed canonical
      → collect lower names canonical ≡ ok ts
      → All IsAllowed ts
  unfolding collect append_new
  collect-IsAllowed [] canonical ts h e = subst (All IsAllowed) (cc) h
  collect-IsAllowed (raw ∷ names) canonical ts h e =
      next (check_name lower raw) (λ t. check_name-IsAllowed raw t)
        (λ t. collect-IsAllowed names (append_new lower t canonical) ts) e
    where
      next :
          (r : Result Text)
          → ((t : Text) → r ≡ ok t → IsAllowed t)
          → ((t : Text)
              → All IsAllowed (append_new lower t canonical)
              → collect lower names (append_new lower t canonical) ≡ ok ts
              → All IsAllowed ts)
          → (r >>= λ lowered. collect lower names (append_new lower lowered canonical)) ≡ ok ts
          → All IsAllowed ts
      next (err x) allowed rest e' = cc
      next (ok t) allowed rest e' =
          rest t
            (elim (Bool-cases (member t canonical)) [
              | inl known ↦ rw known h
              | inr new ↦ rw new (All-append IsAllowed canonical (t ∷ []) h (allowed t refl, tt))
            ])
            e'

  -- What the validation accepts, it returns on the allowlist and in order: every name of the result
  -- is an allowed tool, and no name is followed by a smaller one.
  pub validate_requested_tools-IsAllowed :
      (names ts : List Text)
      → validate_requested_tools lower names ≡ ok ts
      → All IsAllowed ts × (ascending ts ≡ true)
  unfolding validate_requested_tools
  validate_requested_tools-IsAllowed names ts e =
      done (collect lower names []) (λ l. collect-IsAllowed names [] l tt) e
    where
      done :
          (r : Result (List Text))
          → ((l : List Text) → r ≡ ok l → All IsAllowed l)
          → (r >>= λ canonical. ok (sort_by text_leb canonical)) ≡ ok ts
          → All IsAllowed ts × (ascending ts ≡ true)
      done (err x) allowed e' = cc
      done (ok l) allowed e' =
          let same : sort_by text_leb l ≡ ts = cc in
          (
            subst (All IsAllowed) same (All-sort_by IsAllowed l (allowed l refl)),
            subst (λ x. ascending x ≡ true) same
                (chained-sort_by text_leb text_leb (λ a b h. h) text_leb_total l),
          )
