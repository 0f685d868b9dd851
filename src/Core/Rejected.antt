-- ===== src/Core/Rejected.antt =====
-- app/core/tools.py: the errors of `validate_requested_tools`.
use jarvis_skill_registry.Prelude.{
  ◌≡◌, ◌↔◌, refl, sym, ap, subst, Text, true, false, Bool-cases, Option-cases, text_eq, inl, inr,
  none, some, List, [], ◌∷◌,
}
use jarvis_skill_registry.Prelude.Sorting.{sort_by, text_leb}
use jarvis_skill_registry.Core.Errors.{
  Result, ok, err, ◌>>=◌, Exception, unprocessable, ErrorCode, Detail, Reason,
}
use jarvis_skill_registry.Core.Allowlist.{IsNamed, check_name-IsNamed}
use jarvis_skill_registry.Core.Tools.{
  member, strip, allowed_tools, destructive_tools, forbidden_shape, is_well_formed, check_name,
  append_new, collect, validate_requested_tools,
}

abbrev forbidden : Text → Reason → Exception
forbidden tool reason =
    Exception.domain
      (unprocessable ErrorCode.forbidden_tool_pattern (Detail.forbidden_tool tool reason))

abbrev unknown : Text → Exception
unknown tool = Exception.domain (
    unprocessable ErrorCode.unknown_tool
      (Detail.unknown_tool tool (sort_by text_leb allowed_tools)))

module _ (lower : Text → Text) where
  -- Why a raw name is refused, and the error that says so: each reason where no earlier one applies.
  pub data NameRefused (raw : Text) : Exception → Type 0 where
    empty :
        text_eq (strip raw) [] ≡ true → NameRefused raw (forbidden raw Reason.empty_or_non_string)
    shape :
        (reason : Reason)
        → text_eq (strip raw) [] ≡ false
        → forbidden_shape (strip raw) ≡ some reason
        → NameRefused raw (forbidden (strip raw) reason)
    destructive :
        text_eq (strip raw) [] ≡ false
        → forbidden_shape (strip raw) ≡ none
        → member (lower (strip raw)) destructive_tools ≡ true
        → NameRefused raw (forbidden (strip raw) Reason.destructive_capability)
    malformed :
        text_eq (strip raw) [] ≡ false
        → forbidden_shape (strip raw) ≡ none
        → member (lower (strip raw)) destructive_tools ≡ false
        → is_well_formed (lower (strip raw)) ≡ false
        → NameRefused raw (forbidden (strip raw) Reason.malformed_identifier)
    unlisted :
        text_eq (strip raw) [] ≡ false
        → forbidden_shape (strip raw) ≡ none
        → member (lower (strip raw)) destructive_tools ≡ false
        → is_well_formed (lower (strip raw)) ≡ true
        → member (lower (strip raw)) allowed_tools ≡ false
        → NameRefused raw (unknown (strip raw))

  -- The error is that of the first name that is refused.
  pub data FirstRefused : List Text → Exception → Type 0 where
    here :
        (raw : Text) (names : List Text) (e : Exception)
        → NameRefused raw e
        → FirstRefused (raw ∷ names) e
    later :
        (raw : Text) (names : List Text) (e : Exception)
        → IsNamed lower raw (lower (strip raw))
        → FirstRefused names e
        → FirstRefused (raw ∷ names) e

  refused-check_name :
      (raw : Text) (e : Exception) → NameRefused raw e → check_name lower raw ≡ err e
  unfolding check_name
  refused-check_name raw e (NameRefused.empty no_name) = rw no_name refl
  refused-check_name raw e (NameRefused.shape reason named bad) = rw (named, bad) refl
  refused-check_name raw e (NameRefused.destructive named good bad) = rw (named, good, bad) refl
  refused-check_name raw e (NameRefused.malformed named good harmless bad) =
      rw (named, good, harmless, bad) refl
  refused-check_name raw e (NameRefused.unlisted named good harmless formed bad) =
      rw (named, good, harmless, formed, bad) refl

  as_error :
      (raw : Text) (x e : Exception)
      → NameRefused raw x
      → ◌≡◌ {A = Result Text} (err x) (err e)
      → NameRefused raw e
  as_error raw x e h same = let one : x ≡ e = cc in subst (NameRefused raw) one h

  check_name-NameRefused :
      (raw : Text) (e : Exception) → check_name lower raw ≡ err e → NameRefused raw e
  unfolding check_name
  check_name-NameRefused raw e h = elim (Bool-cases (text_eq (strip raw) [])) [
    | inl no_name ↦ as_error raw _ e (NameRefused.empty no_name) (rw no_name at h)
    | inr named ↦ elim (Option-cases (forbidden_shape (strip raw))) [
      | inr (reason, bad) ↦
          as_error raw _ e (NameRefused.shape reason named bad) (rw (named, bad) at h)
      | inl good ↦ elim (Bool-cases (member (lower (strip raw)) destructive_tools)) [
        | inl bad ↦
            as_error raw _ e (NameRefused.destructive named good bad) (rw (named, good, bad) at h)
        | inr harmless ↦ elim (Bool-cases (is_well_formed (lower (strip raw)))) [
          | inr bad ↦
              as_error raw _ e (NameRefused.malformed named good harmless bad)
                (rw (named, good, harmless, bad) at h)
          | inl formed ↦ elim (Bool-cases (member (lower (strip raw)) allowed_tools)) [
            | inr bad ↦
                as_error raw _ e (NameRefused.unlisted named good harmless formed bad)
                  (rw (named, good, harmless, formed, bad) at h)
            | inl allowed ↦ absurd (cc (rw (named, good, harmless, formed, allowed) at h))
          ]
        ]
      ]
    ]
  ]

  collect-refused :
      (names canonical : List Text) (e : Exception)
      → FirstRefused names e
      → collect lower names canonical ≡ err e
  unfolding collect
  collect-refused _ canonical _ (FirstRefused.here raw names e refused) =
      rw (refused-check_name raw e refused) refl
  collect-refused _ canonical _ (FirstRefused.later raw names e named rest) =
      rw ((check_name-IsNamed lower raw (lower (strip raw))).1 named)
        (collect-refused names (append_new lower (lower (strip raw)) canonical) e rest)

  collect-FirstRefused :
      (names canonical : List Text) (e : Exception)
      → collect lower names canonical ≡ err e
      → FirstRefused names e
  unfolding collect
  collect-FirstRefused [] canonical e h = cc
  collect-FirstRefused (raw ∷ names) canonical e h =
      from (check_name lower raw) refl
        (λ t. collect-FirstRefused names (append_new lower t canonical) e) h
    where
      from :
          (r : Result Text)
          → check_name lower raw ≡ r
          → ((t : Text)
              → collect lower names (append_new lower t canonical) ≡ err e
              → FirstRefused names e)
          → (r >>= λ t. collect lower names (append_new lower t canonical)) ≡ err e
          → FirstRefused (raw ∷ names) e
      from (ok t) is rest h' =
          let named = (check_name-IsNamed lower raw t).0 is in
          FirstRefused.later raw names e (subst (IsNamed lower raw) (sym named.lowered) named)
            (rest t h')
      from (err x) is rest h' =
          let one : x ≡ e = cc in
          FirstRefused.here raw names e
            (subst (NameRefused raw) one (check_name-NameRefused raw x is))

  -- The validation fails with an error if and only if it is the error of the first name that is
  -- refused, each name before it being accepted; and the error is that of the first of these that
  -- applies to the name, in the order of the code: empty, of a forbidden shape, destructive,
  -- malformed, not on the allowlist.
  pub validate_requested_tools-FirstRefused :
      (names : List Text) (e : Exception)
      → (validate_requested_tools lower names ≡ err e) ↔ FirstRefused names e
  unfolding validate_requested_tools
  validate_requested_tools-FirstRefused names e = (
    λ h. collect-FirstRefused names [] e (from (collect lower names []) h),
    λ h. rw (collect-refused names [] e h) refl,
  )
    where
      from :
          (r : Result (List Text))
          → (r >>= λ canonical. ok (sort_by text_leb canonical)) ≡ err e
          → r ≡ err e
      from (ok l) h = cc
      from (err x) h = let one : x ≡ e = cc in ap err one
