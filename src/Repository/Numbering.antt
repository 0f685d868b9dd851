-- ===== src/Repository/Numbering.antt =====
-- app/db/repository.py's `next_version_number`, against the versions that are stored.
use jarvis_skill_registry.Prelude.{
  ℕ, ◌+◌, ◌≤◌, ◌≡◌, refl, inl, inr, ◌⊎◌, ltb, ◌==◌, ==_iff, Bool-cases, List, [], ◌∷◌, arith,
}
use jarvis_skill_registry.Prelude.Tables.{Row, rows_where, Row-rows_where, rows_where-Row}
use jarvis_skill_registry.Core.Errors.{ok}
use jarvis_skill_registry.Models.{Uuid, SkillVersion}
use jarvis_skill_registry.Session.{Session, query}
use jarvis_skill_registry.Repository.{select_versions, max_version, next_version_number}

max_version-Row :
    (v : SkillVersion) (l : List SkillVersion) → Row v l → v.version_number ≤ max_version l
max_version-Row v [] at = absurd at
max_version-Row v (x ∷ l) at = grind (arith, max_version-Row v l)

max_version-attained :
    (l : List SkillVersion)
    → (max_version l ≡ 0) ⊎ ((v : SkillVersion) × Row v l × (v.version_number ≡ max_version l))
max_version-attained [] = inl refl
max_version-attained (x ∷ l) = elim (Bool-cases (ltb (max_version l) x.version_number)) [
  | inl over ↦ inr (x, inl refl, rw over refl)
  | inr under ↦ elim (max_version-attained l) [
    | inl empty ↦ inl (rw under empty)
    | inr (v, at, same) ↦ inr (v, inr at, rw under same)
  ]
]

-- A version of the skill in the organization.
abbrev pub IsVersionOf : Uuid → Uuid → SkillVersion → Type 0
IsVersionOf org skill_id v = (v.organization_id ≡ org) × (v.skill_id ≡ skill_id)

-- The next version number of a skill is above every number that the skill's stored versions in the
-- organization have, and it leaves no gap: it is 1 where there are none, else the successor of a
-- number that one of them has. Reading it changes nothing.
pub next_version_number_lem :
    (org skill_id : Uuid) (s : Session)
    → (n : ℕ) × (next_version_number org skill_id s ≡ (ok (n + 1), s))
      × ((v : SkillVersion)
          → Row v s.working.skill_versions
          → IsVersionOf org skill_id v
          → v.version_number ≤ n)
      × ((n ≡ 0)
          ⊎ ((v : SkillVersion) × Row v s.working.skill_versions
              × IsVersionOf org skill_id v
              × (v.version_number ≡ n)))
unfolding next_version_number query select_versions
next_version_number_lem org skill_id s =
    let own = rows_where (λ v. v.organization_id == org) s.working.skill_versions in
    let rows = rows_where (λ v. v.skill_id == skill_id) own in
    (
      max_version rows,
      refl,
      λ v at is_version. max_version-Row v rows (
          rows_where-Row (λ x. x.skill_id == skill_id) v own
            ((==_iff v.skill_id skill_id).1 is_version.1)
            (rows_where-Row (λ x. x.organization_id == org) v s.working.skill_versions
              ((==_iff v.organization_id org).1 is_version.0) at)),
      elim (max_version-attained rows) [
        | inl none_yet ↦ inl none_yet
        | inr (v, at, same) ↦
            (let (of_skill, among_own) = Row-rows_where (λ x. x.skill_id == skill_id) v own at in
              let (of_org, stored) =
                Row-rows_where (λ x. x.organization_id == org) v s.working.skill_versions
                  among_own in
              inr (
                v,
                stored,
                ((==_iff v.organization_id org).0 of_org, (==_iff v.skill_id skill_id).0 of_skill),
                same,
              ))
      ],
    )
