-- ===== src/Repository/Selection.antt =====
-- Runtime selection: app/db/repository.py's `active_skill_versions`, against what a caller may see.
use jarvis_skill_registry.Prelude.{
  ◌≡◌, refl, sym, ap, ◌∙◌, ◌↔◌, inl, inr, Text, Bool, true, ◌&&◌, ◌==◌, ==_iff, Bool-cases, Option,
  List, [], ◌∷◌, arith,
}
use jarvis_skill_registry.Prelude.Tables.{Row, rows_where, Row-rows_where, rows_where-Row}
use jarvis_skill_registry.Core.Enums.{
  SkillStatus, VersionStatus, skill_status_eq, version_status_eq,
}
use jarvis_skill_registry.Models.{Uuid, Skill, SkillVersion}
use jarvis_skill_registry.Database.Constraints.{Db, is_active}
use jarvis_skill_registry.Session.{World}
use jarvis_skill_registry.Repository.{
  VersionDetail, load_version, select_skills, select_versions, join_versions, join_all, active_rows,
  is_active_skill, in_department,
}
use jarvis_skill_registry.Prelude.Members.{
  Row-append, append-left, append-right, sort_by-Row, Row-sort_by,
}

module _ (w : World) (db : Db) where
  -- A pair of the join: the skill, and a version of it with its own grants.
  abbrev pub Joined : List SkillVersion → Skill → Skill × VersionDetail → Type 0
  Joined vs s p =
      (p.0 ≡ s)
      × Row p.1.version vs
      × (p.1.version.skill_id ≡ s.id)
      × (p.1 ≡ load_version w db p.1.version)

  Row-join_versions :
      (vs : List SkillVersion) (s : Skill) (p : Skill × VersionDetail)
      → Row p (join_versions w db vs s)
      → Joined vs s p
  unfolding join_versions load_version
  Row-join_versions [] s p row = absurd row
  Row-join_versions (v ∷ vs) s p row = elim (Bool-cases (v.skill_id == s.id)) [
    | inl same ↦ elim (rw same at row) [
      | inl e ↦ rw e (refl, inl refl, (==_iff v.skill_id s.id).0 same, refl)
      | inr at ↦ (let (a, b, c, d) = Row-join_versions vs s p at in (a, inr b, c, d))
    ]
    | inr other ↦
        (let (a, b, c, d) = Row-join_versions vs s p (rw other at row) in (a, inr b, c, d))
  ]

  join_versions-Row :
      (vs : List SkillVersion) (s : Skill) (v : SkillVersion)
      → Row v vs
      → v.skill_id ≡ s.id
      → Row (s, load_version w db v) (join_versions w db vs s)
  unfolding join_versions
  join_versions-Row [] s v row same = absurd row
  join_versions-Row (u ∷ vs) s v (inl e) same =
      rw (sym e, (==_iff v.skill_id s.id).1 same) (inl refl)
  join_versions-Row (u ∷ vs) s v (inr row) same = elim (Bool-cases (u.skill_id == s.id)) [
    | inl first ↦ rw first (inr (join_versions-Row vs s v row same))
    | inr other ↦ rw other (join_versions-Row vs s v row same)
  ]

  Row-join_all :
      (vs : List SkillVersion) (ss : List Skill) (p : Skill × VersionDetail)
      → Row p (join_all w db vs ss)
      → Row p.0 ss × Joined vs p.0 p
  unfolding join_all
  Row-join_all vs [] p row = absurd row
  Row-join_all vs (s ∷ ss) p row =
      elim (Row-append p (join_versions w db vs s) (join_all w db vs ss) row) [
        | inl here ↦
            (let (a, b, c, d) = Row-join_versions vs s p here in
              (inl a, (refl, b, c ∙ ap (λ x. x.id) (sym a), d)))
        | inr there ↦ (let (a, b) = Row-join_all vs ss p there in (inr a, b))
      ]

  join_all-Row :
      (vs : List SkillVersion) (ss : List Skill) (s : Skill) (v : SkillVersion)
      → Row s ss
      → Row v vs
      → v.skill_id ≡ s.id
      → Row (s, load_version w db v) (join_all w db vs ss)
  unfolding join_all
  join_all-Row vs [] s v at_s at_v same = absurd at_s
  join_all-Row vs (t ∷ ss) s v (inl e) at_v same =
      append-left (s, load_version w db v) (join_versions w db vs t) (join_all w db vs ss)
        (rw (sym e) (join_versions-Row vs s v at_v same))
  join_all-Row vs (t ∷ ss) s v (inr row) at_v same =
      append-right (s, load_version w db v) (join_versions w db vs t) (join_all w db vs ss)
        (join_all-Row vs ss s v row at_v same)

-- What a caller of an organization is offered: an active skill of the organization, in the
-- department if one is asked for, with an active version of it in the organization.
pub record IsOffered (org : Uuid) (department : Option Text) (db : Db) (s : Skill)
    (v : SkillVersion) : Type 0 where
  pub skill : Row s db.skills
  pub skill_organization : s.organization_id ≡ org
  pub skill_status : s.status ≡ SkillStatus.active
  pub asked_for : in_department department s ≡ true
  pub version : Row v db.skill_versions
  pub version_organization : v.organization_id ≡ org
  pub version_status : v.status ≡ VersionStatus.active
  pub joined : v.skill_id ≡ s.id

both : (a b : Bool) → a && b ≡ true → (a ≡ true) × (b ≡ true)
both a b h = (ground arith, ground arith)

skill_active :
    (s : SkillStatus) → skill_status_eq s SkillStatus.active ≡ true → s ≡ SkillStatus.active
skill_active s h = ground arith

version_active :
    (s : VersionStatus) → version_status_eq s VersionStatus.active ≡ true → s ≡ VersionStatus.active
version_active s h = ground arith

-- The runtime selection is exactly what the caller's organization offers: a pair is a row of the
-- answer if and only if its skill and its version are an active skill and an active version of it,
-- both of the caller's organization and in the department if one is given, and its grants are those
-- of that version.
pub active_rows_iff :
    (w : World) (org : Uuid) (department : Option Text) (db : Db) (p : Skill × VersionDetail)
    → Row p (active_rows w org department db)
      ↔ (IsOffered org department db p.0 p.1.version × (p.1 ≡ load_version w db p.1.version))
unfolding active_rows select_skills select_versions
active_rows_iff w org department db p = (
  λ row.
      let vs = rows_where is_active (select_versions org db) in
      let ss =
        rows_where (λ s. is_active_skill s && in_department department s) (select_skills org db) in
      let (at_s, (here, at_v, joined, made)) =
        Row-join_all w db vs ss p
          (Row-sort_by (λ a b. w.collation a.0.name b.0.name) p (join_all w db vs ss) row) in
      let (s_tests, s_row) =
        Row-rows_where (λ s. is_active_skill s && in_department department s) p.0
          (select_skills org db) at_s in
      let (v_test, v_row) = Row-rows_where is_active p.1.version (select_versions org db) at_v in
      let (s_org, s_stored) = Row-rows_where (λ s. s.organization_id == org) p.0 db.skills s_row in
      let (v_org, v_stored) =
        Row-rows_where (λ v. v.organization_id == org) p.1.version db.skill_versions v_row in
      let (s_active, s_department) =
        both (is_active_skill p.0) (in_department department p.0) s_tests in
      (
        record {
          skill = s_stored;
          skill_organization = (==_iff p.0.organization_id org).0 s_org;
          skill_status = skill_active p.0.status s_active;
          asked_for = s_department;
          version = v_stored;
          version_organization = (==_iff p.1.version.organization_id org).0 v_org;
          version_status = version_active p.1.version.status v_test;
          joined = joined;
        },
        made,
      ),
  λ (offered, made).
      let vs = rows_where is_active (select_versions org db) in
      let ss =
        rows_where (λ s. is_active_skill s && in_department department s) (select_skills org db) in
      sort_by-Row (λ a b. w.collation a.0.name b.0.name) p (join_all w db vs ss)
        (rw made (
          join_all-Row w db vs ss p.0 p.1.version
            (rows_where-Row (λ s. is_active_skill s && in_department department s) p.0
              (select_skills org db) (rw (offered.asked_for, offered.skill_status) refl)
              (rows_where-Row (λ s. s.organization_id == org) p.0 db.skills
                ((==_iff p.0.organization_id org).1 offered.skill_organization) offered.skill))
            (rows_where-Row is_active p.1.version (select_versions org db)
              (rw (offered.version_status) refl)
              (rows_where-Row (λ v. v.organization_id == org) p.1.version db.skill_versions
                ((==_iff p.1.version.organization_id org).1 offered.version_organization)
                offered.version))
            offered.joined)),
)
