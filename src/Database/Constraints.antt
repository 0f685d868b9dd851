-- ===== src/Database/Constraints.antt =====
-- The tables, and the unique, check and foreign keys of alembic 0001 and 0002 as tests of a whole
-- table. Not here: the foreign keys to organizations and users of the tables below users (no request
-- deletes either, and the actor has just been read), which are in Statements; string lengths and
-- plain indexes.
use jarvis_skill_registry.Prelude.{
  text_eq, Bool, true, not, ◌&&◌, ◌==◌, leb, Option, none, some, List, [], ◌∷◌, if◌then◌else◌,
}
use jarvis_skill_registry.Prelude.Tables.{any, rows_where, unique_by}
use jarvis_skill_registry.Core.Enums.{VersionStatus, version_status_eq}
use jarvis_skill_registry.Core.Errors.{Constraint}
use jarvis_skill_registry.Models.{Organization, User, Skill, SkillVersion, ToolGrant, AuditLog}

pub record Db : Type 0 where
  pub organizations : List Organization
  pub users : List User
  pub skills : List Skill
  pub skill_versions : List SkillVersion
  pub tool_grants : List ToolGrant
  pub audit_log : List AuditLog

abbrev pub empty_db : Db
empty_db = record {
  organizations = [];
  users = [];
  skills = [];
  skill_versions = [];
  tool_grants = [];
  audit_log = [];
}

abbrev pub same_skill_name : Skill → Skill → Bool
same_skill_name a b = a.organization_id == b.organization_id && text_eq a.name b.name

abbrev pub same_version_number : SkillVersion → SkillVersion → Bool
same_version_number a b = a.skill_id == b.skill_id && a.version_number == b.version_number

abbrev pub is_active : SkillVersion → Bool
is_active v = version_status_eq v.status VersionStatus.active

abbrev pub same_grant : ToolGrant → ToolGrant → Bool
same_grant a b = a.skill_version_id == b.skill_version_id && text_eq a.tool_name b.tool_name

unfoldable pub all_rows {ℓ} : {A : Type ℓ} → (A → Bool) → List A → Bool
all_rows p [] = true
all_rows p (x ∷ xs) = p x && all_rows p xs

unfoldable pub organizations_violation : List Organization → Option Constraint
unfolding unique_by text_eq
organizations_violation rows =
    if not (unique_by (λ a b. a.id == b.id) rows)
    then some Constraint.pk_organizations
    else if not (unique_by (λ a b. text_eq a.slug b.slug) rows)
    then some Constraint.uq_organizations_slug
    else none

unfoldable pub users_violation : List Organization → List User → Option Constraint
unfolding unique_by text_eq all_rows any
users_violation organizations rows =
    if not (unique_by (λ a b. a.id == b.id) rows)
    then some Constraint.pk_users
    else if not (all_rows (λ u. any (λ o. o.id == u.organization_id) organizations) rows)
    then some Constraint.fk_users_organization_id_organizations
    else if not (unique_by (λ a b. text_eq a.email b.email) rows)
    then some Constraint.uq_users_email
    else none

unfoldable pub skills_violation : List Skill → Option Constraint
unfolding unique_by
skills_violation rows =
    if not (unique_by (λ a b. a.id == b.id) rows)
    then some Constraint.pk_skills
    else if not (unique_by same_skill_name rows)
    then some Constraint.uq_skills_organization_id_name
    else none

unfoldable pub versions_violation : List Skill → List SkillVersion → Option Constraint
unfolding unique_by all_rows any rows_where
versions_violation skills rows =
    if not (unique_by (λ a b. a.id == b.id) rows)
    then some Constraint.pk_skill_versions
    else if not (all_rows (λ v. any (λ s. s.id == v.skill_id) skills) rows)
    then some Constraint.fk_skill_versions_skill_id_skills
    else if not (unique_by same_version_number rows)
    then some Constraint.uq_skill_versions_skill_id_version_number
    else if not (all_rows (λ v. leb 1 v.version_number) rows)
    then some Constraint.ck_skill_versions_version_number_positive
    else if not (unique_by (λ a b. a.skill_id == b.skill_id) (rows_where is_active rows))
    then some Constraint.uq_skill_versions_one_active_per_skill
    else none

unfoldable pub grants_violation : List SkillVersion → List ToolGrant → Option Constraint
unfolding unique_by all_rows any
grants_violation versions rows =
    if not (unique_by (λ a b. a.id == b.id) rows)
    then some Constraint.pk_tool_grants
    else if not (all_rows (λ g. any (λ v. v.id == g.skill_version_id) versions) rows)
    then some Constraint.fk_tool_grants_skill_version_id_skill_versions
    else if not (unique_by same_grant rows)
    then some Constraint.uq_tool_grants_skill_version_id_tool_name
    else none

unfoldable pub audit_violation : List AuditLog → Option Constraint
unfolding unique_by
audit_violation rows =
    if not (unique_by (λ a b. a.id == b.id) rows) then some Constraint.pk_audit_log else none
