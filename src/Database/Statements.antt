-- ===== src/Database/Statements.antt =====
-- alembic 0001 to 0003, for a client that sends SQL of its own: what one statement does to the
-- tables, or what refuses it. Privileges come first; row triggers see each row that the statement or a
-- cascade of it reaches; foreign keys are followed or checked; the keys are checked on the tables as
-- they would stand. DDL, by which an owner could drop a trigger, is not among the statements.
use jarvis_skill_registry.Prelude.{
  Bool, true, false, not, ◌&&◌, ◌==◌, Option, none, some, is_some, if◌then◌else◌,
}
use jarvis_skill_registry.Prelude.Tables.{any}
use jarvis_skill_registry.Models.{
  Uuid, Organization, User, Skill, SkillVersion, ToolGrant, AuditLog,
}
use jarvis_skill_registry.Database.Constraints.{
  Db, all_rows, organizations_violation, users_violation, skills_violation, versions_violation,
  grants_violation, audit_violation,
}

-- The role that the application connects as, and the owner of the schema.
pub data Role : Type 0 where
  application schema_owner : Role

pub data Table : Type 0 where
  organizations users skills skill_versions tool_grants audit_log : Table

pub data Privilege : Type 0 where
  select insert update delete truncate : Privilege

-- The GRANT and the REVOKE of 0002. TRUNCATE is never granted.
abbrev pub granted_to_application : Table → Privilege → Bool
granted_to_application Table.audit_log Privilege.select = true
granted_to_application Table.audit_log Privilege.insert = true
granted_to_application Table.audit_log _ = false
granted_to_application _ Privilege.truncate = false
granted_to_application _ _ = true

abbrev pub has_privilege : Role → Table → Privilege → Bool
has_privilege Role.application table privilege = granted_to_application table privilege
has_privilege Role.schema_owner table privilege = true

pub data Refusal : Type 0 where
  privilege append_only active_immutable restricted referenced constraint : Refusal

pub data Outcome : Type 0 where
  accepted : Db → Outcome
  refused : Refusal → Outcome

abbrev pub followed_by : Outcome → (Db → Outcome) → Outcome
followed_by (Outcome.accepted db) next = next db
followed_by (Outcome.refused r) next = Outcome.refused r

-- A WHERE clause is a test of a row, a SET clause a function of it.
pub data Statement : Type 0 where
  insert_organization : Organization → Statement
  insert_user : User → Statement
  insert_skill : Skill → Statement
  insert_version : SkillVersion → Statement
  insert_grant : ToolGrant → Statement
  insert_audit : AuditLog → Statement
  update_organizations : (Organization → Bool) → (Organization → Organization) → Statement
  update_users : (User → Bool) → (User → User) → Statement
  update_skills : (Skill → Bool) → (Skill → Skill) → Statement
  update_versions : (SkillVersion → Bool) → (SkillVersion → SkillVersion) → Statement
  update_grants : (ToolGrant → Bool) → (ToolGrant → ToolGrant) → Statement
  update_audit : (AuditLog → Bool) → (AuditLog → AuditLog) → Statement
  delete_organization : Uuid → Statement
  delete_users : (User → Bool) → Statement
  delete_skills : (Skill → Bool) → Statement
  delete_versions : (SkillVersion → Bool) → Statement
  delete_grants : (ToolGrant → Bool) → Statement
  delete_audit : (AuditLog → Bool) → Statement
  truncate : Table → Statement
  truncate_cascade : Table → Statement

abbrev pub refers_to : Option Uuid → Uuid → Bool
refers_to none id = false
refers_to (some k) id = k == id

-- The foreign keys of 0001, each column's value among the ids that it refers to; NULL refers to
-- nothing.
abbrev pub is_stored : (Uuid → Bool) → Option Uuid → Bool
is_stored stored none = true
is_stored stored (some k) = stored k

module _ (db : Db) where
  unfoldable pub has_organization : Uuid → Bool
  unfolding any
  has_organization k = any (λ o. o.id == k) db.organizations

  unfoldable pub has_user : Uuid → Bool
  unfolding any
  has_user k = any (λ u. u.id == k) db.users

  unfoldable pub has_skill : Uuid → Bool
  unfolding any
  has_skill k = any (λ s. s.id == k) db.skills

  unfoldable pub has_version : Uuid → Bool
  unfolding any
  has_version k = any (λ v. v.id == k) db.skill_versions

  unfoldable pub skill_parents : Skill → Bool
  unfolding has_organization has_user
  skill_parents s = has_organization s.organization_id && has_user s.created_by

  unfoldable pub version_parents : SkillVersion → Bool
  unfolding has_organization has_user has_skill
  version_parents v =
      has_skill v.skill_id
      && (has_organization v.organization_id
          && (has_user v.created_by
              && (is_stored has_user v.reviewed_by && is_stored has_user v.activated_by)))

  unfoldable pub grant_parents : ToolGrant → Bool
  unfolding has_organization has_user has_version
  grant_parents g =
      has_organization g.organization_id
      && (has_version g.skill_version_id && is_stored has_user g.granted_by)

  unfoldable pub audit_parents : AuditLog → Bool
  unfolding has_organization has_user has_skill has_version
  audit_parents a =
      has_organization a.organization_id
      && (has_user a.actor_user_id
          && (is_stored has_skill a.skill_id && is_stored has_version a.skill_version_id))

  unfoldable pub references_stored : Bool
  unfolding all_rows skill_parents version_parents grant_parents audit_parents
  references_stored =
      all_rows skill_parents db.skills
      && (all_rows version_parents db.skill_versions
          && (all_rows grant_parents db.tool_grants && all_rows audit_parents db.audit_log))

  -- The primary keys, unique constraints, checks and foreign keys.
  unfoldable pub constraints_hold : Bool
  unfolding is_some organizations_violation users_violation skills_violation versions_violation
      grants_violation audit_violation references_stored
  constraints_hold =
      not (is_some (organizations_violation db.organizations))
      && (not (is_some (users_violation db.organizations db.users))
          && (not (is_some (skills_violation db.skills))
              && (not (is_some (versions_violation db.skills db.skill_versions))
                  && (not (is_some (grants_violation db.skill_versions db.tool_grants))
                      && (not (is_some (audit_violation db.audit_log)) && references_stored)))))

  unfoldable pub checked_statement : Outcome
  unfolding constraints_hold
  checked_statement =
      if constraints_hold then Outcome.accepted db else Outcome.refused Refusal.constraint
