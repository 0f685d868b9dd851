-- ===== src/Database/Write.antt =====
-- One INSERT or UPDATE of a flush: the mapper guard first, then the row trigger, then the
-- constraints of the table as it would stand.
use jarvis_skill_registry.Prelude.{
  Bool, not, ◌&&◌, ◌==◌, Option, none, some, List, [], ◌∷◌, ◌++◌, if◌then◌else◌,
}
use jarvis_skill_registry.Prelude.Tables.{any, update_where}
use jarvis_skill_registry.Core.Errors.{Result, ok, err, Exception, Constraint}
use jarvis_skill_registry.Models.{
  Uuid, Organization, User, Skill, SkillVersion, ToolGrant, AuditLog, SkillSet, VersionSet,
  GrantSet, assign_skill, assign_version, assign_grant, assign_all,
}
use jarvis_skill_registry.Models.Guard.{guard_active_version_immutability}
use jarvis_skill_registry.Database.Trigger.{trigger_accepts}
use jarvis_skill_registry.Database.Constraints.{
  Db, organizations_violation, users_violation, skills_violation, versions_violation,
  grants_violation, audit_violation,
}

-- A new row that the session holds, or a loaded row with the assignments made to it. No code
-- updates or deletes an audit row.
pub data Write : Type 0 where
  insert_organization : Organization → Write
  insert_user : User → Write
  insert_skill : Skill → Write
  insert_version : SkillVersion → Write
  insert_grant : ToolGrant → Write
  insert_audit : AuditLog → Write
  update_skill : Skill → List SkillSet → Write
  update_version : SkillVersion → List VersionSet → Write
  update_grant : ToolGrant → List GrantSet → Write

abbrev pub checked : Option Constraint → Db → Result Db
checked none db = ok db
checked (some c) db = err (Exception.integrity c)

abbrev pub set_version : Uuid → List VersionSet → List SkillVersion → List SkillVersion
set_version id sets = update_where (λ v. v.id == id) (assign_all assign_version sets)

abbrev pub set_skill : Uuid → List SkillSet → List Skill → List Skill
set_skill id sets = update_where (λ s. s.id == id) (assign_all assign_skill sets)

abbrev pub set_grant : Uuid → List GrantSet → List ToolGrant → List ToolGrant
set_grant id sets = update_where (λ g. g.id == id) (assign_all assign_grant sets)

-- The trigger refuses a row that the UPDATE would change.
unfoldable pub trigger_refuses : Uuid → List VersionSet → List SkillVersion → Bool
unfolding any trigger_accepts
trigger_refuses id sets =
    any (λ v. v.id == id && not (trigger_accepts v (assign_all assign_version sets v)))

unfoldable pub apply_write : Write → Db → Result Db
unfolding any trigger_refuses
apply_write (Write.insert_organization r) db =
    let rows = db.organizations ++ r ∷ [] in
    checked (organizations_violation rows) (record db { organizations = rows })
apply_write (Write.insert_user r) db =
    let rows = db.users ++ r ∷ [] in
    checked (users_violation db.organizations rows) (record db { users = rows })
apply_write (Write.insert_skill r) db =
    let rows = db.skills ++ r ∷ [] in checked (skills_violation rows) (record db { skills = rows })
apply_write (Write.insert_version r) db =
    let rows = db.skill_versions ++ r ∷ [] in
    checked (versions_violation db.skills rows) (record db { skill_versions = rows })
apply_write (Write.insert_grant r) db =
    let rows = db.tool_grants ++ r ∷ [] in
    checked (grants_violation db.skill_versions rows) (record db { tool_grants = rows })
apply_write (Write.insert_audit r) db =
    let rows = db.audit_log ++ r ∷ [] in
    checked (audit_violation rows) (record db { audit_log = rows })
apply_write (Write.update_skill loaded sets) db =
    let rows = set_skill loaded.id sets db.skills in
    if any (λ s. s.id == loaded.id) db.skills
    then checked (skills_violation rows) (record db { skills = rows })
    else err Exception.stale_data
apply_write (Write.update_version loaded sets) db =
    let rows = set_version loaded.id sets db.skill_versions in
    if not (guard_active_version_immutability loaded (assign_all assign_version sets loaded))
    then err Exception.immutable_version
    else if trigger_refuses loaded.id sets db.skill_versions
    then err (Exception.integrity Constraint.trg_skill_versions_immutable_active)
    else if any (λ v. v.id == loaded.id) db.skill_versions
    then checked (versions_violation db.skills rows) (record db { skill_versions = rows })
    else err Exception.stale_data
apply_write (Write.update_grant loaded sets) db =
    let rows = set_grant loaded.id sets db.tool_grants in
    if any (λ g. g.id == loaded.id) db.tool_grants
    then checked (grants_violation db.skill_versions rows) (record db { tool_grants = rows })
    else err Exception.stale_data

-- The writes of one flush, in order; the first failure ends it.
unfoldable pub apply_writes : List Write → Db → Result Db
unfolding apply_write
apply_writes [] db = ok db
apply_writes (w ∷ ws) db = elim (apply_write w db) [ ok db' ↦ apply_writes ws db' | err e ↦ err e ]
