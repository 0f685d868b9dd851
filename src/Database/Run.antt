-- ===== src/Database/Run.antt =====
-- alembic 0001 to 0003: the statements of Database/Statements carried out.
use jarvis_skill_registry.Prelude.{
  Bool, false, not, ◌&&◌, ◌||◌, ◌==◌, Option, none, some, List, [], ◌∷◌, ◌++◌, if◌then◌else◌,
}
use jarvis_skill_registry.Prelude.Tables.{any, rows_where, update_where}
use jarvis_skill_registry.Models.{Uuid, User, Skill, SkillVersion, ToolGrant, AuditLog}
use jarvis_skill_registry.Database.Trigger.{trigger_accepts}
use jarvis_skill_registry.Database.Constraints.{Db}
use jarvis_skill_registry.Database.Statements.{
  Role, Table, Privilege, has_privilege, Refusal, Outcome, followed_by, Statement,
  checked_statement,
}

-- `audit_log_forbid_mutation`, fired for each row that an UPDATE or a DELETE reaches.
unfoldable pub audit_log_forbid_mutation : (AuditLog → Bool) → Db → Outcome
unfolding any
audit_log_forbid_mutation reached db =
    if any reached db.audit_log then Outcome.refused Refusal.append_only else Outcome.accepted db

-- `skill_versions_forbid_active_mutation`, fired for each row that an UPDATE reaches.
unfoldable pub skill_versions_forbid_active_mutation :
    (SkillVersion → Bool) → (SkillVersion → SkillVersion) → Db → Outcome
unfolding any trigger_accepts update_where
skill_versions_forbid_active_mutation reached set db =
    if any (λ v. reached v && not (trigger_accepts v (set v))) db.skill_versions
    then Outcome.refused Refusal.active_immutable
    else Outcome.accepted
        (record db { skill_versions = update_where reached set db.skill_versions })

-- The id of a row that a DELETE has reached.
unfoldable pub is_gone : {A : Type 0} → (A → Bool) → (A → Uuid) → List A → Uuid → Bool
unfolding any
is_gone reached id rows k = any (λ x. reached x && id x == k) rows

abbrev pub names : (Uuid → Bool) → Option Uuid → Bool
names gone none = false
names gone (some k) = gone k

unfoldable pub update_audit : (AuditLog → Bool) → (AuditLog → AuditLog) → Db → Outcome
unfolding update_where audit_log_forbid_mutation
update_audit reached set db =
    followed_by (audit_log_forbid_mutation reached db)
      (λ d. Outcome.accepted (record d { audit_log = update_where reached set d.audit_log }))

unfoldable pub delete_audit : (AuditLog → Bool) → Db → Outcome
unfolding rows_where audit_log_forbid_mutation
delete_audit reached db =
    followed_by (audit_log_forbid_mutation reached db) (λ d.
      Outcome.accepted (record d { audit_log = rows_where (λ a. not (reached a)) d.audit_log }))

-- A DELETE and what cascades from it, ON DELETE CASCADE of 0001. The cascades run with the rights of
-- the tables' owner, so that the privileges of the client do not stop them.
unfoldable pub delete_grants : (ToolGrant → Bool) → Db → Outcome
unfolding rows_where
delete_grants reached db =
    Outcome.accepted (record db { tool_grants = rows_where (λ g. not (reached g)) db.tool_grants })

unfoldable pub delete_versions : (SkillVersion → Bool) → Db → Outcome
unfolding rows_where is_gone delete_grants delete_audit
delete_versions reached db =
    let gone = is_gone reached (λ v. v.id) db.skill_versions in
    followed_by
      (delete_grants (λ g. gone g.skill_version_id)
        (record db { skill_versions = rows_where (λ v. not (reached v)) db.skill_versions }))
      (delete_audit (λ a. names gone a.skill_version_id))

unfoldable pub delete_skills : (Skill → Bool) → Db → Outcome
unfolding rows_where is_gone delete_versions delete_audit
delete_skills reached db =
    let gone = is_gone reached (λ s. s.id) db.skills in
    followed_by
      (delete_versions (λ v. gone v.skill_id)
        (record db { skills = rows_where (λ s. not (reached s)) db.skills }))
      (delete_audit (λ a. names gone a.skill_id))

-- ON DELETE RESTRICT: a user to whom a row refers stays.
unfoldable pub delete_users : (User → Bool) → Db → Outcome
unfolding rows_where any is_gone
delete_users reached db =
    let gone = is_gone reached (λ u. u.id) db.users in
    if any (λ s. gone s.created_by) db.skills
      || (any (λ v. gone v.created_by || (names gone v.reviewed_by || names gone v.activated_by))
            db.skill_versions
          || (any (λ g. names gone g.granted_by) db.tool_grants
              || any (λ a. gone a.actor_user_id) db.audit_log))
    then Outcome.refused Refusal.restricted
    else Outcome.accepted (record db { users = rows_where (λ u. not (reached u)) db.users })

-- The cascades of one organization, in the order in which 0001 creates the foreign keys.
unfoldable pub delete_organization : Uuid → Db → Outcome
unfolding rows_where delete_users delete_skills delete_versions delete_grants delete_audit
delete_organization k db =
    followed_by
      (followed_by
        (followed_by
          (followed_by
            (delete_users (λ u. u.organization_id == k)
              (record db { organizations = rows_where (λ o. not (o.id == k)) db.organizations }))
            (delete_skills (λ s. s.organization_id == k)))
          (delete_versions (λ v. v.organization_id == k)))
        (delete_grants (λ g. g.organization_id == k)))
      (delete_audit (λ a. a.organization_id == k))

-- `trg_audit_log_no_truncate` of 0003 fires once for the statement, rows or none. A table to which a
-- foreign key refers is truncated with CASCADE alone, which reaches the audit log from each of them.
abbrev pub truncate : Table → Db → Outcome
truncate Table.tool_grants db = Outcome.accepted (record db { tool_grants = [] })
truncate Table.audit_log db = Outcome.refused Refusal.append_only
truncate _ db = Outcome.refused Refusal.referenced

abbrev pub truncate_cascade : Table → Db → Outcome
truncate_cascade Table.tool_grants db = Outcome.accepted (record db { tool_grants = [] })
truncate_cascade _ db = Outcome.refused Refusal.append_only

abbrev pub target : Statement → Table × Privilege
target (Statement.insert_organization r) = (Table.organizations, Privilege.insert)
target (Statement.insert_user r) = (Table.users, Privilege.insert)
target (Statement.insert_skill r) = (Table.skills, Privilege.insert)
target (Statement.insert_version r) = (Table.skill_versions, Privilege.insert)
target (Statement.insert_grant r) = (Table.tool_grants, Privilege.insert)
target (Statement.insert_audit r) = (Table.audit_log, Privilege.insert)
target (Statement.update_organizations p f) = (Table.organizations, Privilege.update)
target (Statement.update_users p f) = (Table.users, Privilege.update)
target (Statement.update_skills p f) = (Table.skills, Privilege.update)
target (Statement.update_versions p f) = (Table.skill_versions, Privilege.update)
target (Statement.update_grants p f) = (Table.tool_grants, Privilege.update)
target (Statement.update_audit p f) = (Table.audit_log, Privilege.update)
target (Statement.delete_organization k) = (Table.organizations, Privilege.delete)
target (Statement.delete_users p) = (Table.users, Privilege.delete)
target (Statement.delete_skills p) = (Table.skills, Privilege.delete)
target (Statement.delete_versions p) = (Table.skill_versions, Privilege.delete)
target (Statement.delete_grants p) = (Table.tool_grants, Privilege.delete)
target (Statement.delete_audit p) = (Table.audit_log, Privilege.delete)
target (Statement.truncate t) = (t, Privilege.truncate)
target (Statement.truncate_cascade t) = (t, Privilege.truncate)

unfoldable pub effect : Statement → Db → Outcome
unfolding update_where delete_organization delete_users delete_skills delete_versions delete_grants
    update_audit delete_audit skill_versions_forbid_active_mutation
effect (Statement.insert_organization r) db =
    Outcome.accepted (record db { organizations = db.organizations ++ r ∷ [] })
effect (Statement.insert_user r) db = Outcome.accepted (record db { users = db.users ++ r ∷ [] })
effect (Statement.insert_skill r) db = Outcome.accepted (record db { skills = db.skills ++ r ∷ [] })
effect (Statement.insert_version r) db =
    Outcome.accepted (record db { skill_versions = db.skill_versions ++ r ∷ [] })
effect (Statement.insert_grant r) db =
    Outcome.accepted (record db { tool_grants = db.tool_grants ++ r ∷ [] })
effect (Statement.insert_audit r) db =
    Outcome.accepted (record db { audit_log = db.audit_log ++ r ∷ [] })
effect (Statement.update_organizations p f) db =
    Outcome.accepted (record db { organizations = update_where p f db.organizations })
effect (Statement.update_users p f) db =
    Outcome.accepted (record db { users = update_where p f db.users })
effect (Statement.update_skills p f) db =
    Outcome.accepted (record db { skills = update_where p f db.skills })
effect (Statement.update_versions p f) db = skill_versions_forbid_active_mutation p f db
effect (Statement.update_grants p f) db =
    Outcome.accepted (record db { tool_grants = update_where p f db.tool_grants })
effect (Statement.update_audit p f) db = update_audit p f db
effect (Statement.delete_organization k) db = delete_organization k db
effect (Statement.delete_users p) db = delete_users p db
effect (Statement.delete_skills p) db = delete_skills p db
effect (Statement.delete_versions p) db = delete_versions p db
effect (Statement.delete_grants p) db = delete_grants p db
effect (Statement.delete_audit p) db = delete_audit p db
effect (Statement.truncate t) db = truncate t db
effect (Statement.truncate_cascade t) db = truncate_cascade t db

-- One statement of a client that is connected as a role.
unfoldable pub run : Role → Statement → Db → Outcome
unfolding effect checked_statement
run role statement db =
    let (table, privilege) = target statement in
    if has_privilege role table privilege
    then followed_by (effect statement db) checked_statement
    else Outcome.refused Refusal.privilege

-- A statement that is refused leaves the tables as they were.
abbrev pub kept : Db → Outcome → Db
kept db (Outcome.accepted db') = db'
kept db (Outcome.refused r) = db

unfoldable pub run_all : List (Role × Statement) → Db → Db
unfolding run
run_all [] db = db
run_all ((role, statement) ∷ rest) db = run_all rest (kept db (run role statement db))
