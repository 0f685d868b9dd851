-- ===== src/Database/TamperProof.antt =====
-- What no client can do by statements of its own, whatever its role: alembic 0002 and 0003.
use jarvis_skill_registry.Prelude.{
  ◌≡◌, refl, sym, ap, ◌∙◌, subst, inl, inr, Bool, false, not, ◌&&◌, Bool-cases, some, List, [], ◌∷◌,
  ◌++◌, arith, if◌then◌else◌,
}
use mathlib.Core.List.{append_assoc, append-nil}
use jarvis_skill_registry.Prelude.Tables.{any, update_where, Row, any-false-Row}
use jarvis_skill_registry.Prelude.Members.{append-left}
use jarvis_skill_registry.Core.Enums.{VersionStatus}
use jarvis_skill_registry.Models.{SkillVersion, AuditLog}
use jarvis_skill_registry.Database.Trigger.{trigger_accepts}
use jarvis_skill_registry.Database.Constraints.{Db}
use jarvis_skill_registry.Database.Layers.{IsFrozen, trigger-IsFrozen}
use jarvis_skill_registry.Database.Statements.{
  Role, Table, has_privilege, Outcome, followed_by, Statement, checked_statement, constraints_hold,
}
use jarvis_skill_registry.Database.Run.{
  skill_versions_forbid_active_mutation, truncate, truncate_cascade, effect, run, run_all, kept,
  target,
}
use jarvis_skill_registry.Database.AppendOnly.{
  IsGuarded, same, IsGuarded-refl, deleted-Guarded, updated-Guarded, grants-Guarded,
  versions-Guarded, skills-Guarded, users-Guarded, organization-Guarded,
}

-- What any statement leaves: the log with new entries at most, and each active version that an entry
-- names with its content and its owner.
pub record IsTamperProof (db db' : Db) : Type 0 where
  pub log : (tail : List AuditLog) × (db'.audit_log ≡ db.audit_log ++ tail)
  pub active :
      (v : SkillVersion) (a : AuditLog)
      → Row v db.skill_versions
      → Row a db.audit_log
      → a.skill_version_id ≡ some v.id
      → v.status ≡ VersionStatus.active
      → (v' : SkillVersion) × Row v' db'.skill_versions × IsFrozen v v'

IsFrozen-refl : (v : SkillVersion) → v.status ≡ VersionStatus.active → IsFrozen v v
IsFrozen-refl v active = record {
  columns = record {
    prompt_body = refl;
    requested_tools = refl;
    content_hash = refl;
    version_number = refl;
  };
  organization_id = refl;
  skill_id = refl;
  status = inl active;
}

guarded-IsTamperProof : (db db' : Db) → IsGuarded db db' → IsTamperProof db db'
guarded-IsTamperProof db db' g = record {
  log = ([], g.log ∙ sym (append-nil db.audit_log));
  active = λ v a row at e active. (v, g.named v a row at e, IsFrozen-refl v active);
}

update_where-Row :
    {A : Type 0} (p : A → Bool) (f : A → A) (x : A) (l : List A)
    → Row x l
    → Row (if p x then f x else x) (update_where p f l)
unfolding update_where
update_where-Row p f x [] row = absurd row
update_where-Row p f x (y ∷ l) (inl e) = inl (ap (λ z. if p z then f z else z) e)
update_where-Row p f x (y ∷ l) (inr row) = inr (update_where-Row p f x l row)

accepted_row :
    (p : SkillVersion → Bool) (f : SkillVersion → SkillVersion) (v : SkillVersion)
    → p v && not (trigger_accepts v (f v)) ≡ false
    → v.status ≡ VersionStatus.active
    → IsFrozen v (if p v then f v else v)
accepted_row p f v quiet active = elim (Bool-cases (p v)) [
  | inl reached ↦ rw reached (trigger-IsFrozen v (f v) active (ground arith))
  | inr passed_over ↦ rw passed_over (IsFrozen-refl v active)
]

updated-IsTamperProof :
    (p : SkillVersion → Bool) (f : SkillVersion → SkillVersion) (db db' : Db)
    → skill_versions_forbid_active_mutation p f db ≡ Outcome.accepted db'
    → IsTamperProof db db'
unfolding skill_versions_forbid_active_mutation
updated-IsTamperProof p f db db' e =
    let fires = λ (v : SkillVersion). p v && not (trigger_accepts v (f v)) in
    elim (Bool-cases (any fires db.skill_versions)) [
      | inl some_row ↦ absurd (cc (rw some_row at e))
      | inr no_row ↦
          (let same_db = same _ db' (rw no_row at e) in
            subst (IsTamperProof db) (sym same_db) (record {
              log = ([], sym (append-nil db.audit_log));
              active = λ v a row at named active. (
                if p v then f v else v,
                update_where-Row p f v db.skill_versions row,
                accepted_row p f v (any-false-Row fires v db.skill_versions no_row row) active,
              );
            }))
    ]

-- A statement about another table.
unmoved :
    (db db' : Db) {d : Db}
    → Outcome.accepted d ≡ Outcome.accepted db'
    → d.audit_log ≡ db.audit_log
    → d.skill_versions ≡ db.skill_versions
    → IsTamperProof db db'
unmoved db db' e log rows = guarded-IsTamperProof db db' (
    IsGuarded-refl db db' (ap (λ d. d.audit_log) (same _ db' e) ∙ log)
      (ap (λ d. d.skill_versions) (same _ db' e) ∙ rows))

truncated : (t : Table) (db db' : Db) → truncate t db ≡ Outcome.accepted db' → IsTamperProof db db'
truncated Table.organizations db db' e = absurd (cc e)
truncated Table.users db db' e = absurd (cc e)
truncated Table.skills db db' e = absurd (cc e)
truncated Table.skill_versions db db' e = absurd (cc e)
truncated Table.tool_grants db db' e = unmoved db db' e refl refl
truncated Table.audit_log db db' e = absurd (cc e)

truncated_cascade :
    (t : Table) (db db' : Db) → truncate_cascade t db ≡ Outcome.accepted db' → IsTamperProof db db'
truncated_cascade Table.organizations db db' e = absurd (cc e)
truncated_cascade Table.users db db' e = absurd (cc e)
truncated_cascade Table.skills db db' e = absurd (cc e)
truncated_cascade Table.skill_versions db db' e = absurd (cc e)
truncated_cascade Table.tool_grants db db' e = unmoved db db' e refl refl
truncated_cascade Table.audit_log db db' e = absurd (cc e)

effect-IsTamperProof :
    (statement : Statement) (db db' : Db)
    → effect statement db ≡ Outcome.accepted db'
    → IsTamperProof db db'
unfolding effect
effect-IsTamperProof (Statement.insert_organization r) db db' e = unmoved db db' e refl refl
effect-IsTamperProof (Statement.insert_user r) db db' e = unmoved db db' e refl refl
effect-IsTamperProof (Statement.insert_skill r) db db' e = unmoved db db' e refl refl
effect-IsTamperProof (Statement.insert_version r) db db' e =
    subst (IsTamperProof db) (sym (same _ db' e)) (record {
      log = ([], sym (append-nil db.audit_log));
      active = λ v a row at named active.
          (v, append-left v db.skill_versions (r ∷ []) row, IsFrozen-refl v active);
    })
effect-IsTamperProof (Statement.insert_grant r) db db' e = unmoved db db' e refl refl
effect-IsTamperProof (Statement.insert_audit r) db db' e =
    subst (IsTamperProof db) (sym (same _ db' e)) (record {
      log = (r ∷ [], refl);
      active = λ v a row at named active. (v, row, IsFrozen-refl v active);
    })
effect-IsTamperProof (Statement.update_organizations p f) db db' e = unmoved db db' e refl refl
effect-IsTamperProof (Statement.update_users p f) db db' e = unmoved db db' e refl refl
effect-IsTamperProof (Statement.update_skills p f) db db' e = unmoved db db' e refl refl
effect-IsTamperProof (Statement.update_versions p f) db db' e = updated-IsTamperProof p f db db' e
effect-IsTamperProof (Statement.update_grants p f) db db' e = unmoved db db' e refl refl
effect-IsTamperProof (Statement.update_audit p f) db db' e =
    guarded-IsTamperProof db db' (updated-Guarded p f db db' e)
effect-IsTamperProof (Statement.delete_organization k) db db' e =
    guarded-IsTamperProof db db' (organization-Guarded k db db' e)
effect-IsTamperProof (Statement.delete_users p) db db' e =
    guarded-IsTamperProof db db' (users-Guarded p db db' e)
effect-IsTamperProof (Statement.delete_skills p) db db' e =
    guarded-IsTamperProof db db' (skills-Guarded p db db' e)
effect-IsTamperProof (Statement.delete_versions p) db db' e =
    guarded-IsTamperProof db db' (versions-Guarded p db db' e)
effect-IsTamperProof (Statement.delete_grants p) db db' e =
    guarded-IsTamperProof db db' (grants-Guarded p db db' e)
effect-IsTamperProof (Statement.delete_audit p) db db' e =
    guarded-IsTamperProof db db' (deleted-Guarded p db db' e)
effect-IsTamperProof (Statement.truncate t) db db' e = truncated t db db' e
effect-IsTamperProof (Statement.truncate_cascade t) db db' e = truncated_cascade t db db' e

checked_statement-accepted : (db db' : Db) → checked_statement db ≡ Outcome.accepted db' → db' ≡ db
unfolding checked_statement
checked_statement-accepted db db' e = elim (Bool-cases (constraints_hold db)) [
  | inl holds ↦ same db db' (rw holds at e)
  | inr fails ↦ absurd (cc (rw fails at e))
]

followed-IsTamperProof :
    (db : Db) (o : Outcome) (db' : Db)
    → ((d : Db) → o ≡ Outcome.accepted d → IsTamperProof db d)
    → followed_by o checked_statement ≡ Outcome.accepted db'
    → IsTamperProof db db'
followed-IsTamperProof db (Outcome.accepted d) db' tamper_proof e =
    subst (IsTamperProof db) (sym (checked_statement-accepted d db' e)) (tamper_proof d refl)
followed-IsTamperProof db (Outcome.refused r) db' tamper_proof e = absurd (cc e)

-- A statement of any role that the database accepts - with any conditions, assignments and cascades
-- - leaves the audit log as it was with new entries at most, and of every active version that an entry
-- names it leaves a row with its content, its number and its owner, whose status is active,
-- superseded or disabled.
pub run-IsTamperProof :
    (role : Role) (statement : Statement) (db db' : Db)
    → run role statement db ≡ Outcome.accepted db'
    → IsTamperProof db db'
unfolding run
run-IsTamperProof role statement db db' e =
    elim (Bool-cases (has_privilege role (target statement).0 (target statement).1)) [
      | inl may ↦
          followed-IsTamperProof db (effect statement db) db'
            (λ d. effect-IsTamperProof statement db d) (rw may at e)
      | inr may_not ↦ absurd (cc (rw may_not at e))
    ]

kept-log :
    (role : Role) (statement : Statement) (db : Db) (o : Outcome)
    → run role statement db ≡ o
    → (tail : List AuditLog) × ((kept db o).audit_log ≡ db.audit_log ++ tail)
kept-log role statement db (Outcome.accepted db') e =
    (run-IsTamperProof role statement db db' e).log
kept-log role statement db (Outcome.refused r) e = ([], sym (append-nil db.audit_log))

-- After any sequence of statements of any roles, refused ones among them, the audit log is what it was
-- followed by new entries: no UPDATE, DELETE, cascade or TRUNCATE changes, removes or reorders one.
pub run_all-Grows :
    (statements : List (Role × Statement)) (db : Db)
    → (tail : List AuditLog) × ((run_all statements db).audit_log ≡ db.audit_log ++ tail)
unfolding run_all
run_all-Grows [] db = ([], sym (append-nil db.audit_log))
run_all-Grows ((role, statement) ∷ rest) db =
    let (first, here) = kept-log role statement db (run role statement db) refl in
    let (later, there) = run_all-Grows rest (kept db (run role statement db)) in
    (first ++ later, there ∙ (ap (λ l. l ++ later) here ∙ append_assoc db.audit_log first later))
