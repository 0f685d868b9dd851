-- ===== src/Database/AppendOnly.antt =====
-- A DELETE and its cascades, alembic 0001, where the trigger of 0002 is on the audit log.
use jarvis_skill_registry.Prelude.{
  ◌≡◌, refl, sym, ap, ◌∙◌, subst, inl, inr, Bool, true, false, not, ◌&&◌, ◌==◌, ==_refl, Bool-cases,
  some, List, arith, if◌then◌else◌,
}
use jarvis_skill_registry.Prelude.Tables.{
  any, rows_where, update_where, Row, any-false-Row, rows_where-Row,
}
use jarvis_skill_registry.Models.{Uuid, User, Skill, SkillVersion, ToolGrant, AuditLog}
use jarvis_skill_registry.Database.Constraints.{Db}
use jarvis_skill_registry.Database.Updates.{update_where-none, rows_where-none}
use jarvis_skill_registry.Database.Statements.{Refusal, Outcome, followed_by}
use jarvis_skill_registry.Database.Run.{
  audit_log_forbid_mutation, update_audit, delete_audit, is_gone, names, delete_grants,
  delete_versions, delete_skills, delete_users, delete_organization,
}

-- A DELETE with its cascades keeps the log, and with it every version that an entry names.
pub record IsGuarded (db db' : Db) : Type 0 where
  pub log : db'.audit_log ≡ db.audit_log
  pub named :
      (v : SkillVersion) (a : AuditLog)
      → Row v db.skill_versions
      → Row a db.audit_log
      → a.skill_version_id ≡ some v.id
      → Row v db'.skill_versions

-- Whatever the outcome leaves, it leaves so.
abbrev Guarded : Db → Outcome → Type 0
Guarded db o = (db' : Db) → o ≡ Outcome.accepted db' → IsGuarded db db'

pub IsGuarded-refl :
    (db db' : Db)
    → db'.audit_log ≡ db.audit_log
    → db'.skill_versions ≡ db.skill_versions
    → IsGuarded db db'
IsGuarded-refl db db' log rows = record {
  log = log;
  named = λ v a row at e. subst (Row v) (sym rows) row;
}

IsGuarded-trans : (a b c : Db) → IsGuarded a b → IsGuarded b c → IsGuarded a c
IsGuarded-trans a b c first second = record {
  log = second.log ∙ first.log;
  named = λ v x row at e.
      second.named v x (first.named v x row at e) (subst (Row x) (sym first.log) at) e;
}

followed_by-Guarded :
    (db : Db) (o : Outcome) (next : Db → Outcome)
    → Guarded db o
    → ((d : Db) → Guarded d (next d))
    → Guarded db (followed_by o next)
followed_by-Guarded db (Outcome.accepted d) next first second db' e =
    IsGuarded-trans db d db' (first d refl) (second d db' e)
followed_by-Guarded db (Outcome.refused r) next first second db' e = absurd (cc e)

pub same : (a b : Db) → Outcome.accepted a ≡ Outcome.accepted b → b ≡ a
same a b e = cc

-- The trigger lets a statement pass that reaches no entry, which has nothing to change then.
forbidden-lets :
    (reached : AuditLog → Bool) (db : Db) (change : List AuditLog → List AuditLog)
    → (any reached db.audit_log ≡ false → change db.audit_log ≡ db.audit_log)
    → (db' : Db)
    → followed_by
        (audit_log_forbid_mutation reached db)
        (λ d. Outcome.accepted (record d { audit_log = change d.audit_log }))
      ≡ Outcome.accepted db'
    → (any reached db.audit_log ≡ false) × (db' ≡ db)
unfolding audit_log_forbid_mutation
forbidden-lets reached db change nothing db' e = elim (Bool-cases (any reached db.audit_log)) [
  | inl some_row ↦ absurd (cc (rw some_row at e))
  | inr no_row ↦
      (no_row, same _ db' (rw no_row at e) ∙ ap (λ l. record db { audit_log = l }) (nothing no_row))
]

deleted-lets :
    (reached : AuditLog → Bool) (db db' : Db)
    → delete_audit reached db ≡ Outcome.accepted db'
    → (any reached db.audit_log ≡ false) × (db' ≡ db)
unfolding delete_audit
deleted-lets reached db db' e =
    forbidden-lets reached db (rows_where (λ a. not (reached a)))
      (rows_where-none reached db.audit_log) db' e

unchanged-IsGuarded : (db db' : Db) → db' ≡ db → IsGuarded db db'
unchanged-IsGuarded db db' e =
    IsGuarded-refl db db' (ap (λ d. d.audit_log) e) (ap (λ d. d.skill_versions) e)

pub deleted-Guarded : (reached : AuditLog → Bool) (db : Db) → Guarded db (delete_audit reached db)
deleted-Guarded reached db db' e = unchanged-IsGuarded db db' ((deleted-lets reached db db' e).1)

pub updated-Guarded :
    (reached : AuditLog → Bool) (set : AuditLog → AuditLog) (db : Db)
    → Guarded db (update_audit reached set db)
unfolding update_audit
updated-Guarded reached set db db' e = unchanged-IsGuarded db db' (
    (forbidden-lets reached db (update_where reached set)
      (update_where-none reached set db.audit_log) db' e).1)

pub grants-Guarded : (reached : ToolGrant → Bool) (db : Db) → Guarded db (delete_grants reached db)
unfolding delete_grants
grants-Guarded reached db db' e =
    let same_db = same _ db' e in
    IsGuarded-refl db db' (ap (λ d. d.audit_log) same_db) (ap (λ d. d.skill_versions) same_db)

chosen-Guarded :
    (stop : Bool) (r : Refusal) (db d : Db)
    → IsGuarded db d
    → Guarded db (if stop then Outcome.refused r else Outcome.accepted d)
chosen-Guarded true r db d g db' e = absurd (cc e)
chosen-Guarded false r db d g db' e = subst (IsGuarded db) (sym (same d db' e)) g

-- If no entry names a version that the DELETE reaches, it does not reach one that is named.
unreached :
    (reached : SkillVersion → Bool) (v : SkillVersion) (a : AuditLog) (rows : List SkillVersion)
    → Row v rows
    → a.skill_version_id ≡ some v.id
    → names (is_gone reached (λ x. x.id) rows) a.skill_version_id ≡ false
    → reached v ≡ false
unfolding is_gone
unreached reached v a rows row e kept_all =
    let none_gone : any (λ x. reached x && x.id == v.id) rows ≡ false = rw e at kept_all in
    let here = any-false-Row (λ x. reached x && x.id == v.id) v rows none_gone row in
    let it = ==_refl v.id in ground arith

-- From the tables less the rows of another one.
Guarded-from :
    (db d : Db)
    → d.audit_log ≡ db.audit_log
    → d.skill_versions ≡ db.skill_versions
    → (o : Outcome) → Guarded d o
    → Guarded db o
Guarded-from db d log rows o g db' e =
    IsGuarded-trans db d db' (IsGuarded-refl db d log rows) (g db' e)

pub versions-Guarded :
    (reached : SkillVersion → Bool) (db : Db) → Guarded db (delete_versions reached db)
unfolding delete_versions delete_grants
versions-Guarded reached db db' e =
    let gone = is_gone reached (λ v. v.id) db.skill_versions in
    let (no_row, same_db) = deleted-lets (λ a. names gone a.skill_version_id) _ db' e in
    record {
      log = ap (λ d. d.audit_log) same_db;
      named = λ v a row at named.
          subst (λ d. Row v d.skill_versions) (sym same_db)
            (rows_where-Row (λ x. not (reached x)) v db.skill_versions
              (ap not (
                unreached reached v a db.skill_versions row named
                  (any-false-Row (λ x. names gone x.skill_version_id) a db.audit_log no_row at)))
              row);
    }

pub skills-Guarded : (reached : Skill → Bool) (db : Db) → Guarded db (delete_skills reached db)
unfolding delete_skills
skills-Guarded reached db =
    Guarded-from db (record db { skills = rows_where (λ s. not (reached s)) db.skills }) refl refl _
      (followed_by-Guarded _ _ _
        (versions-Guarded (λ v. is_gone reached (λ s. s.id) db.skills v.skill_id) _)
        (λ d. deleted-Guarded _ d))

pub users-Guarded : (reached : User → Bool) (db : Db) → Guarded db (delete_users reached db)
unfolding delete_users
users-Guarded reached db = chosen-Guarded _ Refusal.restricted db _ (IsGuarded-refl db _ refl refl)

pub organization-Guarded : (k : Uuid) (db : Db) → Guarded db (delete_organization k db)
unfolding delete_organization
organization-Guarded k db =
    Guarded-from db
      (record db { organizations = rows_where (λ o. not (o.id == k)) db.organizations }) refl refl _
      (followed_by-Guarded _ _ _
        (followed_by-Guarded _ _ _
          (followed_by-Guarded _ _ _
            (followed_by-Guarded _ _ _ (users-Guarded (λ u. u.organization_id == k) _)
              (λ d. skills-Guarded (λ s. s.organization_id == k) d))
            (λ d. versions-Guarded (λ v. v.organization_id == k) d))
          (λ d. grants-Guarded (λ g. g.organization_id == k) d))
        (λ d. deleted-Guarded (λ a. a.organization_id == k) d))
