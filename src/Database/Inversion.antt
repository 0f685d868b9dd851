-- ===== src/Database/Inversion.antt =====
-- What an accepted write has done: the one table that it changes, as it stands after the write, and
-- the checks that it has passed.
use jarvis_skill_registry.Prelude.{
  ◌≡◌, refl, Bool, true, false, not, Option, none, some, List, [], ◌∷◌, ◌++◌, arith, Bool-cases,
  inl, inr, ◌==◌,
}
use jarvis_skill_registry.Prelude.Tables.{any}
use jarvis_skill_registry.Core.Errors.{ok, Constraint}
use jarvis_skill_registry.Models.{
  Organization, User, Skill, SkillVersion, ToolGrant, AuditLog, SkillSet, VersionSet, GrantSet,
  assign_all, assign_version,
}
use jarvis_skill_registry.Models.Guard.{guard_active_version_immutability}
use jarvis_skill_registry.Database.Constraints.{
  Db, organizations_violation, users_violation, skills_violation, versions_violation,
  grants_violation, audit_violation,
}
use jarvis_skill_registry.Database.Write.{
  Write, checked, apply_write, set_skill, set_version, set_grant, trigger_refuses,
}

checked-ok :
    (v : Option Constraint) (db : Db) {db' : Db} → checked v db ≡ ok db' → (v ≡ none) × (db' ≡ db)
checked-ok none db e = (refl, cc)
checked-ok (some c) db e = cc

module _ (db : Db) {db' : Db} where
  pub inserted_organization :
      (r : Organization)
      → apply_write (Write.insert_organization r) db ≡ ok db'
      → (organizations_violation (db.organizations ++ r ∷ []) ≡ none)
        × (db' ≡ record db { organizations = db.organizations ++ r ∷ [] })
  unfolding apply_write
  inserted_organization r e = checked-ok _ _ e

  pub inserted_user :
      (r : User)
      → apply_write (Write.insert_user r) db ≡ ok db'
      → (users_violation db.organizations (db.users ++ r ∷ []) ≡ none)
        × (db' ≡ record db { users = db.users ++ r ∷ [] })
  unfolding apply_write
  inserted_user r e = checked-ok _ _ e

  pub inserted_skill :
      (r : Skill)
      → apply_write (Write.insert_skill r) db ≡ ok db'
      → (skills_violation (db.skills ++ r ∷ []) ≡ none)
        × (db' ≡ record db { skills = db.skills ++ r ∷ [] })
  unfolding apply_write
  inserted_skill r e = checked-ok _ _ e

  pub inserted_version :
      (r : SkillVersion)
      → apply_write (Write.insert_version r) db ≡ ok db'
      → (versions_violation db.skills (db.skill_versions ++ r ∷ []) ≡ none)
        × (db' ≡ record db { skill_versions = db.skill_versions ++ r ∷ [] })
  unfolding apply_write
  inserted_version r e = checked-ok _ _ e

  pub inserted_grant :
      (r : ToolGrant)
      → apply_write (Write.insert_grant r) db ≡ ok db'
      → (grants_violation db.skill_versions (db.tool_grants ++ r ∷ []) ≡ none)
        × (db' ≡ record db { tool_grants = db.tool_grants ++ r ∷ [] })
  unfolding apply_write
  inserted_grant r e = checked-ok _ _ e

  pub inserted_audit :
      (r : AuditLog)
      → apply_write (Write.insert_audit r) db ≡ ok db'
      → (audit_violation (db.audit_log ++ r ∷ []) ≡ none)
        × (db' ≡ record db { audit_log = db.audit_log ++ r ∷ [] })
  unfolding apply_write
  inserted_audit r e = checked-ok _ _ e

  pub updated_skill :
      (r : Skill) (sets : List SkillSet)
      → apply_write (Write.update_skill r sets) db ≡ ok db'
      → (skills_violation (set_skill r.id sets db.skills) ≡ none)
        × (db' ≡ record db { skills = set_skill r.id sets db.skills })
  unfolding apply_write
  updated_skill r sets e = elim (Bool-cases (any (λ s. s.id == r.id) db.skills)) [
    | inl found ↦ checked-ok _ _ (rw found at e)
    | inr missing ↦ absurd (cc (rw missing at e))
  ]

  pub updated_grant :
      (r : ToolGrant) (sets : List GrantSet)
      → apply_write (Write.update_grant r sets) db ≡ ok db'
      → (grants_violation db.skill_versions (set_grant r.id sets db.tool_grants) ≡ none)
        × (db' ≡ record db { tool_grants = set_grant r.id sets db.tool_grants })
  unfolding apply_write
  updated_grant r sets e = elim (Bool-cases (any (λ s. s.id == r.id) db.tool_grants)) [
    | inl found ↦ checked-ok _ _ (rw found at e)
    | inr missing ↦ absurd (cc (rw missing at e))
  ]

-- An UPDATE of a version has passed the guard and the trigger too.
pub record VersionUpdated (db db' : Db) (r : SkillVersion) (sets : List VersionSet) : Type 0 where
  pub guarded : guard_active_version_immutability r (assign_all assign_version sets r) ≡ true
  pub triggered : trigger_refuses r.id sets db.skill_versions ≡ false
  pub valid : versions_violation db.skills (set_version r.id sets db.skill_versions) ≡ none
  pub result : db' ≡ record db { skill_versions = set_version r.id sets db.skill_versions }

not-true : (b : Bool) → not b ≡ true → b ≡ false
not-true b h = ground arith

not-false : (b : Bool) → not b ≡ false → b ≡ true
not-false b h = ground arith

pub updated_version :
    (db : Db) {db' : Db} (r : SkillVersion) (sets : List VersionSet)
    → apply_write (Write.update_version r sets) db ≡ ok db'
    → VersionUpdated db db' r sets
unfolding apply_write
updated_version db r sets e =
    elim (Bool-cases
      (not (guard_active_version_immutability r (assign_all assign_version sets r)))) [
        | inl refused ↦ absurd (cc (rw refused at e))
        | inr guarded ↦ elim (Bool-cases (trigger_refuses r.id sets db.skill_versions)) [
          | inl refused ↦ absurd (cc (rw (guarded, refused) at e))
          | inr triggered ↦ elim (Bool-cases (any (λ v. v.id == r.id) db.skill_versions)) [
            | inl found ↦
                (let done = checked-ok _ _ (rw (guarded, triggered, found) at e) in
                  record {
                    guarded = not-false _ guarded;
                    triggered = triggered;
                    valid = done.0;
                    result = done.1;
                  })
            | inr missing ↦ absurd (cc (rw (guarded, triggered, missing) at e))
          ]
        ]
      ]
