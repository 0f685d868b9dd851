-- ===== src/Effects/Accepted.antt =====
-- The INSERTs and UPDATEs that the constraints, the guard and the trigger accept: of an audit entry
-- with a new id, and of the status and stamp columns of a stored row.
use jarvis_skill_registry.Prelude.{
  ℕ, ◌≡◌, ap, refl, ◌∙◌, true, false, not, ◌&&◌, ◌==◌, ==_iff, ==_refl, leb, List, [], ◌∷◌, ◌++◌,
  none, arith, Bool-cases, inl, inr,
}
use jarvis_skill_registry.Prelude.Tables.{any, any-Row, rows_where, unique_by, Row}
use jarvis_skill_registry.Prelude.Distinct.{unique_by-append}
use jarvis_skill_registry.Prelude.Partition.{any-none}
use jarvis_skill_registry.Core.Enums.{SkillStatus, VersionStatus, version_status_eq}
use jarvis_skill_registry.Core.Errors.{ok}
use jarvis_skill_registry.Models.{
  Uuid, Time, Skill, SkillVersion, ToolGrant, AuditLog, SkillSet, VersionSet, assign_all,
  assign_skill, assign_version,
}
use jarvis_skill_registry.Models.Guard.{same_content, guard_active_version_immutability}
use jarvis_skill_registry.Database.Trigger.{trigger_accepts, stays_or_retires}
use jarvis_skill_registry.Database.Constraints.{
  Db, same_skill_name, same_version_number, is_active, all_rows, skills_violation,
  versions_violation, audit_violation,
}
use jarvis_skill_registry.Database.Updates.{all_rows-update_where, unique_by-update_where}
use jarvis_skill_registry.Database.Layers.{same_content_iff, status_active}
use jarvis_skill_registry.Database.Write.{
  Write, apply_write, set_skill, set_version, trigger_refuses,
}
use jarvis_skill_registry.Invariants.Consistency.{AreVersions, IsConsistent, updated-parents}

pub ==_comm : (a b : ℕ) → (a == b) ≡ (b == a)
==_comm a b = ground arith

pub AreVersions-violation :
    (skills : List Skill) (rows : List SkillVersion)
    → AreVersions rows
    → all_rows (λ v. any (λ s. s.id == v.skill_id) skills) rows ≡ true
    → versions_violation skills rows ≡ none
unfolding versions_violation
AreVersions-violation skills rows h parents =
    rw (h.ids, parents, h.numbers, h.positive, h.one_active) refl

pub inserted_audit-accepted :
    (db : Db) (r : AuditLog)
    → unique_by (λ a b. a.id == b.id) db.audit_log ≡ true
    → any (λ a. r.id == a.id) db.audit_log ≡ false
    → (apply_write (Write.insert_audit r) db
        ≡ ok (record db { audit_log = db.audit_log ++ r ∷ [] }))
      × (unique_by (λ a b. a.id == b.id) (db.audit_log ++ r ∷ []) ≡ true)
unfolding apply_write audit_violation
inserted_audit-accepted db r ids new =
    let kept =
      unique_by-append (λ a b. a.id == b.id) (λ a b. ==_comm a.id b.id) r db.audit_log new ids in
    (rw kept refl, kept)

-- Assignments that leave the keys and the content of every row as they are.
pub record IsHarmless (sets : List VersionSet) : Type 0 where
  pub id : (v : SkillVersion) → (assign_all assign_version sets v).id ≡ v.id
  pub skill_id : (v : SkillVersion) → (assign_all assign_version sets v).skill_id ≡ v.skill_id
  pub number :
      (v : SkillVersion) → (assign_all assign_version sets v).version_number ≡ v.version_number
  pub accepted : (v : SkillVersion) → trigger_accepts v (assign_all assign_version sets v) ≡ true

-- The trigger accepts whatever keeps the content and the owner, if an active row does not go back
-- to draft.
pub kept-accepted :
    (old new : SkillVersion)
    → same_content new old ≡ true
    → new.organization_id ≡ old.organization_id
    → new.skill_id ≡ old.skill_id
    → (old.status ≡ VersionStatus.active → stays_or_retires new.status ≡ true)
    → trigger_accepts old new ≡ true
unfolding trigger_accepts
kept-accepted old new same org skill stays =
    elim (Bool-cases (version_status_eq old.status VersionStatus.active)) [
      | inl active ↦
          (let ends = stays (status_active old.status active) in
            rw
              (
                active,
                same,
                (==_iff new.organization_id old.organization_id).1 org,
                (==_iff new.skill_id old.skill_id).1 skill,
                ends,
              )
              refl)
      | inr other ↦ rw other refl
    ]

pub same_content_refl : (v : SkillVersion) → same_content v v ≡ true
same_content_refl v = (same_content_iff v v).1 (record {
  prompt_body = refl;
  requested_tools = refl;
  content_hash = refl;
  version_number = refl;
})

untriggered :
    (id : Uuid) (sets : List VersionSet) (rows : List SkillVersion)
    → IsHarmless sets
    → trigger_refuses id sets rows ≡ false
unfolding trigger_refuses
untriggered id sets rows h =
    any-none (λ v. v.id == id && not (trigger_accepts v (assign_all assign_version sets v))) rows
      (λ v row. let accepted = h.accepted v in ground arith)

module _ (sets : List VersionSet) (harmless : IsHarmless sets) (id : Uuid) where
  set_version-AreVersions :
      (rows : List SkillVersion)
      → AreVersions rows
      → unique_by
          (λ a b. a.skill_id == b.skill_id)
          (rows_where is_active (set_version id sets rows))
        ≡ true
      → AreVersions (set_version id sets rows)
  set_version-AreVersions rows h one_active = record {
    ids =
        unique_by-update_where (λ a b. a.id == b.id) (λ v. v.id == id)
          (assign_all assign_version sets) rows (λ v. ap (λ k b. k == b.id) (harmless.id v))
          (λ a v. ap (λ k. a.id == k) (harmless.id v))
        ∙ h.ids;
    numbers =
        unique_by-update_where same_version_number (λ v. v.id == id)
          (assign_all assign_version sets) rows
          (λ v.
            λ i b. harmless.skill_id v i == b.skill_id && harmless.number v i == b.version_number)
          (λ a v. rw (harmless.skill_id v, harmless.number v) refl)
        ∙ h.numbers;
    positive =
        all_rows-update_where (λ v. leb 1 v.version_number) (λ v. v.id == id)
          (assign_all assign_version sets) rows (λ v. ap (leb 1) (harmless.number v))
        ∙ h.positive;
    one_active = one_active;
  }

  set_version-IsConsistent :
      (db : Db)
      → IsConsistent db
      → unique_by
          (λ a b. a.skill_id == b.skill_id)
          (rows_where is_active (set_version id sets db.skill_versions))
        ≡ true
      → IsConsistent (record db { skill_versions = set_version id sets db.skill_versions })
  set_version-IsConsistent db h one_active = record {
    skills = h.skills;
    versions = set_version-AreVersions db.skill_versions h.versions one_active;
    grants = h.grants;
    audit = h.audit;
    version_skills =
        all_rows-update_where (λ v. any (λ s. s.id == v.skill_id) db.skills) (λ v. v.id == id)
          (assign_all assign_version sets) db.skill_versions
          (λ v. ap (λ k. any (λ s. s.id == k) db.skills) (harmless.skill_id v))
        ∙ h.version_skills;
    grant_versions =
        updated-parents (λ (v : SkillVersion). v.id) (λ (g : ToolGrant). g.skill_version_id)
          (λ v. v.id == id) (assign_all assign_version sets) db.skill_versions db.tool_grants
          harmless.id h.grant_versions;
  }

-- An UPDATE of a stored version by such assignments is accepted if the guard lets the loaded object
-- change so and the rows still have one active version for each skill.
pub updated_version-accepted :
    (db : Db) (r : SkillVersion) (sets : List VersionSet)
    → IsConsistent db
    → Row r db.skill_versions
    → IsHarmless sets
    → guard_active_version_immutability r (assign_all assign_version sets r) ≡ true
    → unique_by
        (λ a b. a.skill_id == b.skill_id)
        (rows_where is_active (set_version r.id sets db.skill_versions))
      ≡ true
    → (apply_write (Write.update_version r sets) db
        ≡ ok (record db { skill_versions = set_version r.id sets db.skill_versions }))
      × IsConsistent (record db { skill_versions = set_version r.id sets db.skill_versions })
unfolding apply_write
updated_version-accepted db r sets h row harmless guarded one_active =
    let after = set_version-IsConsistent sets harmless r.id db h one_active in
    (
      rw
          (
            guarded,
            untriggered r.id sets db.skill_versions harmless,
            any-Row (λ v. v.id == r.id) r db.skill_versions row (==_refl r.id),
            AreVersions-violation db.skills _ (after.versions) (after.version_skills),
          )
          refl,
      after,
    )

-- An INSERT of an audit entry with a new id.
pub inserted_audit-IsConsistent :
    (db : Db) (r : AuditLog)
    → IsConsistent db
    → any (λ a. r.id == a.id) db.audit_log ≡ false
    → IsConsistent (record db { audit_log = db.audit_log ++ r ∷ [] })
inserted_audit-IsConsistent db r h new = record {
  skills = h.skills;
  versions = h.versions;
  grants = h.grants;
  audit = (inserted_audit-accepted db r h.audit new).1;
  version_skills = h.version_skills;
  grant_versions = h.grant_versions;
}

-- An UPDATE of a stored skill's status, with the time of the change.
abbrev pub status_sets : SkillStatus → Time → List SkillSet
status_sets status now = SkillSet.status status ∷ SkillSet.updated_at now ∷ []

pub updated_skill-accepted :
    (db : Db) (r : Skill) (status : SkillStatus) (now : Time)
    → IsConsistent db
    → Row r db.skills
    → (apply_write (Write.update_skill r (status_sets status now)) db
        ≡ ok (record db { skills = set_skill r.id (status_sets status now) db.skills }))
      × IsConsistent (record db { skills = set_skill r.id (status_sets status now) db.skills })
unfolding apply_write skills_violation
updated_skill-accepted db r status now h row =
    let f = assign_all assign_skill (status_sets status now) in
    let ids =
      unique_by-update_where (λ a b. a.id == b.id) (λ s. s.id == r.id) f db.skills (λ s. refl)
        (λ a s. refl)
      ∙ h.skills.ids in
    let names =
      unique_by-update_where same_skill_name (λ s. s.id == r.id) f db.skills (λ s. refl)
        (λ a s. refl)
      ∙ h.skills.names in
    (
      rw (any-Row (λ s. s.id == r.id) r db.skills row (==_refl r.id), ids, names) refl,
      record {
        skills = record { ids = ids; names = names };
        versions = h.versions;
        grants = h.grants;
        audit = h.audit;
        version_skills =
            updated-parents (λ (s : Skill). s.id) (λ (v : SkillVersion). v.skill_id)
              (λ s. s.id == r.id) f db.skills db.skill_versions (λ s. refl) h.version_skills;
        grant_versions = h.grant_versions;
      },
    )
