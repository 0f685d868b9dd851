-- ===== src/Invariants/Consistency.antt =====
-- The keys of the tables: alembic 0001's primary keys and unique constraints, and the partial
-- unique index of 0002, as properties of the stored rows.
use jarvis_skill_registry.Prelude.{
  ℕ, ◌≡◌, refl, ap, Bool, true, ◌==◌, leb, List, [], ◌∷◌, ◌++◌, none, arith,
}
use jarvis_skill_registry.Prelude.Tables.{any, rows_where, unique_by, update_where}
use jarvis_skill_registry.Models.{
  User, Skill, SkillVersion, ToolGrant, AuditLog, SkillSet, VersionSet, assign_all, assign_skill,
  assign_version,
}
use jarvis_skill_registry.Core.Errors.{ok}
use jarvis_skill_registry.Database.Constraints.{
  Db, same_skill_name, same_version_number, is_active, same_grant, all_rows, skills_violation,
  versions_violation, grants_violation, audit_violation,
}
use jarvis_skill_registry.Prelude.Distinct.{any-append}
use jarvis_skill_registry.Database.Updates.{any-update_where}
use jarvis_skill_registry.Database.Write.{Write, apply_write}
use jarvis_skill_registry.Database.Inversion.{
  inserted_organization, inserted_user, inserted_skill, inserted_version, inserted_grant,
  inserted_audit, updated_skill, updated_version, updated_grant,
}
use jarvis_skill_registry.Session.{World}
use jarvis_skill_registry.Services.Stable.{no_facts, handle-Stable}
use jarvis_skill_registry.Api.Routes.{Request, handle}

pub record AreSkills (rows : List Skill) : Type 0 where
  pub ids : unique_by (λ a b. a.id == b.id) rows ≡ true
  pub names : unique_by same_skill_name rows ≡ true

pub record AreVersions (rows : List SkillVersion) : Type 0 where
  pub ids : unique_by (λ a b. a.id == b.id) rows ≡ true
  pub numbers : unique_by same_version_number rows ≡ true
  pub positive : all_rows (λ v. leb 1 v.version_number) rows ≡ true
  pub one_active : unique_by (λ a b. a.skill_id == b.skill_id) (rows_where is_active rows) ≡ true

pub record AreGrants (rows : List ToolGrant) : Type 0 where
  pub ids : unique_by (λ a b. a.id == b.id) rows ≡ true
  pub tools : unique_by same_grant rows ≡ true

pub record IsConsistent (db : Db) : Type 0 where
  pub skills : AreSkills db.skills
  pub versions : AreVersions db.skill_versions
  pub grants : AreGrants db.tool_grants
  pub audit : unique_by (λ a b. a.id == b.id) db.audit_log ≡ true
  pub version_skills :
      all_rows (λ v. any (λ s. s.id == v.skill_id) db.skills) db.skill_versions ≡ true
  pub grant_versions :
      all_rows (λ g. any (λ v. v.id == g.skill_version_id) db.skill_versions) db.tool_grants ≡ true

skills-AreSkills : (rows : List Skill) → skills_violation rows ≡ none → AreSkills rows
unfolding skills_violation
skills-AreSkills rows h = record { ids = ground arith; names = ground arith }

versions-AreVersions :
    (skills : List Skill) (rows : List SkillVersion)
    → versions_violation skills rows ≡ none
    → AreVersions rows
unfolding versions_violation
versions-AreVersions skills rows h = record {
  ids = ground arith;
  numbers = ground arith;
  positive = ground arith;
  one_active = ground arith;
}

grants-AreGrants :
    (versions : List SkillVersion) (rows : List ToolGrant)
    → grants_violation versions rows ≡ none
    → AreGrants rows
unfolding grants_violation
grants-AreGrants versions rows h = record { ids = ground arith; tools = ground arith }

audit_violation-unique_by :
    (rows : List AuditLog)
    → audit_violation rows ≡ none
    → unique_by (λ a b. a.id == b.id) rows ≡ true
unfolding audit_violation
audit_violation-unique_by rows h = ground arith

versions-parents :
    (skills : List Skill) (rows : List SkillVersion)
    → versions_violation skills rows ≡ none
    → all_rows (λ v. any (λ s. s.id == v.skill_id) skills) rows ≡ true
unfolding versions_violation
versions-parents skills rows h = ground arith

grants-parents :
    (versions : List SkillVersion) (rows : List ToolGrant)
    → grants_violation versions rows ≡ none
    → all_rows (λ g. any (λ v. v.id == g.skill_version_id) versions) rows ≡ true
unfolding grants_violation
grants-parents versions rows h = ground arith

-- A parent that is stored stays, whatever rows are added and whatever is assigned.
assign_skill-id : (sets : List SkillSet) (s : Skill) → (assign_all assign_skill sets s).id ≡ s.id
assign_skill-id [] s = refl
assign_skill-id (SkillSet.department d ∷ sets) s = assign_skill-id sets _
assign_skill-id (SkillSet.description d ∷ sets) s = assign_skill-id sets _
assign_skill-id (SkillSet.status d ∷ sets) s = assign_skill-id sets _
assign_skill-id (SkillSet.updated_at d ∷ sets) s = assign_skill-id sets _

assign_version-id :
    (sets : List VersionSet) (v : SkillVersion) → (assign_all assign_version sets v).id ≡ v.id
assign_version-id [] v = refl
assign_version-id (VersionSet.prompt_body x ∷ sets) v = assign_version-id sets _
assign_version-id (VersionSet.content_hash x ∷ sets) v = assign_version-id sets _
assign_version-id (VersionSet.requested_tools x ∷ sets) v = assign_version-id sets _
assign_version-id (VersionSet.version_number x ∷ sets) v = assign_version-id sets _
assign_version-id (VersionSet.organization_id x ∷ sets) v = assign_version-id sets _
assign_version-id (VersionSet.skill_id x ∷ sets) v = assign_version-id sets _
assign_version-id (VersionSet.status x ∷ sets) v = assign_version-id sets _
assign_version-id (VersionSet.reviewed_at x ∷ sets) v = assign_version-id sets _
assign_version-id (VersionSet.activated_at x ∷ sets) v = assign_version-id sets _
assign_version-id (VersionSet.reviewed_by x ∷ sets) v = assign_version-id sets _
assign_version-id (VersionSet.activated_by x ∷ sets) v = assign_version-id sets _

inserted-parents :
    {A B : Type 0} (id : A → ℕ) (parent : B → ℕ) (r : A) (parents : List A) (rows : List B)
    → all_rows (λ b. any (λ a. id a == parent b) parents) rows ≡ true
    → all_rows (λ b. any (λ a. id a == parent b) (parents ++ r ∷ [])) rows ≡ true
unfolding all_rows
inserted-parents id parent r parents [] h = refl
inserted-parents id parent r parents (b ∷ rows) h = grind (
  arith,
  any-append (λ a. id a == parent b) parents (r ∷ []),
  inserted-parents id parent r parents rows,
)

pub updated-parents :
    {A B : Type 0} (id : A → ℕ) (parent : B → ℕ) (reached : A → Bool) (f : A → A) (parents : List A)
    (rows : List B)
    → ((a : A) → id (f a) ≡ id a)
    → all_rows (λ b. any (λ a. id a == parent b) parents) rows ≡ true
    → all_rows (λ b. any (λ a. id a == parent b) (update_where reached f parents)) rows ≡ true
unfolding all_rows
updated-parents id parent reached f parents [] still h = refl
updated-parents id parent reached f parents (b ∷ rows) still h =
    let same =
      any-update_where (λ a. id a == parent b) reached f parents
        (λ a. ap (λ k. k == parent b) (still a)) in
    grind (arith, updated-parents id parent reached f parents rows still)

-- An accepted write has passed the constraints of the table that it changes.
pub apply_write-IsConsistent :
    (wr : Write) (db db' : Db) → IsConsistent db → apply_write wr db ≡ ok db' → IsConsistent db'
apply_write-IsConsistent (Write.insert_organization r) db db' h e =
    rw ((inserted_organization db r e).1) (record {
      skills = h.skills;
      versions = h.versions;
      grants = h.grants;
      audit = h.audit;
      version_skills = h.version_skills;
      grant_versions = h.grant_versions;
    })
apply_write-IsConsistent (Write.insert_user r) db db' h e = rw ((inserted_user db r e).1) (record {
  skills = h.skills;
  versions = h.versions;
  grants = h.grants;
  audit = h.audit;
  version_skills = h.version_skills;
  grant_versions = h.grant_versions;
})
apply_write-IsConsistent (Write.insert_skill r) db db' h e =
    let done = inserted_skill db r e in
    rw done.1 (record {
      skills = skills-AreSkills _ done.0;
      versions = h.versions;
      grants = h.grants;
      audit = h.audit;
      version_skills =
          inserted-parents (λ (s : Skill). s.id) (λ (v : SkillVersion). v.skill_id) r db.skills
            db.skill_versions h.version_skills;
      grant_versions = h.grant_versions;
    })
apply_write-IsConsistent (Write.insert_version r) db db' h e =
    let done = inserted_version db r e in
    rw done.1 (record {
      skills = h.skills;
      versions = versions-AreVersions db.skills _ done.0;
      grants = h.grants;
      audit = h.audit;
      version_skills = versions-parents db.skills _ done.0;
      grant_versions =
          inserted-parents (λ (v : SkillVersion). v.id) (λ (g : ToolGrant). g.skill_version_id) r
            db.skill_versions db.tool_grants h.grant_versions;
    })
apply_write-IsConsistent (Write.insert_grant r) db db' h e =
    let done = inserted_grant db r e in
    rw done.1 (record {
      skills = h.skills;
      versions = h.versions;
      grants = grants-AreGrants db.skill_versions _ done.0;
      audit = h.audit;
      version_skills = h.version_skills;
      grant_versions = grants-parents db.skill_versions _ done.0;
    })
apply_write-IsConsistent (Write.insert_audit r) db db' h e =
    let done = inserted_audit db r e in
    rw done.1 (record {
      skills = h.skills;
      versions = h.versions;
      grants = h.grants;
      audit = audit_violation-unique_by _ done.0;
      version_skills = h.version_skills;
      grant_versions = h.grant_versions;
    })
apply_write-IsConsistent (Write.update_skill r sets) db db' h e =
    let done = updated_skill db r sets e in
    rw done.1 (record {
      skills = skills-AreSkills _ done.0;
      versions = h.versions;
      grants = h.grants;
      audit = h.audit;
      version_skills =
          updated-parents (λ (s : Skill). s.id) (λ (v : SkillVersion). v.skill_id)
            (λ s. s.id == r.id) (assign_all assign_skill sets) db.skills db.skill_versions
            (assign_skill-id sets) h.version_skills;
      grant_versions = h.grant_versions;
    })
apply_write-IsConsistent (Write.update_version r sets) db db' h e =
    let done = updated_version db r sets e in
    rw (done.result) (record {
      skills = h.skills;
      versions = versions-AreVersions db.skills _ done.valid;
      grants = h.grants;
      audit = h.audit;
      version_skills = versions-parents db.skills _ done.valid;
      grant_versions =
          updated-parents (λ (v : SkillVersion). v.id) (λ (g : ToolGrant). g.skill_version_id)
            (λ v. v.id == r.id) (assign_all assign_version sets) db.skill_versions db.tool_grants
            (assign_version-id sets) h.grant_versions;
    })
apply_write-IsConsistent (Write.update_grant r sets) db db' h e =
    let done = updated_grant db r sets e in
    rw done.1 (record {
      skills = h.skills;
      versions = h.versions;
      grants = grants-AreGrants db.skill_versions _ done.0;
      audit = h.audit;
      version_skills = h.version_skills;
      grant_versions = grants-parents db.skill_versions _ done.0;
    })

-- If the stored tables satisfy their keys, they do after any request of any user: identifiers are
-- unique, a skill's name is unique in its organization, a version's number is positive and unique
-- in its skill, a version has one request for each tool, no skill has two active versions, and the
-- skill of a version and the version of a grant are stored.
pub handle-IsConsistent :
    (w : World) (user : User) (request : Request) (db : Db) (tick : ℕ)
    → IsConsistent db
    → IsConsistent (handle w user request db tick).1.committed
handle-IsConsistent w user request db tick h =
    handle-Stable w user
      (record {
        owned = no_facts;
        read_skill = λ db r h row. tt;
        read_version = λ db r h row. tt;
        read_grant = λ db v g h row at refers. tt;
        step = λ wr before after written kept accepted.
            apply_write-IsConsistent wr before after kept accepted;
      })
      request (λ kind uses. tt) db tick h
