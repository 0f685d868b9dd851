-- ===== src/Services/Visibility.antt =====
-- What a request answers about a skill or a version that the caller's organization does not have,
-- whether another organization has it or nobody does.
use jarvis_skill_registry.Prelude.{ℕ, ◌≡◌, refl, ◌&&◌, ◌==◌, []}
use jarvis_skill_registry.Prelude.Tables.{rows_where}
use jarvis_skill_registry.Models.{Uuid, User}
use jarvis_skill_registry.Core.Errors.{err, Exception, ErrorCode, Detail, resource_not_found}
use jarvis_skill_registry.Database.Constraints.{Db}
use jarvis_skill_registry.Repository.{
  select_skills, select_versions, get_version, require_skill, lock_skill, get_skill_with_versions,
}
use jarvis_skill_registry.Session.{World, open_session, one_or_none, or_raise}
use jarvis_skill_registry.Services.Grants.{grant_tools}
use jarvis_skill_registry.Services.Skills.{
  SkillUpdateRequest, VersionCreateRequest, ToolGrantRequest, skill_not_found, version_not_found,
  lock_or_raise, require_version, get_skill_detail, update_skill, create_version, review_version,
  disable_skill,
}
use jarvis_skill_registry.Services.Activation.{activate}
use jarvis_skill_registry.Api.Routes.{Request, handle}

-- The requests that name a skill of which the caller's organization has no row, with the 404 that
-- each answers. A review and a grant look for the version alone, so they name a version of which
-- the organization has no row.
pub data NamesSkill (user : User) (db : Db) (skill_id : Uuid) : Request → Exception → Type 0 where
  get :
      rows_where (λ s. s.id == skill_id) (select_skills user.organization_id db) ≡ []
      → NamesSkill user db skill_id (Request.get_skill skill_id) (skill_not_found skill_id)
  update_metadata :
      (payload : SkillUpdateRequest)
      → rows_where (λ s. s.id == skill_id) (select_skills user.organization_id db) ≡ []
      → NamesSkill user db skill_id
          (Request.update_skill skill_id payload)
          (Exception.domain (resource_not_found ErrorCode.skill_not_found (Detail.id skill_id)))
  add_version :
      (payload : VersionCreateRequest)
      → rows_where (λ s. s.id == skill_id) (select_skills user.organization_id db) ≡ []
      → NamesSkill user db skill_id
          (Request.create_version skill_id payload)
          (skill_not_found skill_id)
  activate_version :
      (n : ℕ)
      → rows_where (λ s. s.id == skill_id) (select_skills user.organization_id db) ≡ []
      → NamesSkill user db skill_id (Request.activate_version skill_id n) (skill_not_found skill_id)
  disable :
      rows_where (λ s. s.id == skill_id) (select_skills user.organization_id db) ≡ []
      → NamesSkill user db skill_id (Request.disable_skill skill_id) (skill_not_found skill_id)
  review :
      (n : ℕ)
      → rows_where
          (λ v. v.skill_id == skill_id && v.version_number == n)
          (select_versions user.organization_id db)
        ≡ []
      → NamesSkill user db skill_id
          (Request.review_version skill_id n)
          (version_not_found skill_id n)
  grant :
      (n : ℕ) (payload : ToolGrantRequest)
      → rows_where
          (λ v. v.skill_id == skill_id && v.version_number == n)
          (select_versions user.organization_id db)
        ≡ []
      → NamesSkill user db skill_id
          (Request.grant_tools skill_id n payload)
          (version_not_found skill_id n)

-- A request that names a skill of which the caller's organization has no row, or for a review and a
-- grant a version of which it has no row, answers 404, before any check of the role, the body or a
-- status, and leaves the database as it was. The answer does not depend on the rest of the
-- database, so what another organization has and what does not exist are answered alike.
pub handle-NamesSkill :
    (w : World) (user : User) (skill_id : Uuid) (request : Request) (e : Exception) (db : Db)
    (tick : ℕ)
    → NamesSkill user db skill_id request e
    → handle w user request db tick ≡ (err e, open_session db tick)
unfolding handle get_skill_detail update_skill create_version disable_skill activate review_version
    grant_tools lock_or_raise require_version require_skill lock_skill get_version
    get_skill_with_versions one_or_none or_raise
handle-NamesSkill w user skill_id request e db tick (NamesSkill.get h) = rw h refl
handle-NamesSkill w user skill_id request e db tick (NamesSkill.update_metadata payload h) =
    rw h refl
handle-NamesSkill w user skill_id request e db tick (NamesSkill.add_version payload h) = rw h refl
handle-NamesSkill w user skill_id request e db tick (NamesSkill.activate_version n h) = rw h refl
handle-NamesSkill w user skill_id request e db tick (NamesSkill.disable h) = rw h refl
handle-NamesSkill w user skill_id request e db tick (NamesSkill.review n h) = rw h refl
handle-NamesSkill w user skill_id request e db tick (NamesSkill.grant n payload h) = rw h refl
