-- ===== src/Services/Barred.antt =====
-- The conditions of app/services/skills.py that refuse a request on what the caller can see.
use jarvis_skill_registry.Prelude.{
  ℕ, ◌≡◌, ◌⊎◌, inl, inr, refl, Text, text_eq, true, false, ◌&&◌, ◌==◌, is_some, List, [], ◌∷◌,
}
use jarvis_skill_registry.Prelude.Tables.{rows_where}
use jarvis_skill_registry.Core.Enums.{VersionStatus}
use jarvis_skill_registry.Core.Errors.{ok, err, Exception, ErrorCode, Detail, conflict}
use jarvis_skill_registry.Core.Tools.{validate_requested_tools}
use jarvis_skill_registry.Models.{Uuid, User, Skill, SkillVersion, is_owner, is_reviewed}
use jarvis_skill_registry.Database.Constraints.{Db}
use jarvis_skill_registry.Repository.{
  select_skills, select_versions, load_version, lock_skill, get_version, get_skill, require_skill,
  find_skill_by_name,
}
use jarvis_skill_registry.Session.{World, open_session, one_or_none, or_raise, raise_if, lift}
use jarvis_skill_registry.Services.Skills.{
  SkillCreateRequest, SkillUpdateRequest, VersionCreateRequest, ToolGrantRequest, not_owner,
  disabled_conflict, name_conflict, is_disabled, lock_or_raise, require_version, require_owner,
  create_skill, update_skill, create_version, disable_skill, review_version, review_found,
  check_reviewable,
}
use jarvis_skill_registry.Services.Grants.{
  grant_tools, grant_found, missing_tools, is_empty, not_requested,
}
use jarvis_skill_registry.Api.Routes.{Request, handle}

-- The requests that are refused, with the error of each. Of one request, the cases exclude each
-- other: a later check of the code is a case only where the earlier ones pass.
pub data Barred (w : World) (user : User) (db : Db) : Request → Exception → Type 0 where
  disable_by_member :
      (skill_id : Uuid) (skill : Skill)
      → rows_where (λ s. s.id == skill_id) (select_skills user.organization_id db) ≡ skill ∷ []
      → is_owner user ≡ false
      → Barred w user db (Request.disable_skill skill_id) (not_owner user)
  grant_refused :
      (skill_id : Uuid) (n : ℕ) (payload : ToolGrantRequest) (version : SkillVersion)
      (e : Exception)
      → rows_where
          (λ v. v.skill_id == skill_id && v.version_number == n)
          (select_versions user.organization_id db)
        ≡ version ∷ []
      → is_owner user ≡ true
      → validate_requested_tools w.lower payload.tools ≡ err e
      → Barred w user db (Request.grant_tools skill_id n payload) e
  grant_unrequested :
      (skill_id : Uuid) (n : ℕ) (payload : ToolGrantRequest) (version : SkillVersion)
      (tools : List Text)
      → rows_where
          (λ v. v.skill_id == skill_id && v.version_number == n)
          (select_versions user.organization_id db)
        ≡ version ∷ []
      → is_owner user ≡ true
      → validate_requested_tools w.lower payload.tools ≡ ok tools
      → is_empty (missing_tools tools (load_version w db version).tool_grants) ≡ false
      → Barred w user db (Request.grant_tools skill_id n payload) (
          not_requested
            (missing_tools tools (load_version w db version).tool_grants)
            (load_version w db version).tool_grants)
  grant_by_member :
      (skill_id : Uuid) (n : ℕ) (payload : ToolGrantRequest) (version : SkillVersion)
      → rows_where
          (λ v. v.skill_id == skill_id && v.version_number == n)
          (select_versions user.organization_id db)
        ≡ version ∷ []
      → is_owner user ≡ false
      → Barred w user db (Request.grant_tools skill_id n payload) (not_owner user)
  name_taken :
      (payload : SkillCreateRequest) (skill : Skill)
      → rows_where (λ s. text_eq s.name payload.name) (select_skills user.organization_id db)
        ≡ skill ∷ []
      → Barred w user db (Request.create_skill payload) (name_conflict payload.name)
  tools_refused :
      (payload : SkillCreateRequest) (e : Exception)
      → rows_where (λ s. text_eq s.name payload.name) (select_skills user.organization_id db) ≡ []
      → validate_requested_tools w.lower payload.requested_tools ≡ err e
      → Barred w user db (Request.create_skill payload) e
  update_of_disabled :
      (skill_id : Uuid) (payload : SkillUpdateRequest) (skill : Skill)
      → rows_where (λ s. s.id == skill_id) (select_skills user.organization_id db) ≡ skill ∷ []
      → is_disabled skill ≡ true
      → Barred w user db (Request.update_skill skill_id payload) (disabled_conflict skill_id)
  version_of_disabled :
      (skill_id : Uuid) (payload : VersionCreateRequest) (skill : Skill)
      → rows_where (λ s. s.id == skill_id) (select_skills user.organization_id db) ≡ skill ∷ []
      → is_disabled skill ≡ true
      → Barred w user db (Request.create_version skill_id payload) (disabled_conflict skill_id)
  version_tools_refused :
      (skill_id : Uuid) (payload : VersionCreateRequest) (skill : Skill) (e : Exception)
      → rows_where (λ s. s.id == skill_id) (select_skills user.organization_id db) ≡ skill ∷ []
      → is_disabled skill ≡ false
      → validate_requested_tools w.lower payload.requested_tools ≡ err e
      → Barred w user db (Request.create_version skill_id payload) e
  review_of_active :
      (skill_id : Uuid) (n : ℕ) (version : SkillVersion)
      → rows_where
          (λ v. v.skill_id == skill_id && v.version_number == n)
          (select_versions user.organization_id db)
        ≡ version ∷ []
      → version.status ≡ VersionStatus.active
      → Barred w user db (Request.review_version skill_id n) (
          Exception.domain
            (conflict ErrorCode.active_version_immutable (Detail.version_status n version.status)))
  review_of_retired :
      (skill_id : Uuid) (n : ℕ) (version : SkillVersion)
      → rows_where
          (λ v. v.skill_id == skill_id && v.version_number == n)
          (select_versions user.organization_id db)
        ≡ version ∷ []
      → (version.status ≡ VersionStatus.superseded) ⊎ (version.status ≡ VersionStatus.disabled)
      → Barred w user db (Request.review_version skill_id n) (
          Exception.domain
            (conflict ErrorCode.version_not_activatable (Detail.version_status n version.status)))
  review_again :
      (skill_id : Uuid) (n : ℕ) (version : SkillVersion)
      → rows_where
          (λ v. v.skill_id == skill_id && v.version_number == n)
          (select_versions user.organization_id db)
        ≡ version ∷ []
      → version.status ≡ VersionStatus.draft
      → is_reviewed version ≡ true
      → Barred w user db
          (Request.review_version skill_id n)
          (Exception.domain (conflict ErrorCode.version_already_reviewed (Detail.version_number n)))

-- What the caller may not do to what the organization has is refused, each time with its own error
-- and the database left as it was: to create a skill of a name that is taken, or with tools that
-- the validation refuses; to update or extend a disabled skill, or to extend another with such
-- tools; to disable a skill or grant tools without being an owner, and as an owner to grant tools
-- that the validation refuses or that the version did not request; and to review a version that is
-- active, that is superseded or disabled, reviewed or not, or a draft that has been reviewed.
pub handle-Barred :
    (w : World) (user : User) (db : Db) (tick : ℕ) (request : Request) (e : Exception)
    → Barred w user db request e
    → handle w user request db tick ≡ (err e, open_session db tick)
unfolding handle lock_or_raise require_version require_owner lock_skill get_version get_skill
    require_skill find_skill_by_name one_or_none or_raise raise_if lift create_skill update_skill
    create_version disable_skill grant_tools grant_found review_version review_found
    check_reviewable is_some
handle-Barred w user db tick _ _ (Barred.disable_by_member id skill seen member) =
    rw (seen, member) refl
handle-Barred w user db tick _ _ (Barred.grant_refused id n payload version e seen owner bad) =
    rw (seen, owner, bad) refl
handle-Barred w user db tick _ _
      (Barred.grant_unrequested id n payload version tools seen owner good missing) =
    rw (seen, owner, good, missing) refl
handle-Barred w user db tick _ _ (Barred.grant_by_member id n payload version seen member) =
    rw (seen, member) refl
handle-Barred w user db tick _ _ (Barred.name_taken payload skill taken) = rw taken refl
handle-Barred w user db tick _ _ (Barred.tools_refused payload e unused bad) = rw (unused, bad) refl
handle-Barred w user db tick _ _ (Barred.update_of_disabled id payload skill seen off) =
    rw (seen, off) refl
handle-Barred w user db tick _ _ (Barred.version_of_disabled id payload skill seen off) =
    rw (seen, off) refl
handle-Barred w user db tick _ _ (Barred.version_tools_refused id payload skill e seen on bad) =
    rw (seen, on, bad) refl
handle-Barred w user db tick _ _ (Barred.review_of_active id n version seen active) =
    rw (seen, active) refl
handle-Barred w user db tick _ _ (Barred.review_of_retired id n version seen (inl superseded)) =
    rw (seen, superseded) refl
handle-Barred w user db tick _ _ (Barred.review_of_retired id n version seen (inr disabled)) =
    rw (seen, disabled) refl
handle-Barred w user db tick _ _ (Barred.review_again id n version seen draft reviewed) =
    rw (seen, draft, reviewed) refl
