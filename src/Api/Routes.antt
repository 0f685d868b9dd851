-- ===== src/Api/Routes.antt =====
-- app/api/routers: one request of an authenticated user, from the route's handler to its answer and
-- the durable state that it leaves.
use jarvis_skill_registry.Prelude.{ℕ, Text, Bool, Option, List, map}
use jarvis_skill_registry.Prelude.Tables.{rows_where}
use jarvis_skill_registry.Core.Errors.{Result}
use jarvis_skill_registry.Models.{Uuid, Time, User, Skill, ToolGrant, AuditLog}
use jarvis_skill_registry.Database.Constraints.{Db}
use jarvis_skill_registry.Session.{World, Session, Exec, pure, with_session, ◌>>=◌}
use jarvis_skill_registry.Repository
use jarvis_skill_registry.Repository.{SkillDetail, VersionDetail}
use jarvis_skill_registry.Services.Audit
use jarvis_skill_registry.Services.Skills
use jarvis_skill_registry.Services.Skills.{
  SkillService, SkillCreateRequest, SkillUpdateRequest, VersionCreateRequest, ToolGrantRequest,
}
use jarvis_skill_registry.Services.Grants
use jarvis_skill_registry.Services.Activation

-- `ActiveSkillResponse`: what the runtime loads.
pub record ActiveSkillResponse : Type 0 where
  pub skill_id : Uuid
  pub organization_id : Uuid
  pub name : Text
  pub department : Text
  pub description : Text
  pub version_id : Uuid
  pub version_number : ℕ
  pub prompt_body : Text
  pub content_hash : Text
  pub granted_tools : List Text
  pub activated_at : Option Time

-- `[g.tool_name for g in version.tool_grants if g.granted]`
unfoldable pub granted_tools : List ToolGrant → List Text
unfolding rows_where
granted_tools grants = map (λ g. g.tool_name) (rows_where (λ g. g.granted) grants)

unfoldable pub active_skill_response : Skill × VersionDetail → ActiveSkillResponse
unfolding granted_tools
active_skill_response (skill, found) = record {
  skill_id = skill.id;
  organization_id = skill.organization_id;
  name = skill.name;
  department = skill.department;
  description = skill.description;
  version_id = found.version.id;
  version_number = found.version.version_number;
  prompt_body = found.version.prompt_body;
  content_hash = found.version.content_hash;
  granted_tools = granted_tools found.tool_grants;
  activated_at = found.version.activated_at;
}

-- The routes of skills.py and audit.py, with their path, query and body parameters.
pub data Request : Type 0 where
  list_active_skills : Option Text → Request
  create_skill : SkillCreateRequest → Request
  list_skills : Request
  get_skill : Uuid → Request
  update_skill : Uuid → SkillUpdateRequest → Request
  create_version : Uuid → VersionCreateRequest → Request
  review_version : Uuid → ℕ → Request
  activate_version : Uuid → ℕ → Request
  grant_tools : Uuid → ℕ → ToolGrantRequest → Request
  disable_skill : Uuid → Request
  list_audit : ℕ → Request

-- The bodies of the answers. `SkillDetailResponse` and the others have the fields of the rows.
pub data Response : Type 0 where
  active_skills : List ActiveSkillResponse → Response
  skills : List Skill → Response
  skill : SkillDetail → Response
  version : VersionDetail → Response
  activation : VersionDetail → Bool → Response
  audit : List AuditLog → Response

-- `get_repository` and `get_skill_service`: the repository has the user's own organization.
abbrev pub get_skill_service : User → SkillService
get_skill_service user = record { organization_id = user.organization_id; actor = user }

module _ (w : World) (svc : SkillService) where
  unfoldable pub route : Request → Exec Response
  unfolding ◌>>=◌ active_skill_response
  route (Request.list_active_skills department) = do
    rows ← Repository.active_skill_versions w svc.organization_id department
    pure (Response.active_skills (map active_skill_response rows))
  route (Request.create_skill payload) = do
    detail ← Skills.create_skill w svc payload
    pure (Response.skill detail)
  route Request.list_skills = do
    rows ← Repository.list_skills w svc.organization_id
    pure (Response.skills rows)
  route (Request.get_skill skill_id) = do
    detail ← Skills.get_skill_detail w svc skill_id
    pure (Response.skill detail)
  route (Request.update_skill skill_id payload) = do
    detail ← Skills.update_skill w svc skill_id payload
    pure (Response.skill detail)
  route (Request.create_version skill_id payload) = do
    detail ← Skills.create_version w svc skill_id payload
    pure (Response.version detail)
  route (Request.review_version skill_id version_number) = do
    detail ← Skills.review_version w svc skill_id version_number
    pure (Response.version detail)
  route (Request.activate_version skill_id version_number) = do
    result ← Activation.activate w svc skill_id version_number
    pure (Response.activation result.version result.changed)
  route (Request.grant_tools skill_id version_number payload) = do
    detail ← Grants.grant_tools w svc skill_id version_number payload
    pure (Response.version detail)
  route (Request.disable_skill skill_id) = do
    detail ← Skills.disable_skill w svc skill_id
    pure (Response.skill detail)
  route (Request.list_audit limit) = do
    rows ← Audit.list_entries w svc.organization_id limit
    pure (Response.audit rows)

-- One request: the answer, the durable state and the counter of the world's answers.
unfoldable pub handle : World → User → Request → Db → ℕ → Result Response × Session
unfolding route with_session
handle w user request db tick = with_session (route w (get_skill_service user) request) db tick
