-- ===== src/Services/Skills.antt =====
-- app/services/skills.py: `class SkillService`, method by method. The service has the repository of
-- one organization and one actor; both come from the authenticated user (app/api/deps.py).
use jarvis_skill_registry.Prelude.{
  ℕ, Text, text_eq, is_some, Bool, false, not, ◌&&◌, ◌||◌, Option, none, some, List, [], ◌∷◌, ◌++◌,
  if◌then◌else◌,
}
use jarvis_skill_registry.Core.Enums.{
  SkillStatus, VersionStatus, AuditEvent, skill_status_eq, version_status_eq,
}
use jarvis_skill_registry.Core.Errors.{
  Exception, ErrorCode, Detail, Constraint, conflict, permission_denied, resource_not_found,
}
use jarvis_skill_registry.Core.Tools.{validate_requested_tools}
use jarvis_skill_registry.Models.{
  Uuid, Time, User, Skill, SkillVersion, Payload, SkillSet, VersionSet, is_owner, is_reviewed,
  assign_skill, assign_all,
}
use jarvis_skill_registry.Database.Write.{Write}
use jarvis_skill_registry.Session.{
  World, Exec, pure, raise, lift, raise_if, or_raise, queue, draw_uuid, draw_now, flush, commit,
  rollback, attempt, ◌>>=◌, ◌>>◌,
}
use jarvis_skill_registry.Repository.{
  SkillDetail, VersionDetail, require_skill, get_skill_with_versions, get_version,
  get_active_version, lock_skill, next_version_number, find_skill_by_name,
}
use jarvis_skill_registry.Services.Hashing.{hash_version}
use jarvis_skill_registry.Services.Audit.{unset, add_skill, add_version, add_grant, record_event}

pub record SkillCreateRequest : Type 0 where
  pub name : Text
  pub department : Text
  pub description : Text
  pub prompt_body : Text
  pub requested_tools : List Text

pub record SkillUpdateRequest : Type 0 where
  pub department : Option Text
  pub description : Option Text

pub record VersionCreateRequest : Type 0 where
  pub prompt_body : Text
  pub requested_tools : List Text

pub record ToolGrantRequest : Type 0 where
  pub tools : List Text

pub record SkillService : Type 0 where
  pub organization_id : Uuid
  pub actor : User

-- Guards.

abbrev pub not_owner : User → Exception
not_owner actor =
    Exception.domain (permission_denied ErrorCode.not_org_owner (Detail.actor_role actor.role))

abbrev pub skill_not_found : Uuid → Exception
skill_not_found skill_id =
    Exception.domain (resource_not_found ErrorCode.skill_not_found (Detail.skill_id skill_id))

abbrev pub version_not_found : Uuid → ℕ → Exception
version_not_found skill_id n =
    Exception.domain
      (resource_not_found ErrorCode.skill_version_not_found (Detail.skill_version skill_id n))

abbrev pub disabled_conflict : Uuid → Exception
disabled_conflict skill_id =
    Exception.domain (conflict ErrorCode.skill_disabled (Detail.skill_id skill_id))

abbrev pub name_conflict : Text → Exception
name_conflict name = Exception.domain (conflict ErrorCode.skill_name_conflict (Detail.name name))

abbrev pub is_disabled : Skill → Bool
is_disabled s = skill_status_eq s.status SkillStatus.disabled

module _ (w : World) (svc : SkillService) where
  unfoldable pub require_owner : Exec (Unit {0})
  require_owner = raise_if (not (is_owner svc.actor)) (not_owner svc.actor)

  -- `_lock_skill`
  unfoldable pub lock_or_raise : Uuid → Exec Skill
  lock_or_raise skill_id = do
    found ← lock_skill w svc.organization_id skill_id
    or_raise found (skill_not_found skill_id)

  unfoldable pub require_version : Uuid → ℕ → Exec VersionDetail
  require_version skill_id version_number = do
    found ← get_version w svc.organization_id skill_id version_number
    or_raise found (version_not_found skill_id version_number)

  unfoldable pub get_skill_detail : Uuid → Exec SkillDetail
  get_skill_detail skill_id = do
    found ← get_skill_with_versions w svc.organization_id skill_id
    or_raise found (skill_not_found skill_id)

  -- Assignments to the attributes of a loaded skill. A column that does not change is not written,
  -- and `updated_at` follows only a change.
  unfoldable pub assign_metadata : Skill → List SkillSet → Exec (Unit {0})
  assign_metadata skill sets = do
    now ← draw_now w
    queue (Write.update_skill skill (sets ++ SkillSet.updated_at now ∷ []))

  unfoldable pub set_metadata : Skill → List SkillSet → Exec (Unit {0})
  unfolding text_eq
  set_metadata skill sets =
      let target = assign_all assign_skill sets skill in
      if text_eq target.department skill.department && text_eq target.description skill.description
      then pure tt
      else assign_metadata skill sets

  unfoldable pub set_status : Skill → SkillStatus → Exec (Unit {0})
  set_status skill status =
      if skill_status_eq skill.status status
      then pure tt
      else assign_metadata skill (SkillSet.status status ∷ [])

  -- The loop that records an ungranted request for each tool.
  unfoldable pub add_requests : Uuid → List Text → Exec (Unit {0})
  add_requests version_id [] = pure tt
  add_requests version_id (tool_name ∷ tools) = do
    id ← draw_uuid w
    add_grant svc.organization_id (record {
      id = id;
      organization_id = unset;
      skill_version_id = version_id;
      tool_name = tool_name;
      granted = false;
      granted_by = none;
      granted_at = none;
    })
    add_requests version_id tools

  -- The `SkillVersion(...)` and `Skill(...)` calls; `add` overwrites the organization.
  unfoldable pub version_row : Skill → ℕ → Text → List Text → Uuid → Time → SkillVersion
  unfolding hash_version
  version_row skill version_number prompt_body tools id created_at = record {
    id = id;
    skill_id = skill.id;
    organization_id = unset;
    version_number = version_number;
    prompt_body = prompt_body;
    requested_tools = tools;
    status = VersionStatus.draft;
    content_hash =
        hash_version w.sha256 svc.organization_id skill.id version_number prompt_body tools;
    created_by = svc.actor.id;
    created_at = created_at;
    reviewed_at = none;
    reviewed_by = none;
    activated_at = none;
    activated_by = none;
  }

  -- The first flush gives the version its id, which the requests need; the second writes them.
  unfoldable pub flush_with_requests : SkillVersion → List Text → Exec SkillVersion
  flush_with_requests version tools = do flush; add_requests version.id tools; flush; pure version

  unfoldable pub store_version : SkillVersion → List Text → Exec SkillVersion
  store_version row tools = do
    version ← add_version svc.organization_id row
    flush_with_requests version tools

  unfoldable pub create_version_row : Skill → ℕ → Text → List Text → Exec SkillVersion
  create_version_row skill version_number prompt_body tools = do
    id ← draw_uuid w
    created_at ← draw_now w
    store_version (version_row skill version_number prompt_body tools id created_at) tools

  -- `except IntegrityError` around the first flush of `create_skill`.
  unfoldable pub translate_conflict : Text → Option Exception → Exec (Unit {0})
  translate_conflict name none = pure tt
  translate_conflict name (some (Exception.integrity Constraint.uq_skills_organization_id_name)) =
      do rollback; raise (name_conflict name)
  translate_conflict name (some (Exception.integrity c)) = do
    rollback
    raise (Exception.integrity c)
  translate_conflict name (some e) = raise e

  unfoldable pub skill_row : SkillCreateRequest → Uuid → Time → Time → Skill
  skill_row payload id created_at updated_at = record {
    id = id;
    organization_id = unset;
    name = payload.name;
    department = payload.department;
    description = payload.description;
    status = SkillStatus.draft;
    created_by = svc.actor.id;
    created_at = created_at;
    updated_at = updated_at;
  }

  -- The `try` around the first flush.
  unfoldable pub flush_new_skill : Skill → Exec Skill
  flush_new_skill skill = do
    failure ← attempt flush
    translate_conflict skill.name failure
    pure skill

  unfoldable pub store_skill : Skill → Exec Skill
  store_skill row = do skill ← add_skill svc.organization_id row; flush_new_skill skill

  unfoldable pub record_creation : Skill → SkillVersion → List Text → Exec (Unit {0})
  record_creation skill version tools = do
    record_event w svc.organization_id svc.actor AuditEvent.skill_created (some skill) none
        (Payload.created skill.name skill.department)
    record_event w svc.organization_id svc.actor AuditEvent.version_created (some skill)
        (some version) (Payload.version tools version.content_hash)
    pure tt

  unfoldable pub create_skill : SkillCreateRequest → Exec SkillDetail
  create_skill payload = do
    existing ← find_skill_by_name svc.organization_id payload.name
    raise_if (is_some existing) (name_conflict payload.name)
    tools ← lift (validate_requested_tools w.lower payload.requested_tools)
    id ← draw_uuid w
    created_at ← draw_now w
    updated_at ← draw_now w
    skill ← store_skill (skill_row payload id created_at updated_at)
    version ← create_version_row skill 1 payload.prompt_body tools
    record_creation skill version tools
    commit
    get_skill_detail skill.id

  -- `if payload.x is not None: skill.x = payload.x`
  abbrev pub metadata_sets : SkillUpdateRequest → List SkillSet
  metadata_sets payload =
      elim payload.department [ none ↦ [] | some d ↦ SkillSet.department d ∷ [] ]
      ++ elim payload.description [ none ↦ [] | some d ↦ SkillSet.description d ∷ [] ]

  unfoldable pub record_changes : Skill → SkillUpdateRequest → Exec (Unit {0})
  unfolding is_some
  record_changes skill payload =
      if is_some payload.department || is_some payload.description
      then (do
        record_event w svc.organization_id svc.actor AuditEvent.skill_updated (some skill) none
            (Payload.changes payload.department payload.description)
        pure tt)
      else pure tt

  unfoldable pub update_skill : Uuid → SkillUpdateRequest → Exec SkillDetail
  update_skill skill_id payload = do
    skill ← require_skill w svc.organization_id skill_id
    raise_if (is_disabled skill) (disabled_conflict skill_id)
    set_metadata skill (metadata_sets payload)
    record_changes skill payload
    commit
    get_skill_detail skill.id

  unfoldable pub create_version : Uuid → VersionCreateRequest → Exec VersionDetail
  create_version skill_id payload = do
    skill ← lock_or_raise skill_id
    raise_if (is_disabled skill) (disabled_conflict skill_id)
    tools ← lift (validate_requested_tools w.lower payload.requested_tools)
    next_number ← next_version_number svc.organization_id skill_id
    version ← create_version_row skill next_number payload.prompt_body tools
    record_event w svc.organization_id svc.actor AuditEvent.version_created (some skill)
        (some version) (Payload.version tools version.content_hash)
    commit
    require_version skill_id next_number

  -- Only a draft that nobody has reviewed can be reviewed.
  unfoldable pub check_reviewable : ℕ → SkillVersion → Exec (Unit {0})
  unfolding is_reviewed
  check_reviewable version_number version = do
    raise_if (version_status_eq version.status VersionStatus.active) (
        Exception.domain (
          conflict ErrorCode.active_version_immutable
            (Detail.version_status version_number version.status)))
    raise_if (not (version_status_eq version.status VersionStatus.draft)) (
        Exception.domain (
          conflict ErrorCode.version_not_activatable
            (Detail.version_status version_number version.status)))
    raise_if (is_reviewed version) (
        Exception.domain
          (conflict ErrorCode.version_already_reviewed (Detail.version_number version_number)))

  unfoldable pub mark_reviewed : SkillVersion → Exec (Unit {0})
  mark_reviewed version = do
    now ← draw_now w
    queue (
        Write.update_version version
          (VersionSet.reviewed_at now ∷ VersionSet.reviewed_by svc.actor.id ∷ []))

  unfoldable pub finish_review : Uuid → ℕ → SkillVersion → Exec VersionDetail
  finish_review skill_id version_number version = do
    mark_reviewed version
    record_event w svc.organization_id svc.actor AuditEvent.version_reviewed none (some version)
        (Payload.reviewed_by svc.actor.id)
    commit
    require_version skill_id version_number

  unfoldable pub review_found : Uuid → ℕ → SkillVersion → Exec VersionDetail
  review_found skill_id version_number version =
      check_reviewable version_number version >> finish_review skill_id version_number version

  unfoldable pub review_version : Uuid → ℕ → Exec VersionDetail
  review_version skill_id version_number = do
    found ← require_version skill_id version_number
    review_found skill_id version_number found.version

  -- active -> disabled, one of the two legal transitions out of active.
  unfoldable pub disable_version : Skill → Option VersionDetail → Exec (Unit {0})
  disable_version skill none = pure tt
  disable_version skill (some active) = do
    queue (Write.update_version active.version (VersionSet.status VersionStatus.disabled ∷ []))
    record_event w svc.organization_id svc.actor AuditEvent.version_disabled (some skill)
        (some active.version) Payload.empty
    pure tt

  unfoldable pub disable_enabled : Uuid → Skill → Exec SkillDetail
  disable_enabled skill_id skill = do
    active_version ← get_active_version w svc.organization_id skill_id
    disable_version skill active_version
    set_status skill SkillStatus.disabled
    record_event w svc.organization_id svc.actor AuditEvent.skill_disabled (some skill) none
        (Payload.name skill.name)
    commit
    get_skill_detail skill_id

  unfoldable pub disable_skill : Uuid → Exec SkillDetail
  disable_skill skill_id = do
    skill ← lock_or_raise skill_id
    require_owner
    if is_disabled skill then get_skill_detail skill_id else disable_enabled skill_id skill
