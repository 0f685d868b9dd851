-- ===== src/Services/Grants.antt =====
-- app/services/skills.py, `SkillService.grant_tools`.
use jarvis_skill_registry.Prelude.{
  ℕ, Text, text_eq, is_some, Bool, true, false, not, Option, none, some, List, [], ◌∷◌, ◌++◌, map,
  if◌then◌else◌,
}
use jarvis_skill_registry.Prelude.Sorting.{sort_by, insert, text_leb}
use jarvis_skill_registry.Core.Enums.{AuditEvent}
use jarvis_skill_registry.Core.Errors.{Exception, ErrorCode, Detail, unprocessable}
use jarvis_skill_registry.Core.Tools.{validate_requested_tools}
use jarvis_skill_registry.Models.{Uuid, Time, ToolGrant, Payload, GrantSet}
use jarvis_skill_registry.Database.Write.{Write}
use jarvis_skill_registry.Session.{
  World, Exec, pure, lift, raise_if, queue, draw_now, commit, ◌>>=◌, ◌>>◌,
}
use jarvis_skill_registry.Repository.{VersionDetail}
use jarvis_skill_registry.Services.Audit.{record_event}
use jarvis_skill_registry.Services.Skills.{
  SkillService, ToolGrantRequest, require_owner, require_version,
}

-- `by_name[name]`: a dictionary by comprehension, where a later grant wins.
unfoldable pub find_grant : Text → List ToolGrant → Option ToolGrant
unfolding text_eq
find_grant name [] = none
find_grant name (g ∷ gs) = elim (find_grant name gs) [
  | some later ↦ some later
  | none ↦ if text_eq g.tool_name name then some g else none
]

-- `[name for name in requested if name not in by_name]`
unfoldable pub missing_tools : List Text → List ToolGrant → List Text
unfolding find_grant is_some
missing_tools [] grants = []
missing_tools (name ∷ names) grants =
    let rest = missing_tools names grants in
    if is_some (find_grant name grants) then rest else name ∷ rest

abbrev pub is_empty : List Text → Bool
is_empty [] = true
is_empty (x ∷ xs) = false

unfoldable pub not_requested : List Text → List ToolGrant → Exception
unfolding sort_by insert text_leb
not_requested missing grants = Exception.domain (
    unprocessable ErrorCode.tool_not_requested
      (Detail.not_requested missing (sort_by text_leb (map (λ g. g.tool_name) grants))))

module _ (w : World) (svc : SkillService) where
  -- The body of the loop: a tool that is granted already is passed over.
  unfoldable pub grant_one : Time → Option ToolGrant → List Text → Exec (List Text)
  grant_one now none newly_granted = pure newly_granted
  grant_one now (some grant) newly_granted = if grant.granted then pure newly_granted else do
    queue (
        Write.update_grant grant
          (GrantSet.granted true ∷ GrantSet.granted_by svc.actor.id ∷ GrantSet.granted_at now ∷ []))
    pure (newly_granted ++ grant.tool_name ∷ [])

  unfoldable pub grant_all : Time → List ToolGrant → List Text → List Text → Exec (List Text)
  unfolding find_grant
  grant_all now grants [] newly_granted = pure newly_granted
  grant_all now grants (name ∷ names) newly_granted = do
    newly ← grant_one now (find_grant name grants) newly_granted
    grant_all now grants names newly

  unfoldable pub record_grants : VersionDetail → List Text → Exec (Unit {0})
  record_grants found [] = pure tt
  record_grants found (name ∷ names) = do
    record_event w svc.organization_id svc.actor AuditEvent.tool_granted none (some found.version)
        (Payload.tools (name ∷ names) svc.actor.id)
    pure tt

  unfoldable pub grant_found : Uuid → ℕ → VersionDetail → ToolGrantRequest → Exec VersionDetail
  grant_found skill_id version_number found payload = do
    requested ← lift (validate_requested_tools w.lower payload.tools)
    raise_if (not (is_empty (missing_tools requested found.tool_grants)))
        (not_requested (missing_tools requested found.tool_grants) found.tool_grants)
    now ← draw_now w
    newly_granted ← grant_all now found.tool_grants requested []
    record_grants found newly_granted
    commit
    require_version w svc skill_id version_number

  unfoldable pub grant_tools : Uuid → ℕ → ToolGrantRequest → Exec VersionDetail
  grant_tools skill_id version_number payload = do
    found ← require_version w svc skill_id version_number
    require_owner w svc
    grant_found skill_id version_number found payload
