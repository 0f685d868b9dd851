-- ===== src/Services/Activation.antt =====
-- app/services/activation.py: `ActivationService.activate`.
use jarvis_skill_registry.Prelude.{
  ℕ, Bool, true, false, not, ◌==◌, Option, none, some, [], ◌∷◌, if◌then◌else◌,
}
use jarvis_skill_registry.Core.Enums.{SkillStatus, VersionStatus, AuditEvent, version_status_eq}
use jarvis_skill_registry.Core.Errors.{Exception, ErrorCode, Detail, conflict}
use jarvis_skill_registry.Models.{Uuid, Time, Skill, SkillVersion, Payload, VersionSet, is_reviewed}
use jarvis_skill_registry.Database.Write.{Write}
use jarvis_skill_registry.Session.{
  World, Exec, pure, raise_if, queue, draw_now, flush, commit, ◌>>=◌, ◌>>◌,
}
use jarvis_skill_registry.Repository.{VersionDetail, get_active_version}
use jarvis_skill_registry.Services.Audit.{record_event}
use jarvis_skill_registry.Services.Skills.{
  SkillService, require_owner, lock_or_raise, require_version, disabled_conflict, is_disabled,
  set_status,
}

pub record ActivationResult : Type 0 where
  pub version : VersionDetail
  pub changed : Bool

abbrev pub number_of : Option VersionDetail → Option ℕ
number_of none = none
number_of (some d) = some d.version.version_number

module _ (w : World) (svc : SkillService) where
  -- Step 4: only a reviewed draft of a skill that is not disabled can be activated.
  unfoldable pub check_activatable : Uuid → ℕ → Skill → SkillVersion → Exec (Unit {0})
  unfolding is_reviewed
  check_activatable skill_id version_number skill version = do
    raise_if (is_disabled skill) (disabled_conflict skill_id)
    raise_if (not (version_status_eq version.status VersionStatus.draft)) (
        Exception.domain (
          conflict ErrorCode.version_not_activatable
            (Detail.version_status version_number version.status)))
    raise_if (not (is_reviewed version)) (
        Exception.domain
          (conflict ErrorCode.version_not_reviewed (Detail.version_number version_number)))

  -- Step 5: the incumbent is superseded, and flushed, before its successor is activated.
  unfoldable pub supersede : Skill → SkillVersion → Option VersionDetail → Exec (Unit {0})
  supersede skill version none = pure tt
  supersede skill version (some incumbent) =
      if incumbent.version.id == version.id then pure tt else do
        queue (
            Write.update_version incumbent.version
              (VersionSet.status VersionStatus.superseded ∷ []))
        flush
        record_event w svc.organization_id svc.actor AuditEvent.version_superseded (some skill)
            (some incumbent.version) (Payload.superseded_by version.version_number)
        pure tt

  unfoldable pub mark_active : Time → SkillVersion → Exec (Unit {0})
  mark_active now version = queue (
      Write.update_version version (
        VersionSet.status VersionStatus.active
        ∷ VersionSet.activated_at now
        ∷ VersionSet.activated_by svc.actor.id
        ∷ []))

  -- From step 5 to the commit, and the version read again.
  unfoldable pub switch_versions : Uuid → ℕ → Skill → SkillVersion → Exec ActivationResult
  switch_versions skill_id version_number skill version = do
    now ← draw_now w
    incumbent ← get_active_version w svc.organization_id skill_id
    supersede skill version incumbent
    mark_active now version
    set_status w svc skill SkillStatus.active
    record_event w svc.organization_id svc.actor AuditEvent.version_activated (some skill)
        (some version) (Payload.activation version.content_hash (number_of incumbent))
    commit
    refreshed ← require_version w svc skill_id version_number
    pure (record { version = refreshed; changed = true })

  unfoldable pub activate_inactive : Uuid → ℕ → Skill → SkillVersion → Exec ActivationResult
  activate_inactive skill_id version_number skill version =
      check_activatable skill_id version_number skill version
      >> switch_versions skill_id version_number skill version

  unfoldable pub activate_found : Uuid → ℕ → Skill → VersionDetail → Exec ActivationResult
  activate_found skill_id version_number skill found =
      if version_status_eq found.version.status VersionStatus.active
      then pure (record { version = found; changed = false })
      else activate_inactive skill_id version_number skill found.version

  unfoldable pub activate : Uuid → ℕ → Exec ActivationResult
  activate skill_id version_number = do
    skill ← lock_or_raise w svc skill_id
    found ← require_version w svc skill_id version_number
    require_owner w svc
    activate_found skill_id version_number skill found
