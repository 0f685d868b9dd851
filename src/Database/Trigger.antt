-- ===== src/Database/Trigger.antt =====
-- alembic 0002, `skill_versions_forbid_active_mutation`: the BEFORE UPDATE row trigger. The
-- application's guard compares the session's objects; this compares the stored row.
use jarvis_skill_registry.Prelude.{Bool, true, false, not, ◌&&◌, ◌==◌, if◌then◌else◌}
use jarvis_skill_registry.Core.Enums.{VersionStatus, version_status_eq}
use jarvis_skill_registry.Models.{SkillVersion}
use jarvis_skill_registry.Models.Guard.{same_content}

abbrev pub stays_or_retires : VersionStatus → Bool
stays_or_retires VersionStatus.draft = false
stays_or_retires _ = true

-- `true` where the trigger returns NEW, `false` where it raises.
unfoldable pub trigger_accepts : SkillVersion → SkillVersion → Bool
unfolding same_content
trigger_accepts old new =
    if version_status_eq old.status VersionStatus.active
    then (if not (same_content new old)
        then false
        else if not (new.organization_id == old.organization_id && new.skill_id == old.skill_id)
        then false
        else stays_or_retires new.status)
    else true
