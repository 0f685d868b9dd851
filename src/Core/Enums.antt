-- ===== src/Core/Enums.antt =====
-- app/core/enums.py: the domain enumerations and their `.value` texts. A status column holds one
-- of these values (its CHECK constraint), so a column of the model has the enumeration as its type.
use jarvis_skill_registry.Prelude.{Bool, true, false, Text, codes}

pub data UserRole : Type 0 where
  owner member : UserRole

pub data SkillStatus : Type 0 where
  draft active disabled : SkillStatus

pub data VersionStatus : Type 0 where
  draft active superseded disabled : VersionStatus

pub data AuditEvent : Type 0 where
  skill_created skill_updated skill_disabled : AuditEvent
  version_created version_reviewed version_activated version_superseded : AuditEvent
  version_disabled tool_granted : AuditEvent

-- `==` on each of them.
abbrev pub is_owner_role : UserRole → Bool
is_owner_role UserRole.owner = true
is_owner_role UserRole.member = false

abbrev pub skill_status_eq : SkillStatus → SkillStatus → Bool
skill_status_eq SkillStatus.draft SkillStatus.draft = true
skill_status_eq SkillStatus.active SkillStatus.active = true
skill_status_eq SkillStatus.disabled SkillStatus.disabled = true
skill_status_eq _ _ = false

abbrev pub version_status_eq : VersionStatus → VersionStatus → Bool
version_status_eq VersionStatus.draft VersionStatus.draft = true
version_status_eq VersionStatus.active VersionStatus.active = true
version_status_eq VersionStatus.superseded VersionStatus.superseded = true
version_status_eq VersionStatus.disabled VersionStatus.disabled = true
version_status_eq _ _ = false

-- The `.value` of a role and of an event, as the token and the log carry it.
unfoldable pub role_value : UserRole → Text
role_value UserRole.owner = codes "owner"
role_value UserRole.member = codes "member"

unfoldable pub event_value : AuditEvent → Text
event_value AuditEvent.skill_created = codes "skill.created"
event_value AuditEvent.skill_updated = codes "skill.updated"
event_value AuditEvent.skill_disabled = codes "skill.disabled"
event_value AuditEvent.version_created = codes "skill_version.created"
event_value AuditEvent.version_reviewed = codes "skill_version.reviewed"
event_value AuditEvent.version_activated = codes "skill_version.activated"
event_value AuditEvent.version_superseded = codes "skill_version.superseded"
event_value AuditEvent.version_disabled = codes "skill_version.disabled"
event_value AuditEvent.tool_granted = codes "tool_grant.granted"
