-- ===== src/Models.antt =====
-- app/models: the rows of the six tables, and the assignments that the services make to a loaded
-- object. A UUID and a time are numbers, which the program compares, stores and prints.
pub mod Guard
use jarvis_skill_registry.Prelude.{
  ℕ, Text, is_some, Bool, true, false, ◌&&◌, Option, none, some, List, [], ◌∷◌,
}
use jarvis_skill_registry.Core.Enums.{
  UserRole, SkillStatus, VersionStatus, AuditEvent, is_owner_role,
}

abbrev pub Uuid : Type 0
Uuid = ℕ

abbrev pub Time : Type 0
Time = ℕ

pub record Organization : Type 0 where
  pub id : Uuid
  pub name : Text
  pub slug : Text
  pub created_at : Time

pub record User : Type 0 where
  pub id : Uuid
  pub organization_id : Uuid
  pub email : Text
  pub role : UserRole
  pub hashed_password : Text
  pub created_at : Time

-- `User.is_owner`
abbrev pub is_owner : User → Bool
is_owner u = is_owner_role u.role

pub record Skill : Type 0 where
  pub id : Uuid
  pub organization_id : Uuid
  pub name : Text
  pub department : Text
  pub description : Text
  pub status : SkillStatus
  pub created_by : Uuid
  pub created_at : Time
  pub updated_at : Time

pub record SkillVersion : Type 0 where
  pub id : Uuid
  pub skill_id : Uuid
  pub organization_id : Uuid
  pub version_number : ℕ
  pub prompt_body : Text
  pub requested_tools : List Text
  pub status : VersionStatus
  pub content_hash : Text
  pub created_by : Uuid
  pub created_at : Time
  pub reviewed_at : Option Time
  pub reviewed_by : Option Uuid
  pub activated_at : Option Time
  pub activated_by : Option Uuid

-- `SkillVersion.is_reviewed`
unfoldable pub is_reviewed : SkillVersion → Bool
unfolding is_some
is_reviewed v = is_some v.reviewed_at && is_some v.reviewed_by

pub record ToolGrant : Type 0 where
  pub id : Uuid
  pub organization_id : Uuid
  pub skill_version_id : Uuid
  pub tool_name : Text
  pub granted : Bool
  pub granted_by : Option Uuid
  pub granted_at : Option Time

-- The JSON payloads that the services record, one constructor for each shape; `empty` is `{}`.
pub data Payload : Type 0 where
  empty : Payload
  created : Text → Text → Payload
  version : List Text → Text → Payload
  changes : Option Text → Option Text → Payload
  reviewed_by : Uuid → Payload
  tools : List Text → Uuid → Payload
  superseded_by : ℕ → Payload
  activation : Text → Option ℕ → Payload
  name : Text → Payload

pub record AuditLog : Type 0 where
  pub id : Uuid
  pub organization_id : Uuid
  pub actor_user_id : Uuid
  pub event : AuditEvent
  pub skill_id : Option Uuid
  pub skill_version_id : Option Uuid
  pub version_number : Option ℕ
  pub payload : Payload
  pub created_at : Time

-- One assignment to an attribute of a loaded object.
pub data SkillSet : Type 0 where
  department description : Text → SkillSet
  status : SkillStatus → SkillSet
  updated_at : Time → SkillSet

pub data VersionSet : Type 0 where
  prompt_body content_hash : Text → VersionSet
  requested_tools : List Text → VersionSet
  version_number : ℕ → VersionSet
  organization_id skill_id : Uuid → VersionSet
  status : VersionStatus → VersionSet
  reviewed_at activated_at : Time → VersionSet
  reviewed_by activated_by : Uuid → VersionSet

pub data GrantSet : Type 0 where
  granted : Bool → GrantSet
  granted_by : Uuid → GrantSet
  granted_at : Time → GrantSet

abbrev pub assign_skill : SkillSet → Skill → Skill
assign_skill (SkillSet.department d) r = record r { department = d }
assign_skill (SkillSet.description d) r = record r { description = d }
assign_skill (SkillSet.status s) r = record r { status = s }
assign_skill (SkillSet.updated_at t) r = record r { updated_at = t }

abbrev pub assign_version : VersionSet → SkillVersion → SkillVersion
assign_version (VersionSet.prompt_body p) r = record r { prompt_body = p }
assign_version (VersionSet.content_hash h) r = record r { content_hash = h }
assign_version (VersionSet.requested_tools ts) r = record r { requested_tools = ts }
assign_version (VersionSet.version_number n) r = record r { version_number = n }
assign_version (VersionSet.organization_id o) r = record r { organization_id = o }
assign_version (VersionSet.skill_id k) r = record r { skill_id = k }
assign_version (VersionSet.status s) r = record r { status = s }
assign_version (VersionSet.reviewed_at t) r = record r { reviewed_at = some t }
assign_version (VersionSet.activated_at t) r = record r { activated_at = some t }
assign_version (VersionSet.reviewed_by u) r = record r { reviewed_by = some u }
assign_version (VersionSet.activated_by u) r = record r { activated_by = some u }

abbrev pub assign_grant : GrantSet → ToolGrant → ToolGrant
assign_grant (GrantSet.granted b) r = record r { granted = b }
assign_grant (GrantSet.granted_by u) r = record r { granted_by = some u }
assign_grant (GrantSet.granted_at t) r = record r { granted_at = some t }

-- The assignments in the order in which they are made.
abbrev pub assign_all {ℓ} : {S R : Type ℓ} → (S → R → R) → List S → R → R
assign_all f [] r = r
assign_all f (s ∷ ss) r = assign_all f ss (f s r)
