-- ===== src/Services/Discipline.antt =====
-- What the services ever do to a session: which rows they add, which assignments they make to
-- which loaded objects, and nothing else. A predicate that has these rules is kept by every
-- request (Services/Walk), so each invariant of the program is one value of this record.
use jarvis_skill_registry.Prelude.{ℕ, ◌≡◌, Text, true, false, none, List, [], ◌∷◌}
use jarvis_skill_registry.Prelude.Tables.{Row}
use jarvis_skill_registry.Core.Enums.{SkillStatus, VersionStatus}
use jarvis_skill_registry.Core.Errors.{ok}
use jarvis_skill_registry.Core.Tools.{validate_requested_tools}
use jarvis_skill_registry.Models.{
  Time, Skill, SkillVersion, ToolGrant, AuditLog, SkillSet, VersionSet, GrantSet, is_owner,
  is_reviewed,
}
use jarvis_skill_registry.Database.Write.{Write}
use jarvis_skill_registry.Session.{World, Session, flush, mark_durable, rollback, queue}
use jarvis_skill_registry.Session.Keeps.{Keeps}
use jarvis_skill_registry.Session.Yields.{Drawn}
use jarvis_skill_registry.Repository.{VersionDetail, select_skills}
use jarvis_skill_registry.Repository.Reads.{IsLoaded}
use jarvis_skill_registry.Services.Hashing.{hash_version}
use jarvis_skill_registry.Services.Skills.{SkillService}

-- The updates of a loaded version: review of an unreviewed draft by anyone, and activation of a
-- reviewed draft, supersession and disabling of an active version by an owner.
pub data VersionStep (svc : SkillService) (v : SkillVersion) : List VersionSet → Type 0 where
  review :
      (now : Time)
      → v.status ≡ VersionStatus.draft
      → is_reviewed v ≡ false
      → VersionStep svc v (VersionSet.reviewed_at now ∷ VersionSet.reviewed_by svc.actor.id ∷ [])
  activate :
      (now : Time)
      → is_owner svc.actor ≡ true
      → v.status ≡ VersionStatus.draft
      → is_reviewed v ≡ true
      → VersionStep svc v (
          VersionSet.status VersionStatus.active
          ∷ VersionSet.activated_at now
          ∷ VersionSet.activated_by svc.actor.id
          ∷ [])
  supersede :
      is_owner svc.actor ≡ true
      → v.status ≡ VersionStatus.active
      → VersionStep svc v (VersionSet.status VersionStatus.superseded ∷ [])
  disable :
      is_owner svc.actor ≡ true
      → v.status ≡ VersionStatus.active
      → VersionStep svc v (VersionSet.status VersionStatus.disabled ∷ [])

-- How a request can change the table of versions.
pub data StepKind : Type 0 where
  create review activate supersede disable : StepKind

abbrev pub kind_of :
    {svc : SkillService} {v : SkillVersion} {sets : List VersionSet}
    → VersionStep svc v sets
    → StepKind
kind_of (VersionStep.review _ _ _) = StepKind.review
kind_of (VersionStep.activate _ _ _ _) = StepKind.activate
kind_of (VersionStep.supersede _ _) = StepKind.supersede
kind_of (VersionStep.disable _ _) = StepKind.disable

-- The one update of a grant: from ungranted to granted, by an owner.
pub data GrantStep (svc : SkillService) (g : ToolGrant) : List GrantSet → Type 0 where
  grant :
      (now : Time)
      → is_owner svc.actor ≡ true
      → g.granted ≡ false
      → GrantStep svc g
          (GrantSet.granted true ∷ GrantSet.granted_by svc.actor.id ∷ GrantSet.granted_at now ∷ [])

pub record NewSkill (w : World) (svc : SkillService) (r : Skill) : Type 0 where
  pub drawn : Drawn w r.id
  pub org : r.organization_id ≡ svc.organization_id
  pub status : r.status ≡ SkillStatus.draft
  pub creator : r.created_by ≡ svc.actor.id

pub record NewVersion (w : World) (svc : SkillService) (r : SkillVersion) : Type 0 where
  pub drawn : Drawn w r.id
  pub org : r.organization_id ≡ svc.organization_id
  pub status : r.status ≡ VersionStatus.draft
  pub unreviewed : r.reviewed_by ≡ none
  pub unactivated : r.activated_by ≡ none
  pub tools : (names : List Text) × (validate_requested_tools w.lower names ≡ ok r.requested_tools)
  pub hash :
      r.content_hash
      ≡ hash_version w.sha256 r.organization_id r.skill_id r.version_number r.prompt_body
          r.requested_tools

pub record NewGrant (w : World) (svc : SkillService) (r : ToolGrant) : Type 0 where
  pub drawn : Drawn w r.id
  pub version : Drawn w r.skill_version_id
  pub org : r.organization_id ≡ svc.organization_id
  pub ungranted : r.granted ≡ false

pub record NewAudit (w : World) (svc : SkillService) (r : AuditLog) : Type 0 where
  pub drawn : Drawn w r.id
  pub org : r.organization_id ≡ svc.organization_id
  pub actor : r.actor_user_id ≡ svc.actor.id

module _ (w : World) (svc : SkillService) (P : Session → Type 0) where
  pub record Discipline : Type 1 where
    -- The changes of versions that may happen.
    pub may : StepKind → Type 0
    -- What `P` lets be said of a row that was read.
    pub OwnSkill : Skill → Type 0
    pub OwnVersion : SkillVersion → Type 0
    pub OwnGrant : ToolGrant → Type 0
    pub read_skill :
        (s : Session) (r : Skill)
        → P s
        → Row r (select_skills svc.organization_id s.working)
        → OwnSkill r
    pub read_version :
        (s : Session) (d : VersionDetail)
        → P s
        → IsLoaded w svc.organization_id s d
        → OwnVersion d.version
    pub read_grant :
        (s : Session) (d : VersionDetail) (g : ToolGrant)
        → P s
        → IsLoaded w svc.organization_id s d
        → Row g d.tool_grants
        → OwnGrant g
    pub still : (s : Session) (n : ℕ) → P s → P (record s { tick = n })
    pub flushes : Keeps P flush
    pub commits : Keeps P mark_durable
    pub rolls_back : Keeps P rollback
    pub add_skill : (r : Skill) → NewSkill w svc r → Keeps P (queue (Write.insert_skill r))
    pub add_version :
        (r : SkillVersion)
        → NewVersion w svc r
        → may StepKind.create
        → Keeps P (queue (Write.insert_version r))
    pub add_grant : (r : ToolGrant) → NewGrant w svc r → Keeps P (queue (Write.insert_grant r))
    pub add_audit : (r : AuditLog) → NewAudit w svc r → Keeps P (queue (Write.insert_audit r))
    pub set_skill :
        (r : Skill) (sets : List SkillSet)
        → OwnSkill r
        → Keeps P (queue (Write.update_skill r sets))
    pub set_version :
        (r : SkillVersion) (sets : List VersionSet)
        → OwnVersion r
        → (step : VersionStep svc r sets) → may (kind_of step)
        → Keeps P (queue (Write.update_version r sets))
    pub set_grant :
        (r : ToolGrant) (sets : List GrantSet)
        → OwnGrant r
        → GrantStep svc r sets
        → Keeps P (queue (Write.update_grant r sets))
