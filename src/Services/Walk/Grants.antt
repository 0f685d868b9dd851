-- ===== src/Services/Walk/Grants.antt =====
-- `SkillService.grant_tools` keeps a predicate with the rules of `Discipline`.
use jarvis_skill_registry.Prelude.{
  ℕ, ◌≡◌, refl, Text, text_eq, Bool, true, false, Option, none, some, List, [], ◌∷◌, inl, inr,
  if◌then◌else◌,
}
use jarvis_skill_registry.Prelude.Tables.{Row}
use jarvis_skill_registry.Core.Enums.{AuditEvent}
use jarvis_skill_registry.Core.Tools.{validate_requested_tools}
use jarvis_skill_registry.Models.{Uuid, Time, ToolGrant, Payload, is_owner}
use jarvis_skill_registry.Session.{World, Session, lift, draw_now}
use jarvis_skill_registry.Session.Keeps.{
  Keeps, Keeps-bind, Keeps-then, Keeps-if, Keeps-pure, Keeps-raise_if, Keeps-lift,
}
use jarvis_skill_registry.Repository.{VersionDetail}
use jarvis_skill_registry.Services.Skills.{
  SkillService, ToolGrantRequest, require_owner, require_version,
}
use jarvis_skill_registry.Services.Grants.{
  find_grant, grant_one, grant_all, record_grants, grant_found, grant_tools,
}
use jarvis_skill_registry.Services.Discipline.{Discipline, GrantStep}
use jarvis_skill_registry.Services.Walk.{
  walk-draw_now, walk-commit, walk-record_event, Keeps-require_version, Keeps-require_owner,
  required-IsLoaded, required_owner,
}

module _ {P : Session → Type 0} (w : World) (svc : SkillService) (d : Discipline w svc P) where
  open d use {OwnSkill, OwnVersion, OwnGrant}

  -- The grants of a version that was read, each one the service's own.
  abbrev OwnGrants : List ToolGrant → Type 0
  OwnGrants rows = (g : ToolGrant) → Row g rows → OwnGrant g

  -- What a lookup by name finds.
  abbrev OwnFound : Option ToolGrant → Type 0
  OwnFound none = Unit
  OwnFound (some g) = OwnGrant g

  find_grant-Own :
      (name : Text) (rows : List ToolGrant) → OwnGrants rows → OwnFound (find_grant name rows)
  unfolding find_grant
  find_grant-Own name [] own = tt
  find_grant-Own name (g ∷ gs) own =
      found_in (find_grant name gs) (find_grant-Own name gs (λ h r. own h (inr r)))
    where
      pick : (b : Bool) → OwnFound (if b then some g else none)
      pick true = own g (inl refl)
      pick false = tt

      found_in :
          (later : Option ToolGrant)
          → OwnFound later
          → OwnFound (elim later [
            | some h ↦ some h
            | none ↦ if text_eq g.tool_name name then some g else none
          ])
      found_in none h = pick (text_eq g.tool_name name)
      found_in (some h') h = h

  walk-grant_one :
      (now : Time) (found : Option ToolGrant) (newly : List Text)
      → is_owner svc.actor ≡ true
      → OwnFound found
      → Keeps P (grant_one w svc now found newly)
  unfolding grant_one
  walk-grant_one now none newly owner own = Keeps-pure newly
  walk-grant_one now (some g) newly owner own =
      Keeps-if g.granted _ _ (λ _. Keeps-pure newly)
        (λ fresh. Keeps-then (d.set_grant g _ own (GrantStep.grant now owner fresh)) (Keeps-pure _))

  walk-grant_all :
      (now : Time) (grants : List ToolGrant) (names newly : List Text)
      → is_owner svc.actor ≡ true
      → OwnGrants grants
      → Keeps P (grant_all w svc now grants names newly)
  unfolding grant_all
  walk-grant_all now grants [] newly owner own = Keeps-pure newly
  walk-grant_all now grants (name ∷ names) newly owner own =
      let found : OwnFound (find_grant name grants) = find_grant-Own name grants own in
      Keeps-bind (grant_one w svc now (find_grant name grants) newly)
        (λ more. grant_all w svc now grants names more)
        (walk-grant_one now (find_grant name grants) newly owner found)
        (λ more _. walk-grant_all now grants names more owner own)

  walk-record_grants :
      (found : VersionDetail) (names : List Text) → Keeps P (record_grants w svc found names)
  unfolding record_grants
  walk-record_grants found [] = Keeps-pure tt
  walk-record_grants found (name ∷ names) =
      Keeps-then
        (walk-record_event w svc d AuditEvent.tool_granted none (some found.version)
          (Payload.tools (name ∷ names) svc.actor.id))
        (Keeps-pure tt)

  walk-grant_found :
      (id : Uuid) (n : ℕ) (found : VersionDetail) (p : ToolGrantRequest)
      → is_owner svc.actor ≡ true
      → OwnGrants found.tool_grants
      → Keeps P (grant_found w svc id n found p)
  unfolding grant_found
  walk-grant_found id n found p owner own =
      Keeps-bind (lift (validate_requested_tools w.lower p.tools)) _ (Keeps-lift _) λ requested _.
        Keeps-then (Keeps-raise_if _ _) (
          Keeps-bind (draw_now w) _ (walk-draw_now w svc d) λ now _.
            Keeps-bind (grant_all w svc now found.tool_grants requested []) _
              (walk-grant_all now found.tool_grants requested [] owner own)
              λ newly _.
                Keeps-then (walk-record_grants found newly)
                  (Keeps-then (walk-commit w svc d) (Keeps-require_version w svc d id n)))

  pub walk-grant_tools :
      (id : Uuid) (n : ℕ) (p : ToolGrantRequest) → Keeps P (grant_tools w svc id n p)
  unfolding grant_tools
  walk-grant_tools id n p =
      Keeps-bind (require_version w svc id n) _ (Keeps-require_version w svc d id n) λ found y.
        Keeps-bind (require_owner w svc) (λ _. grant_found w svc id n found p)
          (Keeps-require_owner w svc d)
          λ _ o.
            let (s, h, loaded) = required-IsLoaded w svc d id n y in
            walk-grant_found id n found p (required_owner w svc d o)
              (λ g r. d.read_grant s found g h loaded r)
