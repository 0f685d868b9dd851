-- ===== src/Services/Walk/Routes.antt =====
-- Every route keeps a predicate with the rules of `Discipline`, if the updates of versions that the
-- route makes may happen.
use jarvis_skill_registry.Prelude.{ℕ}
use jarvis_skill_registry.Models.{Uuid}
use jarvis_skill_registry.Session.{World, Session}
use jarvis_skill_registry.Session.Keeps.{Keeps, keeps_rules, Keeps-bind, Keeps-pure, Keeps-query}
use jarvis_skill_registry.Repository.Reads.{reads}
use jarvis_skill_registry.Services.Audit.{list_entries}
use jarvis_skill_registry.Services.Skills
use jarvis_skill_registry.Services.Skills.{
  SkillService, SkillCreateRequest, VersionCreateRequest, ToolGrantRequest, require_owner,
  lock_or_raise, require_version,
}
use jarvis_skill_registry.Services.Grants.{grant_tools}
use jarvis_skill_registry.Services.Activation.{activate}
use jarvis_skill_registry.Services.Discipline.{Discipline, StepKind}
use jarvis_skill_registry.Services.Walk.{
  walk-create_skill, walk-update_skill, walk-create_version, walk-disable_skill,
  Keeps-get_skill_detail,
}
use jarvis_skill_registry.Api.Routes.{Request, route}
use jarvis_skill_registry.Services.Walk.Review.{walk-review_version}
use jarvis_skill_registry.Services.Walk.Activation.{walk-activate}
use jarvis_skill_registry.Services.Walk.Grants.{walk-grant_tools}

-- The changes of versions that a request makes.
pub data Uses : Request → StepKind → Type 0 where
  adds_skill : {p : SkillCreateRequest} → Uses (Request.create_skill p) StepKind.create
  adds_version :
      {id : Uuid} {p : VersionCreateRequest} → Uses (Request.create_version id p) StepKind.create
  reviews : {id : Uuid} {n : ℕ} → Uses (Request.review_version id n) StepKind.review
  activates : {id : Uuid} {n : ℕ} → Uses (Request.activate_version id n) StepKind.activate
  supersedes : {id : Uuid} {n : ℕ} → Uses (Request.activate_version id n) StepKind.supersede
  disables : {id : Uuid} → Uses (Request.disable_skill id) StepKind.disable

module _ {P : Session → Type 0} (w : World) (svc : SkillService) (d : Discipline w svc P) where
  open d use {OwnSkill, OwnVersion, OwnGrant}

  Keeps-list_entries : (limit : ℕ) → Keeps P (list_entries w svc.organization_id limit)
  unfolding list_entries
  Keeps-list_entries limit = Keeps-query _

  -- Every route, if the updates of versions that it makes may happen.
  pub walk-route :
      (request : Request)
      → ((kind : StepKind) → Uses request kind → d.may kind)
      → Keeps P (route w svc request)
  unfolding route
  walk-route (Request.list_active_skills department) may = search (keeps_rules, reads)
  walk-route (Request.create_skill p) may =
      Keeps-bind (Skills.create_skill w svc p) _
        (walk-create_skill w svc d p (may _ Uses.adds_skill)) (λ x _. Keeps-pure _)
  walk-route Request.list_skills may = search (keeps_rules, reads)
  walk-route (Request.get_skill id) may =
      Keeps-bind (Skills.get_skill_detail w svc id) _ (Keeps-get_skill_detail w svc d id)
        (λ x _. Keeps-pure _)
  walk-route (Request.update_skill id p) may =
      Keeps-bind (Skills.update_skill w svc id p) _ (walk-update_skill w svc d id p)
        (λ x _. Keeps-pure _)
  walk-route (Request.create_version id p) may =
      Keeps-bind (Skills.create_version w svc id p) _
        (walk-create_version w svc d id p (may _ Uses.adds_version)) (λ x _. Keeps-pure _)
  walk-route (Request.review_version id n) may =
      Keeps-bind (Skills.review_version w svc id n) _
        (walk-review_version w svc d id n (may _ Uses.reviews)) (λ x _. Keeps-pure _)
  walk-route (Request.activate_version id n) may =
      Keeps-bind (activate w svc id n) _
        (walk-activate w svc d id n (may _ Uses.activates, may _ Uses.supersedes))
        (λ x _. Keeps-pure _)
  walk-route (Request.grant_tools id n p) may =
      Keeps-bind (grant_tools w svc id n p) _ (walk-grant_tools w svc d id n p)
        (λ x _. Keeps-pure _)
  walk-route (Request.disable_skill id) may =
      Keeps-bind (Skills.disable_skill w svc id) _
        (walk-disable_skill w svc d id (may _ Uses.disables)) (λ x _. Keeps-pure _)
  walk-route (Request.list_audit limit) may =
      Keeps-bind (list_entries w svc.organization_id limit) _ (Keeps-list_entries limit)
        (λ x _. Keeps-pure _)
