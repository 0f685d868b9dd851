-- ===== src/Services/Walk/Review.antt =====
-- `SkillService.review_version` keeps a predicate with the rules of `Discipline`.
use jarvis_skill_registry.Prelude.{ℕ, ◌≡◌, false, none, some}
use jarvis_skill_registry.Core.Enums.{VersionStatus, AuditEvent}
use jarvis_skill_registry.Models.{Uuid, SkillVersion, Payload, is_reviewed}
use jarvis_skill_registry.Session.{World, Session, raise_if, draw_now}
use jarvis_skill_registry.Session.Keeps.{
  Keeps, Yields, keeps_rules, Keeps-bind, Keeps-then, Keeps-raise_if,
}
use jarvis_skill_registry.Session.Yields.{Yields-bind, Yields-raise_if}
use jarvis_skill_registry.Services.Skills.{
  SkillService, require_version, check_reviewable, mark_reviewed, finish_review, review_found,
  review_version,
}
use jarvis_skill_registry.Services.Discipline.{Discipline, StepKind, VersionStep}
use jarvis_skill_registry.Services.Walk.{
  walk-draw_now, walk-record_event, walk-commit, Keeps-require_version, required-Own, status_of_eq,
  not-false,
}

module _ {P : Session → Type 0} (w : World) (svc : SkillService) (d : Discipline w svc P) where
  open d use {OwnSkill, OwnVersion, OwnGrant}

  walk-check_reviewable : (n : ℕ) (v : SkillVersion) → Keeps P (check_reviewable w svc n v)
  unfolding check_reviewable
  walk-check_reviewable n v = search keeps_rules

  checked-reviewable :
      (n : ℕ) (v : SkillVersion) {u : Unit {0}}
      → Yields P (check_reviewable w svc n v) u
      → (v.status ≡ VersionStatus.draft) × (is_reviewed v ≡ false)
  unfolding check_reviewable
  checked-reviewable n v y =
      let (_, _, rest) = Yields-bind (raise_if _ _) _ (Keeps-raise_if _ _) y in
      let (_, draft, last) = Yields-bind (raise_if _ _) _ (Keeps-raise_if _ _) rest in
      (
        status_of_eq v.status VersionStatus.draft (not-false _ (Yields-raise_if _ _ draft)),
        Yields-raise_if _ _ last,
      )

  walk-mark_reviewed :
      (v : SkillVersion)
      → OwnVersion v
      → (v.status ≡ VersionStatus.draft) × (is_reviewed v ≡ false)
      → d.may StepKind.review
      → Keeps P (mark_reviewed w svc v)
  unfolding mark_reviewed
  walk-mark_reviewed v own (draft, fresh) allowed =
      Keeps-bind (draw_now w) _ (walk-draw_now w svc d)
        (λ now _. d.set_version v _ own (VersionStep.review now draft fresh) allowed)

  walk-finish_review :
      (id : Uuid) (n : ℕ) (v : SkillVersion)
      → Keeps P (mark_reviewed w svc v)
      → Keeps P (finish_review w svc id n v)
  unfolding finish_review
  walk-finish_review id n v marked = Keeps-then marked (
      Keeps-then
        (walk-record_event w svc d AuditEvent.version_reviewed none (some v)
          (Payload.reviewed_by svc.actor.id))
        (Keeps-then (walk-commit w svc d) (Keeps-require_version w svc d id n)))

  walk-review_found :
      (id : Uuid) (n : ℕ) (v : SkillVersion)
      → OwnVersion v
      → d.may StepKind.review
      → Keeps P (review_found w svc id n v)
  unfolding review_found
  walk-review_found id n v own allowed =
      Keeps-bind (check_reviewable w svc n v) (λ _. finish_review w svc id n v)
        (walk-check_reviewable n v)
        (λ _ y.
          walk-finish_review id n v (walk-mark_reviewed v own (checked-reviewable n v y) allowed))

  pub walk-review_version :
      (id : Uuid) (n : ℕ) → d.may StepKind.review → Keeps P (review_version w svc id n)
  unfolding review_version
  walk-review_version id n allowed =
      Keeps-bind (require_version w svc id n) (λ found. review_found w svc id n found.version)
        (Keeps-require_version w svc d id n)
        (λ found y. walk-review_found id n found.version (required-Own w svc d id n y) allowed)
